-- ===== src/Volte/SignalsKept.antt =====
-- SIP messages (ims/volte.py) on a well-formed phone.
use virtual_phone.Prelude.{
  ℕ, suc, ◌+◌, ◌≡◌, ◌≢◌, refl, sym, ap, ◌∙◌, Bool, true, false, ◌&&◌, ◌||◌, Option, none, some,
  List, [], ◌∷◌, ◌==◌, ltb, if◌then◌else◌, arith, Bool-cases, Option-cases, inl, inr, Result, ok,
  raised, text_key, find-store_other, find-remove_same, find-remove_other, same_text,
}
use virtual_phone.Sms.Gsm7.{Text}
use virtual_phone.Texts.{codes, contains}
use virtual_phone.Sdp.{extract_number_from_uri}
use virtual_phone.Volte.Media.{hold_media, resume_media}
use virtual_phone.Volte.State.{
  Phone, VolteCall, VolteCallState, CallState, Reply, indicate, call_for, put_call, drop_call,
  recount, reply, send,
}
use virtual_phone.Volte.Outgoing.{hangup_call}
use virtual_phone.Volte.Voice.{first_voice, is_active_voice}
use virtual_phone.Volte.Incoming.{
  Message, Fresh, initiated, initiate_call, forward_number, arriving, present, incoming_call,
  last_index, invited_call, set_index, numbered, announced, handle_incoming_invite, forgotten,
  handle_incoming_cancel, handle_incoming_bye, handle_reinvite,
}
use virtual_phone.Volte.Tables.{found-name}
use virtual_phone.Volte.Indexes.{without_sip-Indexes}
use virtual_phone.Volte.Invariant.{
  WellFormed, put_call-WellFormed, drop_call-WellFormed, same_tables, either, either_pair,
  either_radio, reply-WellFormed, changed-WellFormed,
}
use virtual_phone.Volte.CallsKept.{
  add_call-WellFormed, begin_call-WellFormed, finish_call-WellFormed, hangup_call-WellFormed,
}
use virtual_phone.Volte.VoicesKept.{indicated-WellFormed, add_voice-WellFormed}

-- A Call-ID that is not in the table is not there after a call was ended either.
pub hangup_call-fresh :
    (fresh id : Text) (p : Phone)
    → call_for fresh p ≡ none
    → call_for fresh (hangup_call id p).0 ≡ none
unfolding hangup_call drop_call recount send
hangup_call-fresh fresh id p h = elim (Option-cases (call_for id p)) [
  | inl missing ↦ rw missing h
  | inr (call, there) ↦
      let gone : call_for fresh (drop_call id p) ≡ none =
        elim (Bool-cases (text_key.same fresh id)) [
          | inl e ↦ cc (h, text_key.same_sound fresh id e, there)
          | inr e ↦ find-remove_other text_key fresh id p.calls e ∙ h
        ] in
      rw there (either_none (p.has_client && p.started) _ _ gone gone)
]
  where
    either_none :
        (b : Bool) (r s : Phone × Bool)
        → call_for fresh r.0 ≡ none
        → call_for fresh s.0 ≡ none
        → call_for fresh (if b then r else s).0 ≡ none
    either_none true r s hr hs = hr
    either_none false r s hr hs = hs

initiated-WellFormed :
    (result : Reply) (starts : Bool) (r : Phone × Option VolteCall)
    → WellFormed r.0
    → WellFormed (initiated result starts r).0
initiated-WellFormed result starts (p, none) h = h
initiated-WellFormed result starts (p, some waiting) h =
    finish_call-WellFormed result starts waiting p h

initiate_call-WellFormed :
    (fresh : Fresh) (number : Text) (index : ℕ) (p : Phone)
    → call_for fresh.id p ≡ none
    → WellFormed p
    → WellFormed (initiate_call fresh number index p).0
unfolding initiate_call
initiate_call-WellFormed fresh number index p missing h =
    initiated-WellFormed fresh.result fresh.starts _
      (begin_call-WellFormed fresh.id number index p missing h)

present-WellFormed :
    (number id : Text) (target : Option Text) (fresh : Fresh) (p : Phone)
    → call_for fresh.id p ≡ none
    → WellFormed p
    → WellFormed (present number id target fresh p).0
present-WellFormed number id none fresh p missing h = indicated-WellFormed 1001 _ (
    indicated-WellFormed 1002 _ (
      add_voice-WellFormed (arriving (first_voice is_active_voice p.radio.voice_calls)) true number
        id p h))
present-WellFormed number id (some target) fresh p missing h =
    either_pair p.has_manager _ (p, ok tt)
      (initiate_call-WellFormed fresh target 0 (hangup_call id p).0
        (hangup_call-fresh fresh.id id p missing) (hangup_call-WellFormed id p h))
      h

set_index-WellFormed :
    (id : Text) (index : ℕ) (p : Phone)
    → WellFormed p
    → WellFormed (set_index index (call_for id p) p)
set_index-WellFormed id index p h = elim (Option-cases (call_for id p)) [
  | inl missing ↦ rw missing h
  | inr (call, there) ↦
      let name = found-name id call p.calls h.keyed there in
      rw there (
        put_call-WellFormed call.sip_call_id call (record call { radio_call_index = index }) p
          (ap (λ k. call_for k p) name ∙ there) refl refl h)
]

numbered-WellFormed :
    (id : Text) (index : Option ℕ) (p : Phone) → WellFormed p → WellFormed (numbered id index p).0
numbered-WellFormed id none p h = h
numbered-WellFormed id (some index) p h = set_index-WellFormed id index p h

announced-WellFormed :
    (id : Text) (r : Phone × Result (Unit {0})) → WellFormed r.0 → WellFormed (announced id r).0
announced-WellFormed id (p, raised error) h = h
announced-WellFormed id (p, ok _) h = numbered-WellFormed id (last_index p.radio.voice_calls) p h

pub reply-calls :
    (status : ℕ) (id body : Text) (p : Phone) → (reply status id body p).calls ≡ p.calls
unfolding reply send
reply-calls status id body p = ground arith

reply-port :
    (status : ℕ) (id body : Text) (p : Phone)
    → (reply status id body p).rtp_port_next ≡ p.rtp_port_next
unfolding reply send
reply-port status id body p = ground arith

pub invite-WellFormed :
    (m : Message) (fresh : Fresh) (p : Phone)
    → call_for m.call_id p ≡ none
    → call_for fresh.id p ≡ none
    → fresh.id ≢ m.call_id
    → WellFormed p
    → WellFormed (handle_incoming_invite m fresh p).0
unfolding handle_incoming_invite incoming_call put_call
invite-WellFormed m fresh p new missing differ h =
    let ringing : Phone = reply 180 m.call_id [] p in
    let same : ringing.calls ≡ p.calls = reply-calls 180 m.call_id [] p in
    let call : VolteCall = invited_call m p in
    let taken =
      add_call-WellFormed m.call_id call ringing
        (ap (virtual_phone.Prelude.find text_key m.call_id) same ∙ new)
        (sym (reply-port 180 m.call_id [] p)) refl (reply-WellFormed 180 m.call_id [] p h) in
    let other : text_key.same fresh.id m.call_id ≡ false = not_same fresh.id m.call_id differ in
    either_pair ringing.has_radio _ _
      (announced-WellFormed m.call_id _ (
        present-WellFormed (extract_number_from_uri m.from_header) m.call_id
          (forward_number ringing.radio.forwarding) fresh _
          (unfold put_call in
            (find-store_other text_key fresh.id m.call_id call ringing.calls other
              ∙ ap (virtual_phone.Prelude.find text_key fresh.id) same
              ∙ missing))
          taken))
      taken
  where
    not_same : (a b : Text) → a ≢ b → text_key.same a b ≡ false
    not_same a b n = elim (Bool-cases (text_key.same a b)) [
      | inl e ↦ absurd (n (text_key.same_sound a b e))
      | inr e ↦ e
    ]

forgotten-WellFormed :
    (id : Text) (call : Option VolteCall) (p : Phone)
    → WellFormed p
    → WellFormed (forgotten id call p)
unfolding indicate
forgotten-WellFormed id none p h = h
forgotten-WellFormed id (some call) p h =
    same_tables p _ refl refl
      (either_radio p.has_radio _ p.radio
        (without_sip-Indexes id 0 p.radio.next_call_index p.radio.voice_calls h.ordered) h.ordered)
      h

pub cancel-WellFormed :
    (m : Message) (p : Phone) → WellFormed p → WellFormed (handle_incoming_cancel m p)
unfolding handle_incoming_cancel
cancel-WellFormed m p h =
    forgotten-WellFormed m.call_id (call_for m.call_id p) _
      (reply-WellFormed 200 m.call_id [] _ (drop_call-WellFormed m.call_id p h))

pub bye-WellFormed : (m : Message) (p : Phone) → WellFormed p → WellFormed (handle_incoming_bye m p)
unfolding handle_incoming_bye recount
bye-WellFormed m p h =
    let ended = cancel-WellFormed m p h in
    same_tables (handle_incoming_cancel m p) _ (unfold handle_incoming_cancel in refl)
      (unfold handle_incoming_cancel in refl) (unfold handle_incoming_cancel in ended.ordered) ended

pub reinvite-WellFormed :
    (m : Message) (call : VolteCall) (p : Phone)
    → call_for m.call_id p ≡ some call
    → WellFormed p
    → WellFormed (handle_reinvite m call p)
unfolding handle_reinvite hold_media resume_media
reinvite-WellFormed m call p there h =
    let id : Text = m.call_id in
    let name = found-name id call p.calls h.keyed there in
    let new : VolteCall = record call { remote_sdp = m.body } in
    reply-WellFormed 200 id call.local_sdp _ (
      either (contains (codes "a=sendonly") m.body || contains (codes "a=inactive") m.body) _ _
        (changed-WellFormed id call (hold_media (record new { state = VolteCallState.held }))
          call.radio_call_index CallState.holding p there refl name h)
        (either (contains (codes "a=sendrecv") m.body) _ _
          (changed-WellFormed id call (resume_media (record new { state = VolteCallState.active }))
            call.radio_call_index CallState.active p there refl name h)
          (put_call-WellFormed id call new p there refl name h)))
