-- ===== src/Volte/Arrivals.antt =====
-- INVITEs that arrive for a call that is known, and for one that is forwarded (ims/volte.py with
-- hal/radio_hal.py).
use virtual_phone.Prelude.{
  ℕ, ◌+◌, ◌≡◌, refl, ap, ◌∙◌, Bool, true, false, ◌||◌, Option, none, some, [], ◌==◌, if◌then◌else◌,
  arith, Option-cases, Bool-cases, inl, inr, find, text_key, find-store_same, Result, ok, raised,
  index_error,
}
use virtual_phone.Sms.Gsm7.{Text}
use virtual_phone.Texts.{codes, contains}
use virtual_phone.Sdp.{extract_number_from_uri}
use virtual_phone.Volte.State.{
  Phone, Radio, VolteCall, CallState, Method, Reply, answered, timeout, call_for, put_call,
  drop_call, recount, send, reply, set_voice, changed_voice, update_call_state, is_up,
}
use virtual_phone.Volte.Media.{hold_media, resume_media}
use virtual_phone.Volte.Outgoing.{begin_call, connected, failed, finish_call, hangup_call, new_call}
use virtual_phone.Volte.Held.{held_call, resumed_call}
use virtual_phone.Volte.Incoming.{
  Message, Fresh, initiate_call, forward_number, settled, present, incoming_call, last_index,
  rings_radio, announced, invited_call, handle_incoming_invite, redirected, handle_reinvite,
}
use virtual_phone.Volte.Signals.{handle_incoming_sip}
use virtual_phone.Volte.SignalsKept.{reply-calls}

-- What the session description of a re-INVITE makes of the call.
abbrev pub redirected_call : Text → VolteCall → VolteCall
redirected_call body call =
    let new : VolteCall = record call { remote_sdp = body } in
    if contains (codes "a=sendonly") body || contains (codes "a=inactive") body
    then held_call new
    else if contains (codes "a=sendrecv") body
    then resumed_call new
    else new

redirected-call :
    (id : Text) (call : VolteCall) (p : Phone)
    → call_for id (redirected id call p) ≡ some (redirected_call call.remote_sdp call)
unfolding hold_media resume_media put_call
redirected-call id call p =
    elim (Bool-cases (
      contains (codes "a=sendonly") call.remote_sdp
      || contains (codes "a=inactive") call.remote_sdp)) [
        | inl away ↦ rw away (find-store_same text_key id (held_call call) p.calls)
        | inr not_away ↦
            rw not_away (elim (Bool-cases (contains (codes "a=sendrecv") call.remote_sdp)) [
              | inl back ↦ rw back (find-store_same text_key id (resumed_call call) p.calls)
              | inr neither ↦ rw neither (find-store_same text_key id call p.calls)
            ])
      ]

-- An INVITE for a call that is in the table is taken as a re-INVITE, whatever the state of the call:
-- with sendonly or inactive the call is held, with sendrecv it is active, a ringing one too, and else
-- only its session description changes.
pub handle_incoming_sip-reinvite :
    (pending : Bool) (m : Message) (fresh : Fresh) (call : VolteCall) (p : Phone)
    → m.is_response ≡ false
    → m.method ≡ Method.invite
    → call_for m.call_id p ≡ some call
    → call_for m.call_id (handle_incoming_sip pending m fresh p).0
      ≡ some (redirected_call m.body call)
unfolding handle_incoming_sip handle_reinvite
handle_incoming_sip-reinvite pending m fresh call p request invite there =
    rw (request, invite, there)
      (ap (find text_key m.call_id) (
          reply-calls 200 m.call_id call.local_sdp
            (redirected m.call_id (record call { remote_sdp = m.body }) p))
        ∙ redirected-call m.call_id (record call { remote_sdp = m.body }) p)

abbrev is_ok {ℓ} : {A : Type ℓ} → Result A → Bool
is_ok (ok _) = true
is_ok (raised _) = false

-- No voice calls, and no exception.
abbrev Lone {ℓ} : {A : Type ℓ} → Phone × Result A → Type 0
Lone r = (r.0.radio.voice_calls ≡ []) × (is_ok r.1 ≡ true)

either_Lone {ℓ} :
    {A : Type ℓ} (b : Bool) (r s : Phone × Result A) → Lone r → Lone s → Lone (if b then r else s)
either_Lone true r s hr hs = hr
either_Lone false r s hr hs = hs

unnamed :
    (index : ℕ) (state : CallState) (r : Radio)
    → r.voice_calls ≡ []
    → (update_call_state index state r).voice_calls ≡ []
unfolding update_call_state set_voice changed_voice
unnamed index state r none_there = rw none_there refl

either_lone :
    (b : Bool) (r s : Radio)
    → r.voice_calls ≡ []
    → s.voice_calls ≡ []
    → (if b then r else s).voice_calls ≡ []
either_lone true r s hr hs = hr
either_lone false r s hr hs = hs

connected-lone :
    (body : Text) (starts : Bool) (begun : VolteCall) (p : Phone)
    → p.radio.voice_calls ≡ []
    → (connected body starts begun p).radio.voice_calls ≡ []
unfolding connected put_call recount send
connected-lone body starts begun p lone = elim (Option-cases (call_for begun.sip_call_id p)) [
  | inl gone ↦ rw gone (
      either_lone p.has_radio _ p.radio
        (unnamed begun.radio_call_index CallState.active p.radio lone) lone)
  | inr (call, there) ↦ rw there (
      either_lone p.has_radio _ p.radio
        (unnamed begun.radio_call_index CallState.active p.radio lone) lone)
]

finish_call-Lone :
    (result : Reply) (starts : Bool) (begun found : VolteCall) (p : Phone)
    → call_for begun.sip_call_id p ≡ some found
    → p.radio.voice_calls ≡ []
    → Lone (finish_call result starts begun p)
unfolding finish_call failed drop_call
finish_call-Lone timeout starts begun found p there lone = rw there (lone, refl)
finish_call-Lone (answered status body) starts begun found p there lone =
    elim (Bool-cases (status == 200)) [
      | inl accepted ↦ rw accepted (connected-lone body starts begun p lone, refl)
      | inr refused ↦ rw (refused, there) (lone, refl)
    ]

initiate_call-Lone :
    (fresh : Fresh) (number : Text) (index : ℕ) (p : Phone)
    → p.radio.voice_calls ≡ []
    → Lone (initiate_call fresh number index p)
unfolding initiate_call begin_call put_call send
initiate_call-Lone fresh number index p lone = elim (Bool-cases p.started) [
  | inl on ↦ rw on (
      finish_call-Lone fresh.result fresh.starts (new_call fresh.id number index p)
        (new_call fresh.id number index p) _
        (find-store_same text_key fresh.id (new_call fresh.id number index p) p.calls) lone)
  | inr off ↦ rw off (lone, refl)
]

hangup_call-radio : (id : Text) (p : Phone) → (hangup_call id p).0.radio ≡ p.radio
unfolding hangup_call drop_call recount send
hangup_call-radio id p = elim (Option-cases (call_for id p)) [
  | inl missing ↦ rw missing refl
  | inr (call, there) ↦
      rw there (elim (Bool-cases (is_up p)) [ inl up ↦ rw up refl | inr down ↦ rw down refl ])
]

announced-Lone :
    (id : Text) (r : Phone × Result (Unit {0})) → Lone r → (announced id r).1 ≡ raised index_error
unfolding last_index
announced-Lone id (p, ok _) h = rw (h.0) refl
announced-Lone id (p, raised error) h = absurd (cc (h.1))

settled-ok :
    (outcome : Result (Option Text)) → is_ok outcome ≡ true → is_ok (settled outcome) ≡ true
settled-ok (ok _) h = refl
settled-ok (raised error) h = absurd (cc (h))

present-Lone :
    (number id target : Text) (fresh : Fresh) (p : Phone)
    → p.radio.voice_calls ≡ []
    → Lone (present number id (some target) fresh p)
present-Lone number id target fresh p lone =
    let started = initiate_call fresh target 0 (hangup_call id p).0 in
    let kept =
      initiate_call-Lone fresh target 0 (hangup_call id p).0
        (ap (λ r. r.voice_calls) (hangup_call-radio id p) ∙ lone) in
    either_Lone p.has_manager (started.0, settled started.1) (p, ok tt)
      (kept.0, settled-ok started.1 kept.1) (lone, refl)

reply-radio : (status : ℕ) (id body : Text) (p : Phone) → (reply status id body p).radio ≡ p.radio
unfolding reply send
reply-radio status id body p = ground arith

reply-has_radio :
    (status : ℕ) (id body : Text) (p : Phone) → (reply status id body p).has_radio ≡ p.has_radio
unfolding reply send
reply-has_radio status id body p = ground arith

when {ℓ} : {A : Type ℓ} (b : Bool) (x y : A) → b ≡ true → (if b then x else y) ≡ x
when true x y h = refl
when false x y h = absurd (cc (h))

arrived-forwarded :
    (m : Message) (fresh : Fresh) (target : Text) (q : Phone)
    → q.has_radio ≡ true
    → forward_number q.radio.forwarding ≡ some target
    → q.radio.voice_calls ≡ []
    → (rings_radio m fresh q).1 ≡ raised index_error
unfolding incoming_call
arrived-forwarded m fresh target q radio forward lone =
    ap (λ (r : Phone × Result (Unit {0})). r.1) (when q.has_radio _ (q, ok tt) radio)
    ∙ rw forward (
        announced-Lone m.call_id
          (present (extract_number_from_uri m.from_header) m.call_id (some target) fresh q)
          (present-Lone (extract_number_from_uri m.from_header) m.call_id target fresh q lone))

-- An INVITE that is forwarded unconditionally ends in an IndexError if the call manager has the radio
-- and there are no voice calls, however the forwarded call ends, and also if the radio has no call
-- manager: the call that is looked for at the end of the list was never added. The INVITE's Call-ID is
-- not in the table.
pub handle_incoming_sip-forwarded :
    (pending : Bool) (m : Message) (fresh : Fresh) (target : Text) (p : Phone)
    → m.is_response ≡ false
    → m.method ≡ Method.invite
    → call_for m.call_id p ≡ none
    → p.has_radio ≡ true
    → forward_number p.radio.forwarding ≡ some target
    → p.radio.voice_calls ≡ []
    → (handle_incoming_sip pending m fresh p).1 ≡ raised index_error
unfolding handle_incoming_sip handle_incoming_invite put_call
handle_incoming_sip-forwarded pending m fresh target p request invite unknown radio forward lone =
    let same : (reply 180 m.call_id [] p).radio ≡ p.radio = reply-radio 180 m.call_id [] p in
    let ringing : Phone = reply 180 m.call_id [] p in
    rw (request, invite, unknown)
      (arrived-forwarded m fresh target
        (put_call m.call_id (invited_call m p)
          (record ringing { rtp_port_next = ringing.rtp_port_next + 2 }))
        (reply-has_radio 180 m.call_id [] p ∙ radio)
        (ap (λ r. forward_number r.forwarding) same ∙ forward)
        (ap (λ r. r.voice_calls) same ∙ lone))
