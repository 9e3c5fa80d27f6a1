-- ===== src/Volte/CallsKept.antt =====
-- Starting, answering and ending calls (ims/volte.py) on a well-formed phone.
use virtual_phone.Prelude.{
  ℕ, ◌+◌, ◌≡◌, refl, ◌∙◌, Bool, false, ◌&&◌, Option, none, some, ◌==◌, arith, Option-cases, inl,
  inr, text_key, find-store_same,
}
use virtual_phone.Sms.Gsm7.{Text}
use virtual_phone.Sdp.{extract_codec_from_sdp}
use virtual_phone.Volte.Media.{start_media}
use virtual_phone.Volte.State.{
  Phone, VolteCall, VolteCallState, CallState, Reply, timeout, answered, call_for, put_call,
  drop_call, recount, send, is_up, is_ringing_in,
}
use virtual_phone.Volte.Outgoing.{
  new_call, begin_call, connected, failed, finish_call, answer_call, hangup_call, accepted,
}
use virtual_phone.Volte.Tables.{add-Ports, store-Keyed, found-name}
use virtual_phone.Volte.Indexes.{update_call_state-Ordered}
use virtual_phone.Volte.Invariant.{
  WellFormed, put_call-WellFormed, drop_call-WellFormed, same_tables, either_pair, either_radio,
}

start_media-port :
    (starts : Bool) (call : VolteCall) → (start_media starts call).rtp_port ≡ call.rtp_port
unfolding start_media
start_media-port starts call = ground arith

start_media-name :
    (starts : Bool) (call : VolteCall) → (start_media starts call).sip_call_id ≡ call.sip_call_id
unfolding start_media
start_media-name starts call = ground arith

-- A call under a Call-ID that the table does not have, at the next port.
pub add_call-WellFormed :
    (id : Text) (call : VolteCall) (p : Phone)
    → call_for id p ≡ none
    → call.rtp_port ≡ p.rtp_port_next
    → call.sip_call_id ≡ id
    → WellFormed p
    → WellFormed (put_call id call (record p { rtp_port_next = p.rtp_port_next + 2 }))
unfolding put_call
add_call-WellFormed id call p missing port name h = record {
  ports = add-Ports id call 0 p.rtp_port_next p.calls missing port h.ports;
  keyed = store-Keyed id call p.calls name h.keyed;
  ordered = h.ordered;
}

pub begin_call-WellFormed :
    (id number : Text) (index : ℕ) (p : Phone)
    → call_for id p ≡ none
    → WellFormed p
    → WellFormed (begin_call id number index p).0
unfolding begin_call send
begin_call-WellFormed id number index p missing h =
    let taken = add_call-WellFormed id (new_call id number index p) p missing refl refl h in
    either_pair p.started _ (p, none)
      (same_tables
        (put_call id (new_call id number index p)
          (record p { rtp_port_next = p.rtp_port_next + 2 }))
        _ refl refl taken.ordered taken)
      h

connected-WellFormed :
    (body : Text) (starts : Bool) (begun : VolteCall) (p : Phone)
    → WellFormed p
    → WellFormed (connected body starts begun p)
unfolding connected recount send
connected-WellFormed body starts begun p h = elim (Option-cases (call_for begun.sip_call_id p)) [
  | inl missing ↦ rw missing (
      same_tables p _ refl refl
        (either_radio p.has_radio _ p.radio
          (update_call_state-Ordered begun.radio_call_index CallState.active p.radio h.ordered)
          h.ordered)
        h)
  | inr (call, there) ↦
      let id : Text = begun.sip_call_id in
      let name : call.sip_call_id ≡ id = found-name id call p.calls h.keyed there in
      let first : VolteCall = accepted body call in
      let put : WellFormed (put_call id first p) =
        put_call-WellFormed id call first p there refl name h in
      let again : WellFormed (put_call id (start_media starts first) (put_call id first p)) =
        put_call-WellFormed id first (start_media starts first) (put_call id first p)
          (unfold put_call in find-store_same text_key id first p.calls)
          (start_media-port starts first) (start_media-name starts first ∙ name) put in
      rw there (
        unfold put_call in
        record {
          ports = again.ports;
          keyed = again.keyed;
          ordered =
              either_radio p.has_radio _ p.radio
                (update_call_state-Ordered begun.radio_call_index CallState.active p.radio
                  h.ordered)
                h.ordered;
        })
]

failed-WellFormed :
    (found : Option VolteCall) (id : Text) (p : Phone)
    → WellFormed p
    → WellFormed (failed found id p).0
unfolding failed
failed-WellFormed none id p h = h
failed-WellFormed (some call) id p h = drop_call-WellFormed id p h

pub finish_call-WellFormed :
    (result : Reply) (starts : Bool) (begun : VolteCall) (p : Phone)
    → WellFormed p
    → WellFormed (finish_call result starts begun p).0
unfolding finish_call
finish_call-WellFormed timeout starts begun p h =
    failed-WellFormed (call_for begun.sip_call_id p) begun.sip_call_id p h
finish_call-WellFormed (answered status body) starts begun p h =
    either_pair (status == 200) _ _ (connected-WellFormed body starts begun p h)
      (failed-WellFormed (call_for begun.sip_call_id p) begun.sip_call_id p h)

pub answer_call-WellFormed :
    (starts : Bool) (id : Text) (p : Phone) → WellFormed p → WellFormed (answer_call starts id p).0
unfolding answer_call recount send
answer_call-WellFormed starts id p h = elim (Option-cases (call_for id p)) [
  | inl missing ↦ rw missing h
  | inr (call, there) ↦
      let first : VolteCall = record call {
        state = VolteCallState.active;
        codec = extract_codec_from_sdp call.remote_sdp;
      } in
      let taken : VolteCall = start_media starts first in
      let put =
        put_call-WellFormed id call taken p there (start_media-port starts first)
          (start_media-name starts first ∙ found-name id call p.calls h.keyed there) h in
      rw there (
        either_pair (is_ringing_in call.state && (call.invite_stored && p.has_client)) _ (p, false)
          (record { ports = put.ports; keyed = put.keyed; ordered = h.ordered }) h)
]

pub hangup_call-WellFormed :
    (id : Text) (p : Phone) → WellFormed p → WellFormed (hangup_call id p).0
unfolding hangup_call recount send
hangup_call-WellFormed id p h = elim (Option-cases (call_for id p)) [
  | inl missing ↦ rw missing h
  | inr (call, there) ↦
      let gone = drop_call-WellFormed id p h in
      rw there (
        either_pair (is_up p) _ (drop_call id p, false)
          (same_tables (drop_call id p) _ refl refl gone.ordered gone) gone)
]
