-- ===== src/Volte/HoldsKept.antt =====
-- Holding, conferences and transfers (ims/volte.py) on a well-formed phone.
use virtual_phone.Prelude.{◌≡◌, refl, true, false, ◌&&◌, Option, none, some, Option-cases, inl, inr}
use virtual_phone.Sms.Gsm7.{Text}
use virtual_phone.Texts.{codes}
use virtual_phone.Volte.Media.{hold_media, resume_media}
use virtual_phone.Volte.State.{
  Phone, VolteCall, VolteCallState, CallState, Reply, timeout, answered, call_for, recount, send,
  is_up, indicate, is_active, is_held,
}
use virtual_phone.Volte.Hold.{
  reinvite, moved, hold_call, resume_call, first_call, last_call, swap_calls, swapped,
  conference_calls,
}
use virtual_phone.Volte.Transfer.{is_accepted, transferable, transfer_call, attended_transfer}
use virtual_phone.Volte.Tables.{found-name, last_call_found}
use virtual_phone.Volte.Indexes.{update_call_state-Ordered, merge_voice-Indexes}
use virtual_phone.Volte.Invariant.{
  WellFormed, put_call-WellFormed, same_tables, either, either_pair, either_radio,
}

reinvite-WellFormed :
    (result : Reply) (id body : Text) (p : Phone)
    → WellFormed p
    → WellFormed (reinvite result id body p)
unfolding reinvite send
reinvite-WellFormed timeout id body p h =
    either (is_up p) _ p (same_tables p _ refl refl h.ordered h) h
reinvite-WellFormed (answered _ _) id body p h =
    either (is_up p) _ p (same_tables p _ refl refl h.ordered h) h

moved-WellFormed :
    (state : VolteCallState) (radio_state : CallState) (direction : Text) (result : Reply)
    (id : Text) (found call : VolteCall) (p : Phone)
    → call_for id p ≡ some found
    → call.rtp_port ≡ found.rtp_port
    → call.sip_call_id ≡ id
    → WellFormed p
    → WellFormed (moved state radio_state direction result id call p)
unfolding moved recount
moved-WellFormed state radio_state direction result id found call p there port name h =
    let put = put_call-WellFormed id found (record call { state = state }) p there port name h in
    let sent = reinvite-WellFormed result id _ _ put in
    record {
      ports = sent.ports;
      keyed = sent.keyed;
      ordered =
          either_radio _ _ _
            (update_call_state-Ordered call.radio_call_index radio_state _ sent.ordered)
            sent.ordered;
    }

pub hold_call-WellFormed :
    (result : Reply) (id : Text) (p : Phone) → WellFormed p → WellFormed (hold_call result id p).0
unfolding hold_call hold_media
hold_call-WellFormed result id p h = elim (Option-cases (call_for id p)) [
  | inl missing ↦ rw missing h
  | inr (call, there) ↦ rw there (
      either_pair (is_active call.state) _ (p, false)
        (moved-WellFormed VolteCallState.held CallState.holding (codes "sendonly") result id call
          (hold_media call) p there refl (found-name id call p.calls h.keyed there) h)
        h)
]

pub resume_call-WellFormed :
    (result : Reply) (id : Text) (p : Phone) → WellFormed p → WellFormed (resume_call result id p).0
unfolding resume_call resume_media
resume_call-WellFormed result id p h = elim (Option-cases (call_for id p)) [
  | inl missing ↦ rw missing h
  | inr (call, there) ↦ rw there (
      either_pair (is_held call.state) _ (p, false)
        (moved-WellFormed VolteCallState.active CallState.active (codes "sendrecv") result id call
          (resume_media call) p there refl (found-name id call p.calls h.keyed there) h)
        h)
]

swapped-WellFormed :
    (holds resumes : Reply) (active held : Option VolteCall) (p : Phone)
    → WellFormed p
    → WellFormed (swapped holds resumes active held p).0
swapped-WellFormed holds resumes none none p h = h
swapped-WellFormed holds resumes none (some held) p h =
    resume_call-WellFormed resumes held.sip_call_id p h
swapped-WellFormed holds resumes (some active) none p h =
    hold_call-WellFormed holds active.sip_call_id p h
swapped-WellFormed holds resumes (some active) (some held) p h =
    resume_call-WellFormed resumes held.sip_call_id (hold_call holds active.sip_call_id p).0
      (hold_call-WellFormed holds active.sip_call_id p h)

pub swap_calls-WellFormed :
    (holds resumes : Reply) (p : Phone) → WellFormed p → WellFormed (swap_calls holds resumes p).0
unfolding swap_calls
swap_calls-WellFormed holds resumes p h =
    swapped-WellFormed holds resumes (first_call is_active p.calls) (first_call is_held p.calls) p h

pub conference_calls-WellFormed : (p : Phone) → WellFormed p → WellFormed (conference_calls p).0
unfolding conference_calls recount indicate resume_media
conference_calls-WellFormed p h = elim (Option-cases (last_call is_active p.calls)) [
  | inl none_active ↦ rw none_active h
  | inr (one, first) ↦ elim (Option-cases (last_call is_held p.calls)) [
    | inl none_held ↦ rw (first, none_held) h
    | inr (two, second) ↦
        let there = (last_call_found is_held p.calls two h.keyed second).0 in
        let put =
          put_call-WellFormed two.sip_call_id two
            (resume_media (record two { state = VolteCallState.active })) p there refl refl h in
        rw (first, second)
          (record {
            ports = put.ports;
            keyed = put.keyed;
            ordered =
                either_radio p.has_radio _ p.radio
                  (merge_voice-Indexes one.sip_call_id two.sip_call_id 0 p.radio.next_call_index
                    p.radio.voice_calls h.ordered)
                  h.ordered;
          })
  ]
]

pub transfer_call-WellFormed :
    (result : Reply) (id target : Text) (p : Phone)
    → WellFormed p
    → WellFormed (transfer_call result id target p).0
unfolding transfer_call send
transfer_call-WellFormed result id target p h = elim (Option-cases (call_for id p)) [
  | inl missing ↦ rw missing h
  | inr (call, there) ↦
      let name = found-name id call p.calls h.keyed there in
      rw there (
        either_pair (transferable call && is_up p) _ (p, false)
          (either_pair (is_accepted result) _ _
            (let put =
                put_call-WellFormed id call
                  (record call {
                    state = VolteCallState.active;
                    transfer_pending = true;
                    transfer_target = _;
                  })
                  p there refl name h in
              record { ports = put.ports; keyed = put.keyed; ordered = h.ordered })
            (same_tables p _ refl refl h.ordered h))
          h)
]

pub attended_transfer-WellFormed :
    (result : Reply) (id_a id_b : Text) (p : Phone)
    → WellFormed p
    → WellFormed (attended_transfer result id_a id_b p).0
unfolding attended_transfer send
attended_transfer-WellFormed result id_a id_b p h = elim (Option-cases (call_for id_a p)) [
  | inl missing ↦ rw missing h
  | inr (call, there) ↦ elim (Option-cases (call_for id_b p)) [
    | inl missing ↦ rw (there, missing) h
    | inr (other, beside) ↦
        let waiting : VolteCall = record call {
          transfer_pending = true;
          transfer_target = other.remote_uri;
        } in
        let put =
          put_call-WellFormed id_a call waiting p there refl
            (found-name id_a call p.calls h.keyed there) h in
        rw (there, beside)
          (either_pair (transferable call && is_up p) _ (p, false)
            (either_pair (is_accepted result) _ _
              (record { ports = put.ports; keyed = put.keyed; ordered = h.ordered })
              (same_tables p _ refl refl h.ordered h))
            h)
  ]
]
