-- ===== src/Volte/Hold.antt =====
-- Holding, resuming, swapping and merging calls (ims/volte.py).
use virtual_phone.Prelude.{
  Bool, true, false, ◌||◌, Option, none, some, List, [], ◌∷◌, if◌then◌else◌, text_key,
}
use virtual_phone.Sms.Gsm7.{Text}
use virtual_phone.Texts.{codes}
use virtual_phone.Sdp.{build_sdp_offer}
use virtual_phone.Volte.Media.{hold_media, resume_media}
use virtual_phone.Volte.State.{
  Phone, Radio, VoiceCall, VolteCall, VolteCallState, CallState, Method, request, Reply, timeout,
  answered, call_for, put_call, recount, send, is_up, local_ip_of, update_call_state, to_radio,
  indicate, is_active, is_held,
}

-- The re-INVITE, and the ACK unless it times out.
unfoldable pub reinvite : Reply → Text → Text → Phone → Phone
unfolding send
reinvite timeout id body p = if is_up p then send (request Method.invite id body) p else p
reinvite (answered _ _) id body p =
    if is_up p then send (request Method.ack id []) (send (request Method.invite id body) p) else p

-- hold_call and resume_call after their tests; `direction` is that of the media offered.
unfoldable pub moved : VolteCallState → CallState → Text → Reply → Text → VolteCall → Phone → Phone
unfolding put_call reinvite update_call_state recount build_sdp_offer
moved state radio_state direction result id call p =
    let sdp =
      build_sdp_offer (local_ip_of p.config) call.rtp_port p.config.codec_priority direction in
    recount (
      to_radio (update_call_state call.radio_call_index radio_state)
        (reinvite result id sdp (put_call id (record call { state = state }) p)))

abbrev pub hold_found : Reply → Text → Option VolteCall → Phone → Phone × Bool
hold_found result id none p = (p, false)
hold_found result id (some call) p =
    let after =
      moved VolteCallState.held CallState.holding (codes "sendonly") result id (hold_media call)
        p in
    if is_active call.state then (after, true) else (p, false)

-- hold_call
unfoldable pub hold_call : Reply → Text → Phone → Phone × Bool
unfolding moved hold_media
hold_call result id p = hold_found result id (call_for id p) p

abbrev pub resume_found : Reply → Text → Option VolteCall → Phone → Phone × Bool
resume_found result id none p = (p, false)
resume_found result id (some call) p =
    let after =
      moved VolteCallState.active CallState.active (codes "sendrecv") result id (resume_media call)
        p in
    if is_held call.state then (after, true) else (p, false)

-- resume_call
unfoldable pub resume_call : Reply → Text → Phone → Phone × Bool
unfolding moved resume_media
resume_call result id p = resume_found result id (call_for id p) p

-- The first call of the table whose state passes a test.
unfoldable pub first_call : (VolteCallState → Bool) → List (Text × VolteCall) → Option VolteCall
first_call test [] = none
first_call test ((id, call) ∷ rest) =
    let later = first_call test rest in if test call.state then some call else later

-- The last one.
unfoldable pub last_call : (VolteCallState → Bool) → List (Text × VolteCall) → Option VolteCall
last_call test [] = none
last_call test ((id, call) ∷ rest) = elim (last_call test rest) [
  | some later ↦ some later
  | none ↦ if test call.state then some call else none
]

abbrev pub hold_first : Reply → Option VolteCall → Phone → Phone
hold_first result none p = p
hold_first result (some call) p = (hold_call result call.sip_call_id p).0

abbrev pub resume_first : Reply → Option VolteCall → Phone → Phone
resume_first result none p = p
resume_first result (some call) p = (resume_call result call.sip_call_id p).0

abbrev pub swapped : Reply → Reply → Option VolteCall → Option VolteCall → Phone → Phone × Bool
swapped holds resumes none none p = (p, false)
swapped holds resumes active held p = (resume_first resumes held (hold_first holds active p), true)

-- swap_calls: the calls are chosen before any is changed.
unfoldable pub swap_calls : Reply → Reply → Phone → Phone × Bool
unfolding first_call hold_call resume_call
swap_calls holds resumes p =
    swapped holds resumes (first_call is_active p.calls) (first_call is_held p.calls) p

-- The voice calls of the two parties become active and multi-party.
unfoldable pub merge_voice : Text → Text → List VoiceCall → List VoiceCall
merge_voice a b [] = []
merge_voice a b (vc ∷ rest) =
    (if text_key.same vc.sip_call_id a || text_key.same vc.sip_call_id b
      then record vc { is_mpty = true; state = CallState.active }
      else vc)
    ∷ merge_voice a b rest

abbrev pub merged : Text → Text → Radio → Radio
merged a b r = indicate 1001 (record r { voice_calls = merge_voice a b r.voice_calls })

abbrev pub conference_found : Option VolteCall → Option VolteCall → Phone → Phone × Bool
conference_found (some one) (some two) p =
    let resumed = resume_media (record two { state = VolteCallState.active }) in
    (
      recount
          (to_radio (merged one.sip_call_id two.sip_call_id) (put_call two.sip_call_id resumed p)),
      true,
    )
conference_found _ _ p = (p, false)

-- conference_calls
unfoldable pub conference_calls : Phone → Phone × Bool
unfolding last_call merge_voice put_call recount indicate resume_media
conference_calls p = conference_found (last_call is_active p.calls) (last_call is_held p.calls) p
