-- ===== src/Volte/Transfer.antt =====
-- Transfers (ims/volte.py: transfer_call, attended_transfer).
use virtual_phone.Prelude.{
  Bool, true, false, ◌&&◌, ◌||◌, Option, none, some, ◌∷◌, ◌++◌, ◌==◌, if◌then◌else◌,
}
use virtual_phone.Sms.Gsm7.{Text}
use virtual_phone.Texts.{codes, without_pluses}
use virtual_phone.Volte.State.{
  Phone, VolteCall, VolteCallState, Method, request, Reply, timeout, answered, call_for, put_call,
  send, is_up, is_active, is_held,
}

-- `response.status_code in (200, 202)`; a TimeoutError is not.
abbrev pub is_accepted : Reply → Bool
is_accepted timeout = false
is_accepted (answered status _) = (status == 200) || (status == 202)

abbrev pub transferable : VolteCall → Bool
transferable call = is_active call.state || is_held call.state

abbrev pub transfer_found : Reply → Text → Text → Option VolteCall → Phone → Phone × Bool
transfer_found result target_number id none p = (p, false)
transfer_found result target_number id (some call) p =
    let target = codes "sip:" ++ (without_pluses target_number ++ (b'@' ∷ p.config.home_domain)) in
    let asked = send (request Method.refer id target) p in
    let waiting = record call {
      state = VolteCallState.active;
      transfer_pending = true;
      transfer_target = target;
    } in
    if transferable call && is_up p
    then (if is_accepted result then (put_call id waiting asked, true) else (asked, false))
    else (p, false)

-- transfer_call
unfoldable pub transfer_call : Reply → Text → Text → Phone → Phone × Bool
unfolding send put_call
transfer_call result id target_number p = transfer_found result target_number id (call_for id p) p

abbrev pub attended_found :
    Reply → Text → Text → Option VolteCall → Option VolteCall → Phone → Phone × Bool
attended_found result id_a id_b (some call_a) (some call_b) p =
    let asked =
      send (request Method.refer id_a (call_b.remote_uri ++ (codes "?Replaces=" ++ id_b))) p in
    let waiting = record call_a { transfer_pending = true; transfer_target = call_b.remote_uri } in
    if transferable call_a && is_up p
    then (if is_accepted result then (put_call id_a waiting asked, true) else (asked, false))
    else (p, false)
attended_found result id_a id_b _ _ p = (p, false)

-- attended_transfer
unfoldable pub attended_transfer : Reply → Text → Text → Phone → Phone × Bool
unfolding send put_call
attended_transfer result id_a id_b p =
    attended_found result id_a id_b (call_for id_a p) (call_for id_b p) p
