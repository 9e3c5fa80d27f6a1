-- ===== src/Volte/Outgoing.antt =====
-- Starting, answering and ending calls (ims/volte.py: initiate_call, answer_call, hangup_call).
use virtual_phone.Prelude.{
  ℕ, ◌+◌, Bool, true, false, ◌&&◌, Option, none, some, [], ◌∷◌, ◌++◌, ◌==◌, if◌then◌else◌, Result,
  ok, raised, key_error,
}
use virtual_phone.Sms.Gsm7.{Text}
use virtual_phone.Texts.{codes, without_pluses}
use virtual_phone.Sdp.{build_sdp_offer, extract_codec_from_sdp}
use virtual_phone.Volte.Media.{start_media}
use virtual_phone.Volte.State.{
  Phone, VolteCall, initiating, active, mobile_originated, invite, ack, bye, Sent, request, Reply,
  timeout, answered, call_for, put_call, drop_call, recount, send, is_up, update_call_state,
  to_radio, local_ip_of, is_ringing_in, CallState,
}

-- The call that initiate_call creates.
abbrev pub new_call : Text → Text → ℕ → Phone → VolteCall
new_call id number radio_call_index p = record {
  sip_call_id = id;
  radio_call_index = radio_call_index;
  state = initiating;
  direction = mobile_originated;
  remote_number = number;
  remote_uri = codes "sip:" ++ (without_pluses number ++ (b'@' ∷ p.config.home_domain));
  local_sdp =
      build_sdp_offer (local_ip_of p.config) p.rtp_port_next p.config.codec_priority
        (codes "sendrecv");
  remote_sdp = [];
  rtp_port = p.rtp_port_next;
  codec = [];
  media = none;
  invite_stored = false;
  transfer_pending = false;
  transfer_target = [];
}

-- initiate_call up to its `await`: the call that waits for the response, if it got so far. `id` is
-- the Call-ID that generate_call_id gives.
unfoldable pub begin_call : Text → Text → ℕ → Phone → Phone × Option VolteCall
unfolding put_call send
begin_call id number radio_call_index p =
    let call = new_call id number radio_call_index p in
    let port_taken : Phone = record p { rtp_port_next = p.rtp_port_next + 2 } in
    if p.started
    then (send (request invite id call.local_sdp) (put_call id call port_taken), some call)
    else (p, none)

-- A call object that may have left the table: it is changed in the table while it is there.
abbrev pub put_if : Option VolteCall → Text → VolteCall → Phone → Phone
put_if none id call p = p
put_if (some _) id call p = put_call id call p

abbrev pub current : Option VolteCall → VolteCall → VolteCall
current none begun = begun
current (some call) begun = call

abbrev pub accepted : Text → VolteCall → VolteCall
accepted body call = record call {
  state = active;
  remote_sdp = body;
  codec = extract_codec_from_sdp body;
}

-- The response 200: the call is active.
unfoldable pub connected : Text → Bool → VolteCall → Phone → Phone
unfolding put_call recount send update_call_state start_media
connected body starts begun p =
    let there = call_for begun.sip_call_id p in
    let call = accepted body (current there begun) in
    let acked = send (request ack call.sip_call_id []) (put_if there begun.sip_call_id call p) in
    let counted =
      recount (to_radio (update_call_state begun.radio_call_index CallState.active) acked) in
    put_if there begun.sip_call_id (start_media starts call)
      (record counted { total_calls = counted.total_calls + 1; last_codec = some call.codec })

-- `del self._calls[call_id]; return None`
unfoldable pub failed : Option VolteCall → Text → Phone → Phone × Result (Option Text)
unfolding drop_call
failed none id p = (p, raised key_error)
failed (some _) id p = (drop_call id p, ok none)

-- initiate_call from its `await` on.
unfoldable pub finish_call : Reply → Bool → VolteCall → Phone → Phone × Result (Option Text)
unfolding connected failed
finish_call timeout starts begun p = failed (call_for begun.sip_call_id p) begun.sip_call_id p
finish_call (answered status body) starts begun p =
    if status == 200
    then (connected body starts begun p, ok (some begun.sip_call_id))
    else failed (call_for begun.sip_call_id p) begun.sip_call_id p

-- The call once it is found and is ringing.
abbrev pub picked_up : Bool → VolteCall → VolteCall
picked_up starts call =
    start_media starts
      (record call { state = active; codec = extract_codec_from_sdp call.remote_sdp })

abbrev pub answer_found : Bool → Option VolteCall → Text → Phone → Phone × Bool
answer_found starts none id p = (p, false)
answer_found starts (some call) id p =
    let taken = picked_up starts call in
    let counted = recount (put_call id taken (send (Sent.response 200 id call.local_sdp) p)) in
    if is_ringing_in call.state && (call.invite_stored && p.has_client)
    then (
      record counted { total_calls = counted.total_calls + 1; last_codec = some taken.codec },
      true,
    )
    else (p, false)

unfoldable pub answer_call : Bool → Text → Phone → Phone × Bool
unfolding put_call recount send start_media
answer_call starts id p = answer_found starts (call_for id p) id p

-- hangup_call. The call leaves the table first, also where nothing can be sent; whether the BYE is
-- answered or times out makes no difference.
abbrev pub hangup_found : Option VolteCall → Text → Phone → Phone × Bool
hangup_found none id p = (p, false)
hangup_found (some call) id p =
    let gone = drop_call id p in
    if is_up p then (recount (send (request bye id []) gone), true) else (gone, false)

unfoldable pub hangup_call : Text → Phone → Phone × Bool
unfolding drop_call recount send
hangup_call id p = hangup_found (call_for id p) id p
