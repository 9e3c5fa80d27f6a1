-- ===== src/Examples/Calls.antt =====
-- Voice calls: the call manager with the radio, and session descriptions.
use virtual_phone.Prelude.{
  ◌≡◌, refl, Bool, true, false, none, some, [], ◌∷◌, arith, find, same_text, Result, ok, raised,
  index_error, value_error,
}
use virtual_phone.Sms.Gsm7.{Text}
use virtual_phone.Texts.{decimal, codes, contains}
use virtual_phone.Forwarding.{unconditional, should_forward}
use virtual_phone.Sdp.{build_sdp_offer, parse_remote_rtp_address}
use virtual_phone.Sdp.Endpoint.{parse_remote_rtp_address-build_sdp_offer}
use virtual_phone.Volte.State.{
  Phone, Config, VolteCall, VolteCallState, Direction, Method, answered, timeout, call_for,
}
use virtual_phone.Volte.Media.{start_media}
use virtual_phone.Volte.Outgoing.{hangup_call, accepted}
use virtual_phone.Volte.Hold.{first_call, hold_call, resume_call, swap_calls}
use virtual_phone.Volte.Transfer.{transfer_call}
use virtual_phone.Volte.Voice.{begin_dial, finish_dial, voice_at}
use virtual_phone.Volte.Incoming.{Message, Fresh}
use virtual_phone.Volte.Signals.{fragment_status, handle_incoming_notify, handle_incoming_sip}
use virtual_phone.Volte.Service.{start, set_radio_hal, set_call_manager}
use virtual_phone.Volte.Invariant.{WellFormed}
use virtual_phone.Volte.Reach.{new_phone, Step, Reach, Reach-WellFormed}
use virtual_phone.Volte.Held.{resumed_call, resume-hold, swap_calls_lem}
use virtual_phone.Volte.Ended.{hangup_call_lem, notify-transfer_call}
use virtual_phone.Volte.Races.{given_up, dialed_call, finish_dial-hangup}
use virtual_phone.Volte.Arrivals.{handle_incoming_sip-reinvite, handle_incoming_sip-forwarded}

abbrev config : Config
config = record {
  pcscf_address = codes "10.0.0.1";
  local_ip = codes "10.0.0.7";
  home_domain = codes "ims";
  codec_priority = codes "AMR-WB" ∷ [];
}

abbrev talking : VolteCall
talking = record {
  sip_call_id = codes "a";
  radio_call_index = 1;
  state = VolteCallState.active;
  direction = Direction.mobile_originated;
  remote_number = codes "100";
  remote_uri = codes "sip:100@ims";
  local_sdp = [];
  remote_sdp = [];
  rtp_port = 50000;
  codec = codes "AMR-WB";
  media = some false;
  invite_stored = false;
  transfer_pending = false;
  transfer_target = [];
}

abbrev waiting : VolteCall
waiting = record talking {
  sip_call_id = codes "b";
  radio_call_index = 2;
  state = VolteCallState.held;
  rtp_port = 50002;
  media = some true;
}

abbrev ringing : VolteCall
ringing = record talking {
  sip_call_id = codes "c";
  radio_call_index = 3;
  state = VolteCallState.ringing_in;
  direction = Direction.mobile_terminated;
  rtp_port = 50004;
  media = none;
  invite_stored = true;
}

abbrev switched_on : Phone
switched_on = record (new_phone config 50000 none) {
  has_client = true;
  has_radio = true;
  has_manager = true;
  started = true;
}

-- A phone with an active, a held and a ringing call.
abbrev busy_phone : Phone
busy_phone = record switched_on {
  calls = (codes "a", talking) ∷ (codes "b", waiting) ∷ (codes "c", ringing) ∷ [];
  rtp_port_next = 50006;
}

busy_phone-WellFormed : WellFormed busy_phone
unfolding same_text find
busy_phone-WellFormed = record {
  ports = (omega arith, (omega arith, (omega arith, omega arith)));
  keyed = (refl, refl, (refl, refl, (refl, refl, tt)));
  ordered = omega arith;
}

abbrev message : Method → Text → Text → Message
message method call_id body = record {
  is_response = false;
  status_code = 0;
  method = method;
  call_id = call_id;
  from_header = codes "<sip:+100@ims>";
  body = body;
  refer_to = [];
  event = codes "refer";
  subscription_state = codes "active";
}

abbrev fresh_call : Fresh
fresh_call = record { id = codes "new"; result = timeout; starts = true }

Reach-WellFormed_example :
    WellFormed
      (begin_dial
        (codes "x")
        (codes "+100")
        (set_call_manager (start (new_phone config 50000 none)))).0
unfolding start find
Reach-WellFormed_example = Reach-WellFormed config 50000 none (
    Reach.next
      (Reach.next (Reach.next Reach.here (Step.starts (new_phone config 50000 none)))
        (Step.given_manager (start (new_phone config 50000 none))))
      (Step.begins (set_call_manager (start (new_phone config 50000 none))) (codes "x")
        (codes "+100") refl))

resume-hold_example :
    ((resume_call timeout (codes "a") (hold_call timeout (codes "a") busy_phone).0).0.calls
      ≡ busy_phone.calls)
    × ((hold_call timeout (codes "a") busy_phone).1 ≡ true)
    × ((resume_call timeout (codes "a") (hold_call timeout (codes "a") busy_phone).0).1 ≡ true)
unfolding find same_text
resume-hold_example = resume-hold timeout timeout (codes "a") talking busy_phone refl refl refl

swap_calls_lem_example :
    ((swap_calls timeout timeout busy_phone).1 ≡ true)
    × (call_for (codes "b") (swap_calls timeout timeout busy_phone).0 ≡ some (resumed_call waiting))
unfolding first_call same_text
swap_calls_lem_example =
    swap_calls_lem timeout timeout talking waiting busy_phone (codes "b") busy_phone-WellFormed refl
      refl

hangup_call_lem_example :
    (call_for (codes "b") (hangup_call (codes "a") busy_phone).0 ≡ some waiting)
    × ((hangup_call (codes "a") busy_phone).1 ≡ true)
unfolding find same_text
hangup_call_lem_example = hangup_call_lem (codes "a") (codes "b") busy_phone

notify-transfer_call_example :
    call_for (codes "a") (
      handle_incoming_notify
        (message Method.notify (codes "a") (codes "SIP/2.0 200 OK"))
        (transfer_call (answered 202 []) (codes "a") (codes "200") busy_phone).0)
    ≡ none
unfolding find same_text fragment_status decimal
notify-transfer_call_example =
    notify-transfer_call (answered 202 []) (codes "200") 200 (codes "OK")
      (message Method.notify (codes "a") (codes "SIP/2.0 200 OK")) talking busy_phone refl refl refl
      refl refl refl

handle_incoming_sip-reinvite_example :
    call_for
      (codes "c")
      (handle_incoming_sip false
        (message Method.invite (codes "c") (codes "a=sendrecv"))
        fresh_call
        busy_phone).0
    ≡ some (resumed_call (record ringing { remote_sdp = codes "a=sendrecv" }))
unfolding find same_text contains
handle_incoming_sip-reinvite_example =
    handle_incoming_sip-reinvite false (message Method.invite (codes "c") (codes "a=sendrecv"))
      fresh_call ringing busy_phone refl refl refl

-- Calls go to 300.
abbrev forwarding_phone : Phone
forwarding_phone = set_radio_hal (
    new_phone config 50000 (
      some (
        (
          unconditional,
          record {
            reason = unconditional;
            enabled = true;
            number = codes "300";
            time_seconds = 0;
            service_class = 1;
          },
        )
        ∷ [])))

handle_incoming_sip-forwarded_example :
    (handle_incoming_sip false (message Method.invite (codes "d") []) fresh_call forwarding_phone).1
    ≡ raised index_error
unfolding find should_forward
handle_incoming_sip-forwarded_example =
    handle_incoming_sip-forwarded false (message Method.invite (codes "d") []) fresh_call
      (codes "300") forwarding_phone refl refl refl refl refl refl

parse_remote_rtp_address-build_sdp_offer_example :
    parse_remote_rtp_address
      (build_sdp_offer (codes "10.0.0.7") 50000 (codes "AMR-WB" ∷ []) (codes "sendrecv"))
    ≡ (codes "10.0.0.7", 50000)
parse_remote_rtp_address-build_sdp_offer_example =
    parse_remote_rtp_address-build_sdp_offer (codes "10.0.0.7") 50000 (codes "AMR-WB" ∷ [])
      (codes "sendrecv") (refl, (refl, (refl, (refl, (refl, (refl, (refl, (refl, tt)))))))) refl

switched_on-WellFormed : WellFormed switched_on
switched_on-WellFormed = record { ports = omega arith; keyed = tt; ordered = omega arith }

abbrev dialing : VolteCall
dialing = dialed_call (codes "x") (codes "+100") switched_on

-- The 200 arrives after the voice call was hung up.
abbrev late : Phone × Result Bool
late =
    finish_dial (answered 200 (codes "v=0")) true 1 (some dialing)
      (given_up (codes "x") (codes "+100") switched_on).0

finish_dial-hangup_example :
    ((given_up (codes "x") (codes "+100") switched_on).1 ≡ ok true)
    × ((late.1 ≡ ok true)
        × (call_for (codes "x") late.0 ≡ some (start_media true (accepted (codes "v=0") dialing)))
        × (voice_at 1 late.0.radio.voice_calls ≡ none))
    × ((finish_dial timeout true 1
          (some dialing)
          (given_up (codes "x") (codes "+100") switched_on).0).1
        ≡ raised value_error)
finish_dial-hangup_example =
    finish_dial-hangup (codes "x") (codes "+100") (codes "v=0") true switched_on
      switched_on-WellFormed refl refl
