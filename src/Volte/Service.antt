-- ===== src/Volte/Service.antt =====
-- Start and stop of the call manager (ims/volte.py), and the call forwarding requests of the radio
-- (hal/radio_hal.py).
use virtual_phone.Prelude.{
  ℕ, Bool, true, false, ◌||◌, Option, none, some, List, [], ◌∷◌, ◌==◌, if◌then◌else◌,
}
use virtual_phone.Sms.Gsm7.{Text}
use virtual_phone.Texts.{is_empty}
use virtual_phone.Forwarding.{
  CallForwardReason, unconditional, busy, no_reply, not_reachable, all, all_conditional, Rules,
  set_rule, enable_rule, disable_rule, erase_rule,
}
use virtual_phone.Volte.Outgoing.{hangup_call}
use virtual_phone.Volte.State.{Phone, VolteCall, VolteCallState, on_radio, is_active}

-- start, with a SIP client that starts. `started` is also what _volte_state["enabled"] says: the two
-- are set together.
unfoldable pub start : Phone → Phone
start p =
    if is_empty p.config.pcscf_address then p else record p { has_client = true; started = true }

abbrev pub is_ringing_out : VolteCallState → Bool
is_ringing_out VolteCallState.ringing_out = true
is_ringing_out _ = false

-- set_radio_hal of the call manager, and set_call_manager of the radio
abbrev pub set_radio_hal : Phone → Phone
set_radio_hal p = record p { has_radio = true }

abbrev pub set_call_manager : Phone → Phone
set_call_manager p = record p { has_manager = true }

-- The loop of stop, over a copy of the table. Ending a call changes no other.
unfoldable pub hangup_up : List (Text × VolteCall) → Phone → Phone
unfolding hangup_call
hangup_up [] p = p
hangup_up ((id, call) ∷ rest) p =
    let ended = (hangup_call call.sip_call_id p).0 in
    hangup_up rest (if is_active call.state || is_ringing_out call.state then ended else p)

unfoldable pub stop : Phone → Phone
unfolding hangup_up
stop p = record (hangup_up p.calls p) { started = false }

-- CallForwardReason(reason)
abbrev pub reason_from : ℕ → Option CallForwardReason
reason_from n =
    if n == 0
    then some unconditional
    else if n == 1
    then some busy
    else if n == 2
    then some no_reply
    else if n == 3
    then some not_reachable
    else if n == 4
    then some all
    else if n == 5
    then some all_conditional
    else none

abbrev pub forward_action : ℕ → CallForwardReason → Text → ℕ → Rules → Option Rules
forward_action action reason number seconds rules =
    if action == 0
    then some (disable_rule reason rules).0
    else if action == 1
    then some (enable_rule reason rules).0
    else if action == 3
    then some (set_rule reason number seconds rules)
    else if action == 4
    then some (erase_rule reason rules).0
    else none

abbrev pub forward_set : ℕ → Option CallForwardReason → Text → ℕ → Option Rules → Option Rules
forward_set action (some reason) number seconds (some rules) =
    forward_action action reason number seconds rules
forward_set action _ number seconds _ = none

abbrev pub forward_result : Option Rules → Phone → Phone × Bool
forward_result none p = (p, false)
forward_result (some rules) p = (on_radio (λ r. record r { forwarding = some rules }) p, true)

-- setCallForward
unfoldable pub set_call_forward : ℕ → ℕ → Text → ℕ → Phone → Phone × Bool
unfolding disable_rule enable_rule set_rule erase_rule
set_call_forward action reason number seconds p =
    forward_result (forward_set action (reason_from reason) number seconds p.radio.forwarding) p
