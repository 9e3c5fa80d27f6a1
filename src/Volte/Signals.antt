-- ===== src/Volte/Signals.antt =====
-- The dispatch of SIP messages, and the messages of transfers (ims/volte.py: _handle_incoming_sip,
-- _handle_incoming_refer, _handle_incoming_notify).
use virtual_phone.Prelude.{
  ℕ, Bool, true, false, ◌&&◌, not, Option, none, some, [], ◌∷◌, ◌++◌, ◌==◌, ltb, leb, if◌then◌else◌,
  Result, ok, raised, same_text,
}
use virtual_phone.Sms.Gsm7.{Text}
use virtual_phone.Texts.{
  left_stripped, right_stripped, stripped, codes, is_empty, is_digit, after, span, number_from,
  is_found,
}
use virtual_phone.Sdp.{line_end, extract_number_from_uri}
use virtual_phone.Volte.Outgoing.{hangup_call}
use virtual_phone.Volte.State.{
  Phone, VolteCall, VolteCallState, CallState, Method, request, call_for, put_call, send, reply,
  update_call_state, to_radio, is_originated,
}
use virtual_phone.Volte.Voice.{dial}
use virtual_phone.Volte.Incoming.{
  Message, Fresh, handle_incoming_invite, handle_incoming_bye, handle_incoming_cancel,
  handle_reinvite,
}

-- A 180 for a call of ours.
abbrev pub rung : Option VolteCall → Phone → Phone
rung none p = p
rung (some call) p =
    let ringing =
      to_radio (update_call_state call.radio_call_index CallState.alerting)
        (put_call call.sip_call_id (record call { state = VolteCallState.ringing_out }) p) in
    if is_originated call.direction then ringing else p

-- A response; `pending` says whether a request with its Call-ID waits. A final one ends the wait of
-- that request, which is the other half of the operation that sent it.
unfoldable pub handle_response : Bool → Message → Phone → Phone
unfolding put_call update_call_state
handle_response pending m p =
    let ringing = rung (call_for m.call_id p) p in
    if pending && (ltb m.status_code 200 && (m.status_code == 180)) then ringing else p

-- _send_refer_notify; its answer makes no difference.
unfoldable pub send_refer_notify : Text → Text → Phone → Phone
unfolding send
send_refer_notify id sipfrag p =
    if p.has_client then send (request Method.notify id sipfrag) p else p

-- What follows the first NOTIFY, which may raise where dial does; what dial returns is not looked at.
abbrev pub transferred : Text → Phone × Result Bool → Phone × Result (Unit {0})
transferred id (p, ok _) = (send_refer_notify id (codes "SIP/2.0 200 OK" ++ line_end) p, ok tt)
transferred id (p, raised error) = (p, raised error)

abbrev pub refer_to : Message → Fresh → Phone → Phone × Result (Unit {0})
refer_to m fresh p =
    let target = extract_number_from_uri m.refer_to in
    let ended =
      (hangup_call m.call_id
        (send_refer_notify m.call_id (codes "SIP/2.0 100 Trying" ++ line_end) p)).0 in
    let redialed = dial fresh.id fresh.result fresh.starts target ended in
    let went = if ended.has_radio then redialed else (ended, ok false) in
    if is_empty target then (p, ok tt) else transferred m.call_id went

abbrev pub refer_found : Message → Fresh → Option VolteCall → Phone → Phone × Result (Unit {0})
refer_found m fresh none p = (p, ok tt)
refer_found m fresh (some call) p = refer_to m fresh (reply 202 m.call_id [] p)

-- _handle_incoming_refer
unfoldable pub handle_incoming_refer : Message → Fresh → Phone → Phone × Result (Unit {0})
unfolding reply send_refer_notify hangup_call dial
handle_incoming_refer m fresh p = refer_found m fresh (call_for m.call_id p) p

abbrev pub tail_of : Text → Text
tail_of [] = []
tail_of (c ∷ rest) = rest

abbrev pub without_plus : Text → Text
without_plus [] = []
without_plus (c ∷ text) = if c == b'+' then text else c ∷ text

-- The digits of a literal, where one underscore may stand between two of them; the flag says whether a
-- digit was the last character.
unfoldable pub literal_digits : Bool → Text → Option Text
literal_digits after_digit [] = if after_digit then some [] else none
literal_digits after_digit (c ∷ text) =
    let later = literal_digits true text in
    let joined = literal_digits false text in
    if is_digit c
    then elim later [ none ↦ none | some digits ↦ some (c ∷ digits) ]
    else if (c == b'_') && after_digit
    then joined
    else none

abbrev pub number_of : Option Text → Option ℕ
number_of none = none
number_of (some digits) = some (number_from 0 digits)

-- `int` of a word: white space round a literal of ASCII digits, with a plus or without; other decimal
-- digits of Unicode, which `int` also reads, are not modelled. A negative number counts as none, which
-- comes to the same here.
unfoldable pub int_of : Text → Option ℕ
unfolding left_stripped right_stripped literal_digits number_from
int_of word = number_of (literal_digits false (without_plus (stripped word)))

-- The second word of the fragment (`sipfrag.strip().split(" ", 2)[1]`), if `int` reads it. What
-- follows the word is not looked at, so nothing is stripped there.
unfoldable pub fragment_status : Text → Option ℕ
unfolding int_of left_stripped span
fragment_status sipfrag =
    int_of
      (span (λ c. not (c == 32)) (tail_of (span (λ c. not (c == 32)) (left_stripped sipfrag)).1)).0

-- What a NOTIFY says of a transfer.
pub data Progress : Type 0 where
  completed refused underway : Progress

abbrev pub progress_of : Option ℕ → Progress
progress_of none = underway
progress_of (some status) =
    if leb 200 status && ltb status 300
    then completed
    else if leb 400 status
    then refused
    else underway

abbrev pub is_terminated : Text → Bool
is_terminated subscription_state = is_found (after (codes "terminated") subscription_state)

-- A transfer that is over ends the call, if it was asked for.
abbrev pub leg_ended : Text → VolteCall → Phone → Phone
leg_ended id call p = let ended = (hangup_call id p).0 in if call.transfer_pending then ended else p

abbrev pub progressed : Message → VolteCall → Progress → Phone → Phone
progressed m call refused p = put_call m.call_id (record call { transfer_pending = false }) p
progressed m call completed p = leg_ended m.call_id call p
progressed m call underway p =
    if is_terminated m.subscription_state then leg_ended m.call_id call p else p

abbrev pub notify_found : Message → Option VolteCall → Phone → Phone
notify_found m none p = p
notify_found m (some call) p =
    let moved = progressed m call (progress_of (fragment_status m.body)) p in
    if same_text m.event (codes "refer") then moved else p

-- _handle_incoming_notify
unfoldable pub handle_incoming_notify : Message → Phone → Phone
unfolding reply put_call hangup_call fragment_status same_text
handle_incoming_notify m p = notify_found m (call_for m.call_id p) (reply 200 m.call_id [] p)

abbrev pub invite_found : Message → Fresh → Option VolteCall → Phone → Phone × Result (Unit {0})
invite_found m fresh none p = handle_incoming_invite m fresh p
invite_found m fresh (some call) p = (handle_reinvite m call p, ok tt)

abbrev pub handle_request : Message → Fresh → Method → Phone → Phone × Result (Unit {0})
handle_request m fresh Method.invite p = invite_found m fresh (call_for m.call_id p) p
handle_request m fresh Method.bye p = (handle_incoming_bye m p, ok tt)
handle_request m fresh Method.cancel p = (handle_incoming_cancel m p, ok tt)
handle_request m fresh Method.refer p = handle_incoming_refer m fresh p
handle_request m fresh Method.notify p = (handle_incoming_notify m p, ok tt)
handle_request m fresh _ p = (p, ok tt)

-- _handle_incoming_sip
unfoldable pub handle_incoming_sip : Bool → Message → Fresh → Phone → Phone × Result (Unit {0})
unfolding handle_response handle_incoming_invite handle_reinvite handle_incoming_bye
    handle_incoming_cancel handle_incoming_refer handle_incoming_notify
handle_incoming_sip pending m fresh p =
    if m.is_response
    then (handle_response pending m p, ok tt)
    else handle_request m fresh m.method p
