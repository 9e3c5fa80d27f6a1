-- ===== src/Volte/DispatchKept.antt =====
-- The dispatch of SIP messages (ims/volte.py: _handle_incoming_sip) on a well-formed phone.
use virtual_phone.Prelude.{
  ◌≡◌, ◌≢◌, refl, ap, ◌∙◌, Bool, false, none, some, [], ◌++◌, arith, Option-cases, inl, inr, find,
  text_key, Result, ok, raised, same_text,
}
use virtual_phone.Sms.Gsm7.{Text}
use virtual_phone.Texts.{codes, is_empty}
use virtual_phone.Sdp.{line_end, extract_number_from_uri}
use virtual_phone.Volte.State.{
  Phone, VolteCall, VolteCallState, CallState, Method, call_for, send, reply, is_originated,
}
use virtual_phone.Volte.Outgoing.{hangup_call}
use virtual_phone.Volte.Incoming.{Message, Fresh}
use virtual_phone.Volte.Signals.{
  rung, handle_response, send_refer_notify, transferred, handle_incoming_refer, fragment_status,
  progress_of, Progress, completed, refused, underway, is_terminated, leg_ended, progressed,
  handle_incoming_notify, handle_request, handle_incoming_sip,
}
use virtual_phone.Volte.Tables.{found-name}
use virtual_phone.Volte.Invariant.{
  WellFormed, put_call-WellFormed, same_tables, either, either_pair, reply-WellFormed,
  changed-WellFormed,
}
use virtual_phone.Volte.CallsKept.{hangup_call-WellFormed}
use virtual_phone.Volte.VoicesKept.{dial-WellFormed}
use virtual_phone.Volte.SignalsKept.{
  hangup_call-fresh, reply-calls, invite-WellFormed, cancel-WellFormed, bye-WellFormed,
  reinvite-WellFormed,
}

response-WellFormed :
    (pending : Bool) (m : Message) (p : Phone)
    → WellFormed p
    → WellFormed (handle_response pending m p)
unfolding handle_response
response-WellFormed pending m p h =
    either _ (rung (call_for m.call_id p) p) p
      (elim (Option-cases (call_for m.call_id p)) [
        | inl missing ↦ rw missing h
        | inr (call, there) ↦
            let name = found-name m.call_id call p.calls h.keyed there in
            let here : call_for call.sip_call_id p ≡ some call =
              ap (λ k. call_for k p) name ∙ there in
            rw there (
              either (is_originated call.direction) _ p
                (changed-WellFormed call.sip_call_id call
                  (record call { state = VolteCallState.ringing_out }) call.radio_call_index
                  CallState.alerting p here refl refl h)
                h)
      ])
      h

refer_notify-WellFormed :
    (id sipfrag : Text) (p : Phone) → WellFormed p → WellFormed (send_refer_notify id sipfrag p)
unfolding send_refer_notify send
refer_notify-WellFormed id sipfrag p h =
    either p.has_client _ p (same_tables p _ refl refl h.ordered h) h

refer_notify-calls :
    (id sipfrag : Text) (p : Phone) → (send_refer_notify id sipfrag p).calls ≡ p.calls
unfolding send_refer_notify send
refer_notify-calls id sipfrag p = ground arith

transferred-WellFormed :
    (id : Text) (r : Phone × Result Bool) → WellFormed r.0 → WellFormed (transferred id r).0
transferred-WellFormed id (p, ok _) h =
    refer_notify-WellFormed id (codes "SIP/2.0 200 OK" ++ line_end) p h
transferred-WellFormed id (p, raised error) h = h

refer-WellFormed :
    (m : Message) (fresh : Fresh) (p : Phone)
    → call_for fresh.id p ≡ none
    → WellFormed p
    → WellFormed (handle_incoming_refer m fresh p).0
unfolding handle_incoming_refer
refer-WellFormed m fresh p missing h = elim (Option-cases (call_for m.call_id p)) [
  | inl unknown ↦ rw unknown h
  | inr (call, there) ↦
      let q : Phone = reply 202 m.call_id [] p in
      let taken : WellFormed q = reply-WellFormed 202 m.call_id [] p h in
      let trying : Text = codes "SIP/2.0 100 Trying" ++ line_end in
      let told : Phone = send_refer_notify m.call_id trying q in
      let told-kept : WellFormed told = refer_notify-WellFormed m.call_id trying q taken in
      let same : told.calls ≡ p.calls =
        refer_notify-calls m.call_id trying q ∙ reply-calls 202 m.call_id [] p in
      let free : call_for fresh.id told ≡ none = ap (find text_key fresh.id) same ∙ missing in
      rw there (
        either_pair (is_empty (extract_number_from_uri m.refer_to)) (q, ok tt) _ taken
          (transferred-WellFormed m.call_id _ (
            either_pair (hangup_call m.call_id told).0.has_radio _ _
              (dial-WellFormed fresh.id fresh.result fresh.starts
                (extract_number_from_uri m.refer_to) (hangup_call m.call_id told).0
                (hangup_call-fresh fresh.id m.call_id told free)
                (hangup_call-WellFormed m.call_id told told-kept))
              (hangup_call-WellFormed m.call_id told told-kept))))
]

leg_ended-WellFormed :
    (id : Text) (call : VolteCall) (p : Phone) → WellFormed p → WellFormed (leg_ended id call p)
leg_ended-WellFormed id call p h =
    either call.transfer_pending _ p (hangup_call-WellFormed id p h) h

progressed-WellFormed :
    (m : Message) (call : VolteCall) (progress : Progress) (p : Phone)
    → call_for m.call_id p ≡ some call
    → WellFormed p
    → WellFormed (progressed m call progress p)
progressed-WellFormed m call refused p there h =
    put_call-WellFormed m.call_id call (record call { transfer_pending = false }) p there refl
      (found-name m.call_id call p.calls h.keyed there) h
progressed-WellFormed m call completed p there h = leg_ended-WellFormed m.call_id call p h
progressed-WellFormed m call underway p there h =
    either (is_terminated m.subscription_state) _ p (leg_ended-WellFormed m.call_id call p h) h

notify-WellFormed :
    (m : Message) (p : Phone) → WellFormed p → WellFormed (handle_incoming_notify m p)
unfolding handle_incoming_notify
notify-WellFormed m p h = elim (Option-cases (call_for m.call_id p)) [
  | inl unknown ↦ rw unknown (reply-WellFormed 200 m.call_id [] p h)
  | inr (call, there) ↦
      let told = reply-WellFormed 200 m.call_id [] p h in
      rw there (
        either (same_text m.event (codes "refer")) _ _
          (progressed-WellFormed m call (progress_of (fragment_status m.body))
            (reply 200 m.call_id [] p)
            (ap (find text_key m.call_id) (reply-calls 200 m.call_id [] p) ∙ there) told)
          told)
]

request-WellFormed :
    (m : Message) (fresh : Fresh) (method : Method) (p : Phone)
    → call_for fresh.id p ≡ none
    → fresh.id ≢ m.call_id
    → WellFormed p
    → WellFormed (handle_request m fresh method p).0
request-WellFormed m fresh Method.invite p missing differ h =
    elim (Option-cases (call_for m.call_id p)) [
      | inl unknown ↦ rw unknown (invite-WellFormed m fresh p unknown missing differ h)
      | inr (call, there) ↦ rw there (reinvite-WellFormed m call p there h)
    ]
request-WellFormed m fresh Method.bye p missing differ h = bye-WellFormed m p h
request-WellFormed m fresh Method.cancel p missing differ h = cancel-WellFormed m p h
request-WellFormed m fresh Method.refer p missing differ h = refer-WellFormed m fresh p missing h
request-WellFormed m fresh Method.notify p missing differ h = notify-WellFormed m p h
request-WellFormed m fresh Method.ack p missing differ h = h
request-WellFormed m fresh Method.other p missing differ h = h

-- Whatever SIP message arrives, the phone stays well-formed, if the Call-ID that a handler generates
-- for a call of its own is neither in the table nor that of the message.
pub handle_incoming_sip-WellFormed :
    (pending : Bool) (m : Message) (fresh : Fresh) (p : Phone)
    → call_for fresh.id p ≡ none
    → fresh.id ≢ m.call_id
    → WellFormed p
    → WellFormed (handle_incoming_sip pending m fresh p).0
unfolding handle_incoming_sip
handle_incoming_sip-WellFormed pending m fresh p missing differ h =
    either_pair m.is_response _ _ (response-WellFormed pending m p h)
      (request-WellFormed m fresh m.method p missing differ h)
