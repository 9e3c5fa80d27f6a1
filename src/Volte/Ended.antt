-- ===== src/Volte/Ended.antt =====
-- How calls end: hanging up, transfers, BYE and CANCEL (ims/volte.py).
use virtual_phone.Prelude.{
  ℕ, ◌==◌, not, leb, ltb, arith, All, ◌≡◌, refl, ap, ◌∙◌, true, false, ◌&&◌, Option, none, some, [],
  ◌∷◌, ◌++◌, if◌then◌else◌, Option-cases, Bool-cases, inl, inr, find, remove, text_key,
  find-store_same, find-remove_same, find-remove_other, same_text,
}
use virtual_phone.Sms.Gsm7.{Text}
use virtual_phone.Texts.{
  left_stripped, right_stripped, stripped, is_empty, codes, is_found, is_blank, span, decimal,
  without_pluses,
}
use virtual_phone.Texts.Decimal.{AreDigits, decimal-AreDigits, decimal-full, number_from-decimal}
use virtual_phone.Texts.Spans.{span-run}
use virtual_phone.Volte.State.{
  Phone, VolteCall, VolteCallState, Reply, call_for, put_call, drop_call, recount, send, reply,
  is_up,
}
use virtual_phone.Volte.Outgoing.{hangup_call}
use virtual_phone.Volte.Transfer.{is_accepted, transferable, transfer_call}
use virtual_phone.Volte.Incoming.{Message}
use virtual_phone.Volte.Signals.{
  progress_of, literal_digits, number_of, int_of, fragment_status, without_plus, is_terminated,
  progressed, handle_incoming_notify,
}
use virtual_phone.Volte.SignalsKept.{reply-calls}

dropped :
    (id other : Text) (p : Phone)
    → call_for other (drop_call id p) ≡ (if text_key.same other id then none else call_for other p)
unfolding drop_call
dropped id other p = elim (Bool-cases (text_key.same other id)) [
  | inl e ↦ rw e (
      ap (λ k. find text_key k (remove text_key id p.calls)) (text_key.same_sound other id e)
      ∙ find-remove_same text_key id p.calls)
  | inr e ↦ rw e (find-remove_other text_key other id p.calls e)
]

absent :
    (id other : Text) (p : Phone)
    → call_for id p ≡ none
    → call_for other p ≡ (if text_key.same other id then none else call_for other p)
absent id other p missing = elim (Bool-cases (text_key.same other id)) [
  | inl e ↦ rw e (ap (λ k. call_for k p) (text_key.same_sound other id e) ∙ missing)
  | inr e ↦ rw e refl
]

-- After hangup_call its call is not in the table, whether or not it was, and every other call is as
-- before; it reports success exactly if the call was there, a SIP client is set and the manager runs.
pub hangup_call_lem :
    (id other : Text) (p : Phone)
    → (call_for other (hangup_call id p).0
        ≡ (if text_key.same other id then none else call_for other p))
      × ((hangup_call id p).1 ≡ (is_found (call_for id p) && is_up p))
unfolding hangup_call recount send
hangup_call_lem id other p = elim (Option-cases (call_for id p)) [
  | inl missing ↦ rw missing (absent id other p missing, refl)
  | inr (call, there) ↦ rw there (elim (Bool-cases (is_up p)) [
    | inl up ↦ rw up (dropped id other p, refl)
    | inr down ↦ rw down (dropped id other p, refl)
  ])
]

hangup_call-gone : (id : Text) (p : Phone) → call_for id (hangup_call id p).0 ≡ none
hangup_call-gone id p = rw (text_key.same_refl id) at (hangup_call_lem id id p).0

-- The call once a REFER for it was accepted.
abbrev pub asked_call : Text → Phone → VolteCall → VolteCall
asked_call target p call = record call {
  state = VolteCallState.active;
  transfer_pending = true;
  transfer_target = codes "sip:" ++ (without_pluses target ++ (b'@' ∷ p.config.home_domain));
}

transfer_call-asked :
    (result : Reply) (id target : Text) (call : VolteCall) (p : Phone)
    → call_for id p ≡ some call
    → transferable call ≡ true
    → is_up p ≡ true
    → is_accepted result ≡ true
    → call_for id (transfer_call result id target p).0 ≡ some (asked_call target p call)
unfolding transfer_call put_call send
transfer_call-asked result id target call p there fit up accept =
    rw (there, fit, up, accept) (find-store_same text_key id (asked_call target p call) p.calls)

-- What is left of a call whose transfer was asked for, after a NOTIFY of a status.
abbrev pub left_over : ℕ → Text → VolteCall → Option VolteCall
left_over status subscription_state call =
    if leb 200 status && ltb status 300
    then none
    else if leb 400 status
    then some (record call { transfer_pending = false })
    else if is_terminated subscription_state
    then none
    else some call

abbrev pub status_line : ℕ → Text → Text
status_line status reason = codes "SIP/2.0 " ++ (decimal status ++ 32 ∷ reason)

digits_bare : (s : Text) → AreDigits s → (left_stripped s ≡ s) × (without_plus s ≡ s)
unfolding left_stripped
digits_bare [] h = (refl, refl)
digits_bare (c ∷ s) h =
    let not_blank : is_blank c ≡ false = ground (arith, h.0) in
    let not_plus : (c == b'+') ≡ false = ground (arith, h.0) in
    (rw not_blank refl, rw not_plus refl)

right_stripped-digits : (s : Text) → AreDigits s → right_stripped s ≡ s
unfolding right_stripped
right_stripped-digits [] h = refl
right_stripped-digits (c ∷ s) h =
    let not_blank : is_blank c ≡ false = ground (arith, h.0) in
    rw (not_blank, right_stripped-digits s h.1) refl

literal_digits-after : (s : Text) → AreDigits s → literal_digits true s ≡ some s
unfolding literal_digits
literal_digits-after [] h = refl
literal_digits-after (c ∷ s) h = rw (h.0, literal_digits-after s h.1) refl

literal_digits-digits :
    (s : Text) → AreDigits s → is_empty s ≡ false → literal_digits false s ≡ some s
unfolding literal_digits
literal_digits-digits [] h full = absurd (cc (full))
literal_digits-digits (c ∷ s) h full = rw (h.0, literal_digits-after s h.1) refl

int_of-decimal : (n : ℕ) → int_of (decimal n) ≡ some n
unfolding int_of
int_of-decimal n =
    let digits = decimal-AreDigits n in
    let bare = digits_bare (decimal n) digits in
    let whole : stripped (decimal n) ≡ decimal n =
      ap right_stripped bare.0 ∙ right_stripped-digits (decimal n) digits in
    ap (λ s. number_of (literal_digits false (without_plus s))) whole
    ∙ ap (λ s. number_of (literal_digits false s)) bare.1
    ∙ ap number_of (literal_digits-digits (decimal n) digits (decimal-full n))
    ∙ ap some (number_from-decimal n)

no_space : (s : Text) → AreDigits s → All (λ c. not (c == 32) ≡ true) s
no_space [] h = tt
no_space (c ∷ s) h = (ground (arith, h.0), no_space s h.1)

fragment_status-line :
    (status : ℕ) (reason : Text) → fragment_status (status_line status reason) ≡ some status
unfolding fragment_status left_stripped span
fragment_status-line status reason =
    rw
      (span-run (λ c. not (c == 32)) (decimal status) reason 32
        (no_space (decimal status) (decimal-AreDigits status)) refl)
      (int_of-decimal status)

-- A transfer from its REFER to the NOTIFY of its outcome: once the REFER for an active or held call
-- was accepted, a NOTIFY of the event "refer" with a status line as its body takes the call out of the
-- table for a status from 200 to 299, keeps it active with no transfer pending for one from 400 on,
-- and for any other ends it exactly if the subscription is terminated.
pub notify-transfer_call :
    (result : Reply) (target : Text) (status : ℕ) (reason : Text) (m : Message) (call : VolteCall)
    (p : Phone)
    → call_for m.call_id p ≡ some call
    → transferable call ≡ true
    → is_up p ≡ true
    → is_accepted result ≡ true
    → same_text m.event (codes "refer") ≡ true
    → m.body ≡ status_line status reason
    → call_for m.call_id (handle_incoming_notify m (transfer_call result m.call_id target p).0)
      ≡ left_over status m.subscription_state (asked_call target p call)
unfolding handle_incoming_notify
notify-transfer_call result target status reason m call p there fit up accept event body =
    let q : Phone = (transfer_call result m.call_id target p).0 in
    let found : call_for m.call_id q ≡ some (asked_call target p call) =
      transfer_call-asked result m.call_id target call p there fit up accept in
    let told : Phone = reply 200 m.call_id [] q in
    let found_told : call_for m.call_id told ≡ some (asked_call target p call) =
      ap (find text_key m.call_id) (reply-calls 200 m.call_id [] q) ∙ found in
    rw (found, event) (rw (body, fragment_status-line status reason) (outcome told found_told))
  where
    outcome :
        (told : Phone)
        → call_for m.call_id told ≡ some (asked_call target p call)
        → call_for m.call_id
            (progressed m (asked_call target p call) (progress_of (some status)) told)
          ≡ left_over status m.subscription_state (asked_call target p call)
    outcome told found = elim (Bool-cases (leb 200 status && ltb status 300)) [
      | inl success ↦ rw success (hangup_call-gone m.call_id told)
      | inr no_success ↦ rw no_success (elim (Bool-cases (leb 400 status)) [
        | inl failure ↦
            rw failure (unfold put_call in find-store_same text_key m.call_id _ told.calls)
        | inr no_failure ↦ rw no_failure (elim (Bool-cases (is_terminated m.subscription_state)) [
          | inl over ↦ rw over (hangup_call-gone m.call_id told)
          | inr still ↦ rw still found
        ])
      ])
    ]
