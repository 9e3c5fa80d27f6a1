-- ===== src/Forwarding/Refinement.antt =====
-- The call forwarding rules (ims/supplementary.py) against what the user sees of them: for each
-- condition, whether a number is registered, which, and whether it is switched on.
use virtual_phone.Prelude.{
  ℕ, ◌≡◌, refl, ap, ◌∙◌, Bool, true, false, Option, none, some, if◌then◌else◌, arith, find, store,
  remove, Bool-cases, Option-cases, inl, inr, find-store_same, find-store_other, find-remove_same,
  find-remove_other,
}
use virtual_phone.Sms.Gsm7.{Text}
use virtual_phone.Forwarding.{
  CallForwardReason, unconditional, busy, no_reply, not_reachable, all, all_conditional,
  same_reason, same_reason_sound, reason_key, CallForwardRule, Rules, rule_for, set_rule, switch,
  enable_rule, disable_rule, erase_rule, active_number, first_of, should_forward,
}

pub data Command : Type 0 where
  set : CallForwardReason → Text → ℕ → Command
  enable disable erase : CallForwardReason → Command

abbrev pub run : Command → Rules → Rules
run (set reason number seconds) rules = set_rule reason number seconds rules
run (enable reason) rules = (enable_rule reason rules).0
run (disable reason) rules = (disable_rule reason rules).0
run (erase reason) rules = (erase_rule reason rules).0

-- Whether the number is on, and the number.
abbrev pub summary : Option CallForwardRule → Option (Bool × Text)
summary none = none
summary (some rule) = some (rule.enabled, rule.number)

abbrev pub view : Rules → CallForwardReason → Option (Bool × Text)
view rules reason = summary (rule_for reason rules)

abbrev pub turned : Bool → Option (Bool × Text) → Option (Bool × Text)
turned on none = none
turned on (some (_, number)) = some (on, number)

-- Which conditions an erasure concerns.
abbrev pub covers : CallForwardReason → CallForwardReason → Bool
covers all r = true
covers all_conditional busy = true
covers all_conditional no_reply = true
covers all_conditional not_reachable = true
covers all_conditional _ = false
covers reason r = same_reason r reason

-- What a command means for the condition `r`.
abbrev pub spec : Command → CallForwardReason → Option (Bool × Text) → Option (Bool × Text)
spec (set reason number _) r old = if same_reason r reason then some (true, number) else old
spec (enable reason) r old = if same_reason r reason then turned true old else old
spec (disable reason) r old = if same_reason r reason then turned false old else old
spec (erase reason) r old = if covers reason r then none else old

view-store :
    (r reason : CallForwardReason) (rule : CallForwardRule) (rules : Rules)
    → view (store reason_key reason rule rules) r
      ≡ (if same_reason r reason then some (rule.enabled, rule.number) else view rules r)
view-store r reason rule rules = elim (Bool-cases (same_reason r reason)) [
  | inl e ↦ rw e (
      ap (λ s. view (store reason_key reason rule rules) s) (same_reason_sound r reason e)
      ∙ ap summary (find-store_same reason_key reason rule rules))
  | inr e ↦ rw e (ap summary (find-store_other reason_key r reason rule rules e))
]

view-remove :
    (r reason : CallForwardReason) (rules : Rules)
    → view (remove reason_key reason rules) r
      ≡ (if same_reason r reason then none else view rules r)
view-remove r reason rules = elim (Bool-cases (same_reason r reason)) [
  | inl e ↦ rw e (
      ap (λ s. view (remove reason_key reason rules) s) (same_reason_sound r reason e)
      ∙ ap summary (find-remove_same reason_key reason rules))
  | inr e ↦ rw e (ap summary (find-remove_other reason_key r reason rules e))
]

view-switch :
    (on : Bool) (r reason : CallForwardReason) (rules : Rules)
    → view (switch on reason (rule_for reason rules) rules).0 r
      ≡ (if same_reason r reason then turned on (view rules r) else view rules r)
view-switch on r reason rules = elim (Option-cases (rule_for reason rules)) [
  | inl missing ↦ rw missing (elim (Bool-cases (same_reason r reason)) [
    | inl e ↦
        let gone : rule_for r rules ≡ none =
          ap (λ s. rule_for s rules) (same_reason_sound r reason e) ∙ missing in
        rw e (rw gone refl)
    | inr e ↦ rw e refl
  ])
  | inr (rule, found) ↦ rw found (
      view-store r reason (record rule { enabled = on }) rules
      ∙ elim (Bool-cases (same_reason r reason)) [
        | inl e ↦
            let there : rule_for r rules ≡ some rule =
              ap (λ s. rule_for s rules) (same_reason_sound r reason e) ∙ found in
            rw e (rw there refl)
        | inr e ↦ rw e refl
      ])
]

abbrev unless {ℓ} : {A : Type ℓ} → Bool → Option A → Option A
unless off v = if off then none else v

three_erased :
    (r : CallForwardReason) (v : Option (Bool × Text))
    → unless
        (same_reason r not_reachable)
        (unless (same_reason r no_reply) (unless (same_reason r busy) v))
      ≡ spec (erase all_conditional) r v
three_erased unconditional v = refl
three_erased busy v = refl
three_erased no_reply v = refl
three_erased not_reachable v = refl
three_erased all v = refl
three_erased all_conditional v = refl

view-conditional :
    (r : CallForwardReason) (rules : Rules)
    → view (run (erase all_conditional) rules) r ≡ spec (erase all_conditional) r (view rules r)
unfolding erase_rule
view-conditional r rules =
    view-remove r not_reachable (remove reason_key no_reply (remove reason_key busy rules))
    ∙ ap (unless (same_reason r not_reachable)) (
        view-remove r no_reply (remove reason_key busy rules)
        ∙ ap (unless (same_reason r no_reply)) (view-remove r busy rules))
    ∙ three_erased r (view rules r)

-- Every command on the rules changes, for every condition, the registered number and its switch
-- exactly as specified: setting registers and switches on, enabling and disabling switch only what
-- is registered, erasing forgets what the reason covers (all, the three conditional ones, or the
-- one), and nothing else changes.
pub view-run :
    (c : Command) (rules : Rules) (r : CallForwardReason)
    → view (run c rules) r ≡ spec c r (view rules r)
unfolding set_rule enable_rule disable_rule erase_rule
view-run (set reason number seconds) rules r = view-store r reason _ rules
view-run (enable reason) rules r = view-switch true r reason rules
view-run (disable reason) rules r = view-switch false r reason rules
view-run (erase unconditional) rules r = view-remove r unconditional rules
view-run (erase busy) rules r = view-remove r busy rules
view-run (erase no_reply) rules r = view-remove r no_reply rules
view-run (erase not_reachable) rules r = view-remove r not_reachable rules
view-run (erase all) rules r = unfold find in refl
view-run (erase all_conditional) rules r = view-conditional r rules

abbrev pub number_on : Option (Bool × Text) → Option Text
number_on none = none
number_on (some (true, number)) = some number
number_on (some (false, _)) = none

active-view : (rule : Option CallForwardRule) → active_number rule ≡ number_on (summary rule)
active-view none = refl
active-view (some rule) = ground arith

-- A call is forwarded to the unconditional number if that is on, else to the number of its own
-- condition if that is on, and else not at all; so the decision depends on the user's view alone.
pub should_forward-view :
    (r : CallForwardReason) (rules : Rules)
    → should_forward r rules
      ≡ first_of (number_on (view rules unconditional)) (number_on (view rules r))
unfolding should_forward
should_forward-view r rules =
    rw (active-view (rule_for unconditional rules), active-view (rule_for r rules)) refl
