-- ===== src/Forwarding.antt =====
-- The call forwarding rules of ims/supplementary.py (CallForwardingManager).
pub mod Refinement
use virtual_phone.Prelude.{
  ℕ, ◌≡◌, refl, Bool, true, false, Option, none, some, List, [], ◌∷◌, ◌==◌, ==_refl, ==_iff,
  if◌then◌else◌, arith, Key, find, store, remove,
}
use virtual_phone.Sms.Gsm7.{Text}

pub data CallForwardReason : Type 0 where
  unconditional busy no_reply not_reachable all all_conditional : CallForwardReason

abbrev pub reason_value : CallForwardReason → ℕ
reason_value unconditional = 0
reason_value busy = 1
reason_value no_reply = 2
reason_value not_reachable = 3
reason_value all = 4
reason_value all_conditional = 5

abbrev pub same_reason : CallForwardReason → CallForwardReason → Bool
same_reason a b = reason_value a == reason_value b

pub same_reason_refl : (a : CallForwardReason) → same_reason a a ≡ true
same_reason_refl a = ==_refl (reason_value a)

value_reason : ℕ → CallForwardReason
value_reason n =
    if n == 0
    then unconditional
    else if n == 1
    then busy
    else if n == 2
    then no_reply
    else if n == 3
    then not_reachable
    else if n == 4
    then all
    else all_conditional

value_reason_value : (a : CallForwardReason) → value_reason (reason_value a) ≡ a
unfolding value_reason
value_reason_value unconditional = refl
value_reason_value busy = refl
value_reason_value no_reply = refl
value_reason_value not_reachable = refl
value_reason_value all = refl
value_reason_value all_conditional = refl

pub same_reason_sound : (a b : CallForwardReason) → same_reason a b ≡ true → a ≡ b
same_reason_sound a b e =
    cc (value_reason_value a, value_reason_value b, (==_iff (reason_value a) (reason_value b)).0 e)

abbrev pub reason_key : Key CallForwardReason
reason_key = record {
  same = same_reason;
  same_refl = same_reason_refl;
  same_sound = same_reason_sound;
}

pub record CallForwardRule : Type 0 where
  pub reason : CallForwardReason
  pub enabled : Bool
  pub number : Text
  pub time_seconds : ℕ
  pub service_class : ℕ

abbrev pub Rules : Type 0
Rules = List (CallForwardReason × CallForwardRule)

-- `self._rules.get(reason)`
abbrev pub rule_for : CallForwardReason → Rules → Option CallForwardRule
rule_for reason = find reason_key reason

unfoldable pub set_rule : CallForwardReason → Text → ℕ → Rules → Rules
set_rule reason number time_seconds = store reason_key reason (record {
  reason = reason;
  enabled = true;
  number = number;
  time_seconds = time_seconds;
  service_class = 1;
})

-- A rule that was found is changed in place.
abbrev pub switch : Bool → CallForwardReason → Option CallForwardRule → Rules → Rules × Bool
switch on reason none rules = (rules, false)
switch on reason (some rule) rules =
    (store reason_key reason (record rule { enabled = on }) rules, true)

unfoldable pub enable_rule : CallForwardReason → Rules → Rules × Bool
enable_rule reason rules = switch true reason (rule_for reason rules) rules

unfoldable pub disable_rule : CallForwardReason → Rules → Rules × Bool
disable_rule reason rules = switch false reason (rule_for reason rules) rules

abbrev pub was_there : Option CallForwardRule → Bool
was_there none = false
was_there (some _) = true

unfoldable pub erase_rule : CallForwardReason → Rules → Rules × Bool
erase_rule all rules = ([], true)
erase_rule all_conditional rules = (
  remove reason_key not_reachable (remove reason_key no_reply (remove reason_key busy rules)),
  true,
)
erase_rule reason rules = (remove reason_key reason rules, was_there (rule_for reason rules))

-- The number of a rule that is there and enabled.
abbrev pub active_number : Option CallForwardRule → Option Text
active_number none = none
active_number (some rule) = if rule.enabled then some rule.number else none

abbrev pub first_of {ℓ} : {A : Type ℓ} → Option A → Option A → Option A
first_of none second = second
first_of (some a) second = some a

unfoldable pub should_forward : CallForwardReason → Rules → Option Text
should_forward reason rules =
    first_of (active_number (rule_for unconditional rules)) (active_number (rule_for reason rules))
