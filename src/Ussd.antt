-- ===== src/Ussd.antt =====
-- USSD codes (ims/supplementary.py: USSDHandler). The digits of a code are the ASCII ones.
pub mod Register
use virtual_phone.Prelude.{
  ℕ, Bool, true, false, ◌&&◌, ◌||◌, not, Option, none, some, List, [], ◌∷◌, ◌++◌, ◌==◌, leb,
  if◌then◌else◌, length, find, text_key, same_text,
}
use virtual_phone.Sms.Gsm7.{Text}
use virtual_phone.Texts.{
  codes, is_digit, is_empty, is_found, after, span, stripped, left_stripped, right_stripped,
}
use virtual_phone.Sdp.{bind, is_number_char}
use virtual_phone.Forwarding.{
  CallForwardReason, unconditional, busy, no_reply, not_reachable, all, all_conditional,
  CallForwardRule, Rules, rule_for, set_rule, disable_rule, erase_rule,
}

pub data UssdState : Type 0 where
  idle active pending : UssdState

pub record UssdSession : Type 0 where
  pub code : Text
  pub state : UssdState
  pub response : Text
  pub response_type : ℕ

pub record Ussd : Type 0 where
  pub session : Option UssdSession
  pub cf : Rules
  pub imei : Text

abbrev pub set_imei : Text → Ussd → Ussd
set_imei imei u = record u { imei = imei }

abbrev pub cancel_ussd : Ussd → Ussd
cancel_ussd u = record u { session = none }

-- _respond: the type and the message.
unfoldable pub respond : ℕ → Text → Ussd → Ussd × (ℕ × Text)
respond msg_type message u = (
  record u {
    session = some (record {
      code = [];
      state = if msg_type == 1 then active else idle;
      response = message;
      response_type = msg_type;
    });
  },
  (msg_type, message),
)

abbrev pub cf_codes : List (Text × CallForwardReason)
cf_codes =
    (codes "21", unconditional)
    ∷ (codes "61", no_reply)
    ∷ (codes "62", not_reachable)
    ∷ (codes "67", busy)
    ∷ []

abbrev pub reason_name : CallForwardReason → Text
reason_name unconditional = codes "UNCONDITIONAL"
reason_name busy = codes "BUSY"
reason_name no_reply = codes "NO_REPLY"
reason_name not_reachable = codes "NOT_REACHABLE"
reason_name all = codes "ALL"
reason_name all_conditional = codes "ALL_CONDITIONAL"

-- What a code asks for.
pub data Request : Type 0 where
  query deactivate erase : CallForwardReason → Request
  register : CallForwardReason → Text → Request

-- `\d{2}` with one of the service codes, and what follows.
abbrev pub service_at : Text → Option (CallForwardReason × Text)
service_at (a ∷ b ∷ rest) =
    if is_digit a && is_digit b
    then bind (find text_key (a ∷ b ∷ []) cf_codes) (λ reason. some (reason, rest))
    else none
service_at _ = none

abbrev pub hash : Text
hash = codes "#"

-- `<prefix>\d{2}#`
abbrev pub short_at : Text → (CallForwardReason → Request) → Text → Option Request
short_at prefix request code = bind (after prefix code) (λ text.
    bind (service_at text)
      (λ found. if same_text found.1 hash then some (request found.0) else none))

abbrev pub without_star : Text → Text
without_star [] = []
without_star (c ∷ text) = if c == b'*' then text else c ∷ text

-- The number of `[+\d]+#`.
abbrev pub number_at : Text → Option Text
number_at text =
    let (number, rest) = span is_number_char text in
    if not (is_empty number) && same_text rest hash then some number else none

-- `\*\*?\d{2}\*[+\d]+#`
abbrev pub register_at : Text → Option Request
register_at code = bind (after (codes "*") code) (λ text.
    bind (service_at (without_star text)) (λ found.
      bind (after (codes "*") found.1)
        (λ rest. bind (number_at rest) (λ number. some (register found.0 number)))))

abbrev pub first_of_two {ℓ} : {A : Type ℓ} → Option A → Option A → Option A
first_of_two none b = b
first_of_two (some a) b = some a

-- The first pattern that matches.
unfoldable pub cf_request : Text → Option Request
unfolding after span same_text find
cf_request code = first_of_two (short_at (codes "*#") query code) (
    first_of_two (register_at code)
      (first_of_two (short_at hash deactivate code) (short_at (codes "##") erase code)))

abbrev pub said : CallForwardReason → Text → Text
said reason outcome = codes "Call Forwarding " ++ (reason_name reason ++ (codes ": " ++ outcome))

abbrev pub status_of : Option CallForwardRule → Text
status_of none = codes "Not active"
status_of (some rule) =
    if rule.enabled
    then codes "Active" ++ (10 ∷ codes "Number: " ++ rule.number)
    else codes "Not active"

abbrev pub perform : Request → Ussd → Ussd × (ℕ × Text)
perform (query reason) u = respond 0 (said reason (status_of (rule_for reason u.cf))) u
perform (register reason number) u =
    respond 0 (said reason (codes "Registered" ++ (10 ∷ codes "Number: " ++ number)))
      (record u { cf = set_rule reason number 20 u.cf })
perform (deactivate reason) u =
    respond 0 (said reason (codes "Deactivated")) (record u { cf = (disable_rule reason u.cf).0 })
perform (erase reason) u =
    respond 0 (said reason (codes "Erased")) (record u { cf = (erase_rule reason u.cf).0 })

unfoldable pub ends_with_hash : Text → Bool
ends_with_hash [] = false
ends_with_hash (c ∷ []) = c == b'#'
ends_with_hash (c ∷ d ∷ rest) = ends_with_hash (d ∷ rest)

-- What follows where no forwarding code matched.
abbrev pub other_code : Text → Ussd → Ussd × (ℕ × Text)
other_code code u =
    if same_text code (codes "*#*#4636#*#*")
    then respond 0
        (codes "Virtual Phone Info" ++ (10 ∷ codes "Network: LTE" ++ (10 ∷ codes "SIM: Active"))) u
    else if is_found (after (codes "*") code) && (ends_with_hash code && leb (length code) 6)
    then respond 0 (codes "Balance: $50.00" ++ (10 ∷ codes "Valid until: 2025-12-31")) u
    else respond 2 (codes "USSD code not recognized") u

abbrev pub handle_code : Text → Option Request → Ussd → Ussd × (ℕ × Text)
handle_code code none u = other_code code u
handle_code code (some request) u = perform request u

-- send_ussd, on the stripped code.
abbrev pub send_stripped : Text → Ussd → Ussd × (ℕ × Text)
send_stripped code u =
    if same_text code (codes "*#06#") || same_text code (codes "*#06*#")
    then respond 0 (codes "IMEI: " ++ u.imei) u
    else handle_code code (cf_request code) u

unfoldable pub send_ussd : Text → Ussd → Ussd × (ℕ × Text)
unfolding left_stripped right_stripped same_text cf_request respond set_rule disable_rule erase_rule
    ends_with_hash after
send_ussd code u = send_stripped (stripped code) u
