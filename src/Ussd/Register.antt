-- ===== src/Ussd/Register.antt =====
-- Registering call forwarding by a USSD code (ims/supplementary.py).
use virtual_phone.Prelude.{
  ℕ, ◌≡◌, refl, ap, ◌∙◌, Bool, true, false, ◌&&◌, some, [], ◌∷◌, ◌++◌, ◌==◌, if◌then◌else◌, arith,
  All, find, find-store_same, text_key, same_text,
}
use virtual_phone.Sms.Gsm7.{Text}
use virtual_phone.Texts.{
  codes, is_digit, is_blank, is_empty, after, stripped, left_stripped, right_stripped,
}
use virtual_phone.Texts.Spans.{span-run}
use virtual_phone.Sdp.{is_number_char}
use virtual_phone.Forwarding.{
  CallForwardReason, unconditional, reason_key, set_rule, should_forward,
}
use virtual_phone.Ussd.{
  number_at, Ussd, register, respond, cf_codes, cf_request, send_ussd, send_stripped,
}

abbrev pub AreNumber : Text → Type 0
AreNumber = All (λ c. is_number_char c ≡ true)

-- A text that ends in a character that is not white space has nothing to strip at its end.
right_stripped-end :
    (s : Text) (c : ℕ) → is_blank c ≡ false → right_stripped (s ++ c ∷ []) ≡ s ++ c ∷ []
unfolding right_stripped
right_stripped-end [] c h = rw h refl
right_stripped-end (d ∷ s) c h = rw (right_stripped-end s c h) (not_last (is_blank d) s)
  where
    not_last :
        (b : Bool) (s : Text)
        → (if b && is_empty (s ++ c ∷ []) then [] else d ∷ (s ++ c ∷ [])) ≡ d ∷ (s ++ c ∷ [])
    not_last true [] = refl
    not_last true (e ∷ s) = refl
    not_last false s = refl

number_at-end :
    (number : Text)
    → AreNumber number
    → is_empty number ≡ false
    → number_at (number ++ b'#' ∷ []) ≡ some number
unfolding same_text
number_at-end number h full = rw (span-run is_number_char number [] b'#' h refl, full) refl

-- The code that registers a number for a service of two digits.
abbrev pub register_code : ℕ → ℕ → Text → Text
register_code a b number = b'*' ∷ a ∷ b ∷ b'*' ∷ (number ++ b'#' ∷ [])

register_at-code :
    (a b : ℕ) (reason : CallForwardReason) (number : Text)
    → is_digit a ≡ true
    → is_digit b ≡ true
    → find text_key (a ∷ b ∷ []) cf_codes ≡ some reason
    → AreNumber number
    → is_empty number ≡ false
    → cf_request (register_code a b number) ≡ some (register reason number)
unfolding cf_request after
register_at-code a b reason number da db service h full =
    let not_star : (a == b'*') ≡ false = ground (arith, da) in
    let not_hash : (b'#' == a) ≡ false = ground (arith, da) in
    rw (not_hash, not_star) (rw (da, db, service) (rw (number_at-end number h full) refl))

stripped-code :
    (a b : ℕ) (number : Text) → stripped (register_code a b number) ≡ register_code a b number
unfolding left_stripped
stripped-code a b number = right_stripped-end (b'*' ∷ a ∷ b ∷ b'*' ∷ number) b'#' refl

send_stripped-register :
    (code : Text) (reason : CallForwardReason) (number : Text) (u : Ussd)
    → same_text code (codes "*#06#") ≡ false
    → same_text code (codes "*#06*#") ≡ false
    → cf_request code ≡ some (register reason number)
    → (send_stripped code u).0.cf ≡ set_rule reason number 20 u.cf
unfolding respond
send_stripped-register code reason number u one two request = rw (one, two, request) refl

-- A code *ab*number#, for one of the four services and a number of digits and pluses, registers the
-- number for the service's reason, with a timeout of 20 seconds.
pub send_ussd-register :
    (a b : ℕ) (reason : CallForwardReason) (number : Text) (u : Ussd)
    → is_digit a ≡ true
    → is_digit b ≡ true
    → find text_key (a ∷ b ∷ []) cf_codes ≡ some reason
    → AreNumber number
    → is_empty number ≡ false
    → (send_ussd (register_code a b number) u).0.cf ≡ set_rule reason number 20 u.cf
unfolding send_ussd
send_ussd-register a b reason number u da db service h full =
    let not_hash : (a == b'#') ≡ false = ground (arith, da) in
    ap (λ c. (send_stripped c u).0.cf) (stripped-code a b number)
    ∙ send_stripped-register (register_code a b number) reason number u
        (unfold same_text in rw not_hash refl) (unfold same_text in rw not_hash refl)
        (register_at-code a b reason number da db service h full)

-- After the code *21*number# every call is forwarded to the number, whatever the reason asked about and
-- whatever the rules were before; the number has digits and pluses, at least one.
pub should_forward-send_ussd :
    (number : Text) (reason : CallForwardReason) (u : Ussd)
    → AreNumber number
    → is_empty number ≡ false
    → should_forward reason (send_ussd (codes "*21*" ++ (number ++ codes "#")) u).0.cf ≡ some number
should_forward-send_ussd number reason u h full =
    let set : (send_ussd (codes "*21*" ++ (number ++ codes "#")) u).0.cf
        ≡ set_rule unconditional number 20 u.cf =
      unfold find same_text in
      send_ussd-register b'2' b'1' unconditional number u refl refl refl h full in
    rw set
      (unfold should_forward set_rule in rw (find-store_same reason_key unconditional _ u.cf) refl)
