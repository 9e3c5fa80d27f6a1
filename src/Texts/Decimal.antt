-- ===== src/Texts/Decimal.antt =====
-- Decimal numbers: `int` after `str`.
use virtual_phone.Prelude.{
  false, ℕ, zero, suc, ◌+◌, ◌-◌, ◌*◌, ◌/◌, ◌%◌, ◌<◌, ◌≤◌, ◌≡◌, refl, true, [], ◌∷◌, ◌++◌, ltb,
  arith, All, All-append, Bool-cases, inl, inr,
}
use virtual_phone.Sms.Gsm7.{Text}
use virtual_phone.Texts.{is_empty, is_digit, number_from, decimal_from, decimal}

pub number_from-append :
    (high : ℕ) (s t : Text) → number_from high (s ++ t) ≡ number_from (number_from high s) t
unfolding number_from
number_from-append high [] t = refl
number_from-append high (c ∷ s) t = number_from-append (high * 10 + (c - b'0')) s t

number_from-decimal_from : (fuel n : ℕ) → n ≤ fuel → number_from 0 (decimal_from fuel n) ≡ n
unfolding number_from decimal_from
number_from-decimal_from zero n h = omega arith
number_from-decimal_from (suc fuel) n h = elim (Bool-cases (ltb n 10)) [
  | inl small ↦ rw small (omega arith)
  | inr large ↦
      rw
        (
          large,
          number_from-append 0 (decimal_from fuel (n / 10)) ((b'0' + n % 10) ∷ []),
          number_from-decimal_from fuel (n / 10) (omega arith),
        )
        (omega arith)
]

pub number_from-decimal : (n : ℕ) → number_from 0 (decimal n) ≡ n
unfolding decimal
number_from-decimal n = number_from-decimal_from n n (omega arith)

abbrev pub AreDigits : Text → Type 0
AreDigits = All (λ c. is_digit c ≡ true)

digit-is_digit : (d : ℕ) → d < 10 → is_digit (b'0' + d) ≡ true
digit-is_digit d h = ground arith

decimal_from-AreDigits : (fuel n : ℕ) → AreDigits (decimal_from fuel n)
unfolding decimal_from
decimal_from-AreDigits zero n = (digit-is_digit (n % 10) (omega arith), tt)
decimal_from-AreDigits (suc fuel) n = elim (Bool-cases (ltb n 10)) [
  | inl small ↦ rw small (digit-is_digit n (ground arith), tt)
  | inr large ↦ rw large (
      All-append (λ c. is_digit c ≡ true) (decimal_from fuel (n / 10)) ((b'0' + n % 10) ∷ [])
        (decimal_from-AreDigits fuel (n / 10)) (digit-is_digit (n % 10) (omega arith), tt))
]

pub decimal-AreDigits : (n : ℕ) → AreDigits (decimal n)
unfolding decimal
decimal-AreDigits n = decimal_from-AreDigits n n

decimal_from-full : (fuel n : ℕ) → is_empty (decimal_from fuel n) ≡ false
unfolding decimal_from
decimal_from-full zero n = refl
decimal_from-full (suc fuel) n = elim (Bool-cases (ltb n 10)) [
  | inl small ↦ rw small refl
  | inr large ↦ rw large (append-full (decimal_from fuel (n / 10)) (b'0' + n % 10))
]
  where
    append-full : (s : Text) (c : ℕ) → is_empty (s ++ c ∷ []) ≡ false
    append-full [] c = refl
    append-full (d ∷ s) c = refl

pub decimal-full : (n : ℕ) → is_empty (decimal n) ≡ false
unfolding decimal
decimal-full n = decimal_from-full n n
