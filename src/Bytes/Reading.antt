-- ===== src/Bytes/Reading.antt =====
-- Reading by a cursor: `data[offset:]` is the list that is left, so `data[offset]` raises
-- IndexError where that is empty, and a slice past the end is cut short.
use virtual_phone.Prelude.{
  ℕ, zero, suc, ◌-◌, ◌≤◌, ◌≡◌, refl, ap, List, [], ◌∷◌, ◌++◌, arith, length, take, drop,
  take-append, drop-append, Result, ok, raised, index_error,
}
use virtual_phone.Prelude

-- A reader takes the rest of the input and returns a value with what is left.
abbrev pub Reader {ℓ} : Type ℓ → Type ℓ
Reader A = List ℕ → Result (A × List ℕ)

infixl 5 ◌>>=◌ ◌>>◌
abbrev pub ◌>>=◌ {ℓ κ} : {A : Type ℓ} {B : Type κ} → Reader A → (A → Reader B) → Reader B
◌>>=◌ p f input = Prelude.◌>>=◌ (p input) (λ (a, rest). f a rest)

abbrev pub ◌>>◌ {ℓ} : {B : Type ℓ} → Reader (Unit {0}) → Reader B → Reader B
p >> q = p >>= λ _. q

abbrev pub pure {ℓ} : {A : Type ℓ} → A → Reader A
pure a rest = ok (a, rest)

-- A computation that reads nothing, and may raise.
abbrev pub lift {ℓ} : {A : Type ℓ} → Result A → Reader A
lift m rest = Prelude.◌>>=◌ m (λ a. ok (a, rest))

-- `data[offset]; offset += 1`
abbrev pub read_byte : Reader ℕ
read_byte [] = raised index_error
read_byte (b ∷ rest) = ok (b, rest)

-- `data[offset: offset + n]; offset += n`
abbrev pub read_slice : ℕ → Reader (List ℕ)
read_slice n rest = ok (take n rest, drop n rest)

pub drop-append_past :
    (n : ℕ) (xs ys : List ℕ) → length xs ≤ n → drop n (xs ++ ys) ≡ drop (n - length xs) ys
drop-append_past n [] ys h = ap (λ k. drop k ys) {x = n} {y = n - 0} (omega arith)
drop-append_past zero (x ∷ xs) ys h = elim h [ ]
drop-append_past (suc n) (x ∷ xs) ys h =
    virtual_phone.Prelude.◌∙◌ (drop-append_past n xs ys (omega arith))
      (ap (λ k. drop k ys) {x = n - length xs} {y = suc n - suc (length xs)} (omega arith))
