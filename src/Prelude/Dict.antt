-- ===== src/Prelude/Dict.antt =====
-- Python's dict as an association list: a key keeps its place when its value changes.
use Prim.Native.Nat.{ℕ}
use mathlib.Core.Path.{◌≡◌, refl}
use mathlib.Core.Bool.{Bool, true, false}
use mathlib.Core.Option.{Option, none, some}
use mathlib.Core.List.{List, [], ◌∷◌}
use mathlib.Core.Logic.{inl, inr}
use native.Mathlib.Omega.{arith}
use virtual_phone.Prelude.Tests.{if◌then◌else◌, Bool-cases, ◌==◌, ==_refl}

-- What a key's `__eq__` promises.
pub record Key (K : Type 0) : Type 0 where
  pub same : K → K → Bool
  pub same_refl : (a : K) → same a a ≡ true
  pub same_sound : (a b : K) → same a b ≡ true → a ≡ b

module _ {K V : Type 0} (key : Key K) where
  unfoldable pub find : K → List (K × V) → Option V
  find k [] = none
  find k ((j, v) ∷ rest) = let later = find k rest in if key.same k j then some v else later

  -- `d[k] = v`
  unfoldable pub store : K → V → List (K × V) → List (K × V)
  store k v [] = (k, v) ∷ []
  store k v ((j, w) ∷ rest) =
      let later = store k v rest in if key.same k j then (j, v) ∷ rest else (j, w) ∷ later

  -- `d.pop(k, None)`
  unfoldable pub remove : K → List (K × V) → List (K × V)
  remove k [] = []
  remove k ((j, w) ∷ rest) =
      let later = remove k rest in if key.same k j then later else (j, w) ∷ later

  pub find-store_same : (k : K) (v : V) (d : List (K × V)) → find k (store k v d) ≡ some v
  unfolding find store
  find-store_same k v [] = rw (key.same_refl k) refl
  find-store_same k v ((j, w) ∷ rest) = elim (Bool-cases (key.same k j)) [
    | inl here ↦ rw here (rw here refl)
    | inr there ↦ rw there (rw there (find-store_same k v rest))
  ]

  pub find-store_other :
      (i k : K) (v : V) (d : List (K × V)) → key.same i k ≡ false → find i (store k v d) ≡ find i d
  unfolding find store
  find-store_other i k v [] other = rw other refl
  find-store_other i k v ((j, w) ∷ rest) other = elim (Bool-cases (key.same k j)) [
    | inl here ↦
        let miss : key.same i j ≡ false = cc (other, key.same_sound k j here) in
        rw here (rw miss refl)
    | inr there ↦ rw there (elim (Bool-cases (key.same i j)) [
      | inl hit ↦ rw hit refl
      | inr miss ↦ rw miss (find-store_other i k v rest other)
    ])
  ]

  pub find-remove_same : (k : K) (d : List (K × V)) → find k (remove k d) ≡ none
  unfolding find remove
  find-remove_same k [] = refl
  find-remove_same k ((j, w) ∷ rest) = elim (Bool-cases (key.same k j)) [
    | inl here ↦ rw here (find-remove_same k rest)
    | inr there ↦ rw there (rw there (find-remove_same k rest))
  ]

  pub find-remove_other :
      (i k : K) (d : List (K × V)) → key.same i k ≡ false → find i (remove k d) ≡ find i d
  unfolding find remove
  find-remove_other i k [] other = refl
  find-remove_other i k ((j, w) ∷ rest) other = elim (Bool-cases (key.same k j)) [
    | inl here ↦
        let miss : key.same i j ≡ false = cc (other, key.same_sound k j here) in
        rw here (rw miss (find-remove_other i k rest other))
    | inr there ↦ rw there (elim (Bool-cases (key.same i j)) [
      | inl hit ↦ rw hit refl
      | inr miss ↦ rw miss (find-remove_other i k rest other)
    ])
  ]

  -- Storing what is there changes nothing, and of two values under a key the second one stays.
  pub store-found : (k : K) (v : V) (d : List (K × V)) → find k d ≡ some v → store k v d ≡ d
  unfolding find store
  store-found k v [] there = absurd (cc)
  store-found k v ((j, w) ∷ rest) there = elim (Bool-cases (key.same k j)) [
    | inl here ↦ let this : some w ≡ some v = rw here at there in rw here (cc (this))
    | inr other ↦ rw (other, store-found k v rest (rw other at there)) refl
  ]

  pub store-store : (k : K) (v w : V) (d : List (K × V)) → store k w (store k v d) ≡ store k w d
  unfolding store
  store-store k v w [] = rw (key.same_refl k) refl
  store-store k v w ((j, u) ∷ rest) = elim (Bool-cases (key.same k j)) [
    | inl here ↦ rw here (rw here refl)
    | inr other ↦ rw other (rw (other, store-store k v w rest) refl)
  ]

-- Strings, as lists of code points.
unfoldable pub same_text : List ℕ → List ℕ → Bool
same_text [] [] = true
same_text (a ∷ s) (b ∷ t) = let rest = same_text s t in if a == b then rest else false
same_text _ _ = false

pub same_text_refl : (s : List ℕ) → same_text s s ≡ true
unfolding same_text
same_text_refl [] = refl
same_text_refl (a ∷ s) = rw (==_refl a) (same_text_refl s)

pub same_text_sound : (s t : List ℕ) → same_text s t ≡ true → s ≡ t
unfolding same_text
same_text_sound [] [] h = refl
same_text_sound [] (b ∷ t) h = cc
same_text_sound (a ∷ s) [] h = cc
same_text_sound (a ∷ s) (b ∷ t) h = ground (arith, same_text_sound s t)

abbrev pub text_key : Key (List ℕ)
text_key = record { same = same_text; same_refl = same_text_refl; same_sound = same_text_sound }
