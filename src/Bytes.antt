-- ===== src/Bytes.antt =====
-- Python's `bytes`, and the big-endian words of its `struct` module: a byte string is a list of
-- numbers, each below 256.
pub mod Words
pub mod Reading
use virtual_phone.Prelude.{
  ℕ, ◌*◌, ◌+◌, ◌-◌, ◌/◌, ◌%◌, ◌<◌, ◌≡◌, refl, Bool, List, [], ◌∷◌, ◌++◌, map, arith, ltb, leb,
  length, take, drop, length-append, take-append, drop-append, All, if◌then◌else◌, Result, ok,
  raised, index_error, value_error,
}

abbrev pub Bytes : Type 0
Bytes = List ℕ

abbrev pub IsByte : ℕ → Type 0
IsByte b = b < 256

abbrev pub AreBytes : Bytes → Type 0
AreBytes = All IsByte

-- `result.append(b)` and `bytes([b])`: a ValueError unless the value is in range(256).
abbrev pub byte : ℕ → Result Bytes
byte b = if ltb b 256 then ok (b ∷ []) else raised value_error

-- `bool(flags & mask)` for a mask of one bit, given as its weight.
abbrev pub bit_at : ℕ → ℕ → Bool
bit_at weight flags = leb 1 (flags / weight % 2)

-- `flag << k`, and `flags |= mask` where that bit is still clear: the weight, or 0.
abbrev pub weigh : Bool → ℕ → ℕ
weigh b weight = if b then weight else 0
