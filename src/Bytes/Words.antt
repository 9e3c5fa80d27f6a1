-- ===== src/Bytes/Words.antt =====
-- Big-endian words, as `struct.pack` writes them ("!B", "!H", "!I") and `struct.unpack` reads them.
use virtual_phone.Prelude.{
  ℕ, ◌*◌, ◌+◌, ◌/◌, ◌%◌, ◌≡◌, List, [], ◌∷◌, arith, ltb, if◌then◌else◌, Result, ok, raised,
  struct_error,
}

-- "!B": a struct.error unless the value fits.
abbrev pub pack_u8 : ℕ → Result (List ℕ)
pack_u8 n = if ltb n 0x100 then ok (n ∷ []) else raised struct_error

abbrev pub pack_u16 : ℕ → Result (List ℕ)
pack_u16 n = if ltb n 0x10000 then ok (n / 256 ∷ n % 256 ∷ []) else raised struct_error

abbrev pub be32 : ℕ → List ℕ
be32 n = n / 0x1000000 ∷ n / 0x10000 % 256 ∷ n / 256 % 256 ∷ n % 256 ∷ []

abbrev pub pack_u32 : ℕ → Result (List ℕ)
pack_u32 n = if ltb n 0x100000000 then ok (be32 n) else raised struct_error

abbrev pub u16_of : ℕ → ℕ → ℕ
u16_of a b = a * 256 + b

abbrev pub u32_of : ℕ → ℕ → ℕ → ℕ → ℕ
u32_of a b c d = a * 0x1000000 + b * 0x10000 + c * 256 + d

pub u16_of-pack : (n : ℕ) → u16_of (n / 256) (n % 256) ≡ n
u16_of-pack n = omega arith

pub u32_of-pack : (n : ℕ) → u32_of (n / 0x1000000) (n / 0x10000 % 256) (n / 256 % 256) (n % 256) ≡ n
u32_of-pack n = omega arith
