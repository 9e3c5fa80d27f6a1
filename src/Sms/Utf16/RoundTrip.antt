-- ===== src/Sms/Utf16/RoundTrip.antt =====
-- Decoding UTF-16 that was encoded.
use virtual_phone.Prelude.{
  ℕ, ◌*◌, ◌+◌, ◌-◌, ◌/◌, ◌%◌, ◌<◌, ◌≤◌, ◌≡◌, refl, ap, ◌∙◌, ◌⊎◌, inl, inr, none, some, [], ◌∷◌,
  ◌++◌, ltb, if◌then◌else◌, ok, ◌>>=◌, arith, All, Bool-cases,
}
use virtual_phone.Bytes.{Bytes}
use virtual_phone.Sms.Gsm7.{Text}
use virtual_phone.Sms.Utf16.{
  unit_bytes, encode_char, encode_utf16, next_unit, decode_units, decode_utf16,
}

-- A Unicode scalar value: in range, and no surrogate.
abbrev pub IsScalar : ℕ → Type 0
IsScalar c = (c < 0x110000) × ((c < 0xd800) ⊎ (0xe000 ≤ c))

abbrev pub AreScalars : Text → Type 0
AreScalars = All IsScalar

-- The bytes of a character.
unfoldable pub char_bytes : ℕ → Bytes
char_bytes c =
    if ltb c 0x10000
    then unit_bytes c
    else unit_bytes (0xd800 + (c - 0x10000) / 0x400) ++ unit_bytes (0xdc00 + (c - 0x10000) % 0x400)

unfoldable pub text_bytes : Text → Bytes
text_bytes [] = []
text_bytes (c ∷ rest) = char_bytes c ++ text_bytes rest

encode_char-eq-bytes : (c : ℕ) → IsScalar c → encode_char c ≡ ok (char_bytes c)
unfolding encode_char char_bytes
encode_char-eq-bytes c h = ground arith

pub encode_utf16-eq-bytes :
    (text : Text) → AreScalars text → encode_utf16 text ≡ ok (text_bytes text)
unfolding encode_utf16 text_bytes
encode_utf16-eq-bytes [] h = refl
encode_utf16-eq-bytes (c ∷ text) h =
    rw (encode_char-eq-bytes c h.0) (rw (encode_utf16-eq-bytes text h.1))

unit_value : (u : ℕ) → u / 256 * 256 + u % 256 ≡ u
unit_value u = omega arith

next_plain : (c : ℕ) → IsScalar c → c < 0x10000 → next_unit none c ≡ (c ∷ [], none)
unfolding next_unit
next_plain c h small = ground arith

next_high : (n : ℕ) → n < 0x400 → next_unit none (0xd800 + n) ≡ ([], some (0xd800 + n))
unfolding next_unit
next_high n h = ground arith

next_low :
    (m n : ℕ)
    → n < 0x400
    → next_unit (some (0xd800 + m)) (0xdc00 + n)
      ≡ ((0x10000 + (0xd800 + m - 0xd800) * 0x400 + (0xdc00 + n - 0xdc00)) ∷ [], none)
unfolding next_unit
next_low m n h = ground arith

pair_value :
    (c : ℕ)
    → 0x10000 ≤ c
    → 0x10000
        + (0xd800 + (c - 0x10000) / 0x400 - 0xd800) * 0x400
        + (0xdc00 + (c - 0x10000) % 0x400 - 0xdc00)
      ≡ c
pair_value c h = omega arith

decode_char :
    (c : ℕ) (rest : Bytes)
    → IsScalar c
    → decode_units none (char_bytes c ++ rest) ≡ c ∷ decode_units none rest
unfolding char_bytes decode_units
decode_char c rest h = elim (Bool-cases (ltb c 0x10000)) [
  | inl small ↦ rw (small, unit_value c, next_plain c h (ground arith))
  | inr large ↦ rw (
    large,
    unit_value (0xd800 + (c - 0x10000) / 0x400),
    unit_value (0xdc00 + (c - 0x10000) % 0x400),
    next_high ((c - 0x10000) / 0x400) (ground arith),
    next_low ((c - 0x10000) / 0x400) ((c - 0x10000) % 0x400) (omega arith),
    pair_value c (ground arith),
  )
]

decode_text : (text : Text) → AreScalars text → decode_units none (text_bytes text) ≡ text
unfolding text_bytes
decode_text [] h = unfold decode_units in refl
decode_text (c ∷ text) h =
    decode_char c (text_bytes text) h.0 ∙ ap (λ t. c ∷ t) (decode_text text h.1)

pub decode-text_bytes : (text : Text) → AreScalars text → decode_utf16 (text_bytes text) ≡ text
unfolding decode_utf16
decode-text_bytes text h = decode_text text h

-- Every text of Unicode scalar values is encoded, and decoding gives it back, characters beyond
-- the basic plane included.
pub decode_utf16-encode_utf16 :
    (text : Text)
    → AreScalars text
    → (encode_utf16 text >>= λ octets. ok (decode_utf16 octets)) ≡ ok text
decode_utf16-encode_utf16 text h =
    rw (encode_utf16-eq-bytes text h) (ap ok (decode-text_bytes text h))
