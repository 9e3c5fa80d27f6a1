-- ===== src/Sms/Utf16.antt =====
-- The codec "utf-16-be" of Python, as ims/sms_pdu.py uses it for UCS-2 text: strict when it
-- encodes (a UnicodeEncodeError is a ValueError), with errors="replace" when it decodes.
pub mod RoundTrip
use virtual_phone.Prelude.{
  ℕ, ◌*◌, ◌+◌, ◌-◌, ◌/◌, ◌%◌, Bool, true, false, ◌&&◌, Option, none, some, List, [], ◌∷◌, ◌++◌, ltb,
  leb, if◌then◌else◌, Result, ok, raised, value_error, ◌>>=◌,
}
use virtual_phone.Bytes.{Bytes}
use virtual_phone.Sms.Gsm7.{Text}

abbrev pub is_high : ℕ → Bool
is_high u = leb 0xd800 u && leb u 0xdbff

abbrev pub is_low : ℕ → Bool
is_low u = leb 0xdc00 u && leb u 0xdfff

-- U+FFFD
abbrev pub replacement : ℕ
replacement = 0xfffd

abbrev pub unit_bytes : ℕ → Bytes
unit_bytes u = u / 256 ∷ u % 256 ∷ []

unfoldable pub encode_char : ℕ → Result Bytes
encode_char c =
    if ltb c 0x10000
    then (if is_high c
        then raised value_error
        else if is_low c
        then raised value_error
        else ok (unit_bytes c))
    else ok
        (unit_bytes (0xd800 + (c - 0x10000) / 0x400) ++ unit_bytes (0xdc00 + (c - 0x10000) % 0x400))

-- `text.encode("utf-16-be")`
unfoldable pub encode_utf16 : Text → Result Bytes
unfolding encode_char
encode_utf16 [] = ok []
encode_utf16 (c ∷ rest) = do
  octets ← encode_char c
  others ← encode_utf16 rest
  ok (octets ++ others)

-- One unit with no surrogate before it: what is written, and a high surrogate that now waits.
unfoldable pub first_unit : ℕ → Text × Option ℕ
first_unit u =
    if is_high u
    then ([], some u)
    else if is_low u
    then (replacement ∷ [], none)
    else (u ∷ [], none)

unfoldable pub next_unit : Option ℕ → ℕ → Text × Option ℕ
unfolding first_unit
next_unit none u = first_unit u
next_unit (some high) u =
    if is_low u
    then ((0x10000 + (high - 0xd800) * 0x400 + (u - 0xdc00)) ∷ [], none)
    else (replacement ∷ (first_unit u).0, (first_unit u).1)

abbrev pub at_end : Option ℕ → Text
at_end none = []
at_end (some _) = replacement ∷ []

-- The decoder, with the high surrogate that waits for its pair. Data that stops within a
-- character ends in one replacement.
unfoldable pub decode_units : Option ℕ → Bytes → Text
unfolding next_unit
decode_units waiting [] = at_end waiting
decode_units waiting (_ ∷ []) = replacement ∷ []
decode_units waiting (a ∷ b ∷ rest) =
    (next_unit waiting (a * 256 + b)).0 ++ decode_units (next_unit waiting (a * 256 + b)).1 rest

-- `octets.decode("utf-16-be", errors="replace")`
unfoldable pub decode_utf16 : Bytes → Text
unfolding decode_units
decode_utf16 octets = decode_units none octets
