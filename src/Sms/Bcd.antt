-- ===== src/Sms/Bcd.antt =====
-- BCD digits with swapped nibbles (ims/sms_pdu.py: encode_bcd, decode_bcd). Texts are ASCII: of
-- the other characters that Python's `int` takes for a digit the model knows nothing, and raises.
pub mod RoundTrip
use virtual_phone.Prelude.{
  ℕ, ◌*◌, ◌+◌, ◌-◌, ◌/◌, ◌%◌, ◌<◌, Bool, true, false, ◌&&◌, List, [], ◌∷◌, ◌++◌, ltb, leb,
  if◌then◌else◌, length, take, Result, ok, raised, value_error, ◌>>=◌,
}
use virtual_phone.Bytes.{Bytes}
use virtual_phone.Sms.Gsm7.{Text}

-- `int(ch)`
abbrev pub digit_value : ℕ → Result ℕ
digit_value c = if leb b'0' c && leb c b'9' then ok (c - b'0') else raised value_error

-- `str(d)` for a digit
abbrev pub digit_char : ℕ → ℕ
digit_char d = b'0' + d

unfoldable pub encode_bcd : Text → Result Bytes
encode_bcd [] = ok []
encode_bcd (a ∷ []) = do low ← digit_value a; ok ((0x0f * 16 + low) ∷ [])
encode_bcd (a ∷ b ∷ rest) = do
  low ← digit_value a
  high ← digit_value b
  octets ← encode_bcd rest
  ok ((high * 16 + low) ∷ octets)

-- The loop over the bytes; `digits` is the list built so far.
unfoldable pub decode_digits : Bytes → ℕ → Text → Text
decode_digits [] num_digits digits = digits
decode_digits (b ∷ rest) num_digits digits =
    let low = b % 16 in
    let high = b / 16 % 16 in
    let one = if leb low 9 then digits ++ (digit_char low ∷ []) else digits in
    let two =
      if leb high 9 && ltb (length one) num_digits then one ++ (digit_char high ∷ []) else one in
    decode_digits rest num_digits two

unfoldable pub decode_bcd : Bytes → ℕ → Text
unfolding decode_digits
decode_bcd octets num_digits = take num_digits (decode_digits octets num_digits [])
