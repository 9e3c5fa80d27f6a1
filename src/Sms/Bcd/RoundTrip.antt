-- ===== src/Sms/Bcd/RoundTrip.antt =====
-- decode_bcd after encode_bcd (ims/sms_pdu.py).
use virtual_phone.Prelude.{
  ℕ, ◌*◌, ◌+◌, ◌-◌, ◌/◌, ◌%◌, ◌<◌, ◌≤◌, ◌≡◌, refl, ◌∙◌, [], ◌∷◌, ◌++◌, length, ok, arith, All,
  le→leb, lt→ltb, append_assoc, append-nil, length-append, take_all,
}
use virtual_phone.Bytes.{Bytes}
use virtual_phone.Sms.Gsm7.{Text}
use virtual_phone.Sms.Bcd.{digit_char, encode_bcd, decode_digits, decode_bcd}

abbrev pub IsDigit : ℕ → Type 0
IsDigit c = (b'0' ≤ c) × (c ≤ b'9')

abbrev pub AreDigits : Text → Type 0
AreDigits = All IsDigit

-- The bytes of a digit string.
pub bcd_bytes : Text → Bytes
bcd_bytes [] = []
bcd_bytes (a ∷ []) = (240 + (a - b'0')) ∷ []
bcd_bytes (a ∷ b ∷ rest) = ((b - b'0') * 16 + (a - b'0')) ∷ bcd_bytes rest

pub encode_bcd-eq-bytes : (ds : Text) → AreDigits ds → encode_bcd ds ≡ ok (bcd_bytes ds)
unfolding encode_bcd bcd_bytes
encode_bcd-eq-bytes [] h = refl
encode_bcd-eq-bytes (a ∷ []) h = rw (le→leb 48 a h.0.0, le→leb a 57 h.0.1)
encode_bcd-eq-bytes (a ∷ b ∷ rest) h =
    rw (le→leb 48 a h.0.0, le→leb a 57 h.0.1, le→leb 48 b h.1.0.0, le→leb b 57 h.1.0.1)
      (rw (encode_bcd-eq-bytes rest h.1.1))

pub length-bcd_bytes : (ds : Text) → length (bcd_bytes ds) ≡ (length ds + 1) / 2
unfolding bcd_bytes
length-bcd_bytes [] = refl
length-bcd_bytes (a ∷ []) = refl
length-bcd_bytes (a ∷ b ∷ rest) = omega (arith, length-bcd_bytes rest)

decode_odd :
    (a n : ℕ) (out : Text)
    → IsDigit a
    → decode_digits ((240 + (a - b'0')) ∷ []) n out ≡ out ++ (a ∷ [])
unfolding decode_digits
decode_odd a n out h =
    let low : (240 + (a - b'0')) % 16 ≡ a - b'0' = omega arith in
    let high : (240 + (a - b'0')) / 16 % 16 ≡ 15 = omega arith in
    let char : digit_char (a - b'0') ≡ a = omega arith in
    rw (low, high, le→leb (a - b'0') 9 (omega arith), char)

decode_pair :
    (a b n : ℕ) (rest : Bytes) (out : Text)
    → IsDigit a
    → IsDigit b
    → length out + 1 < n
    → decode_digits (((b - b'0') * 16 + (a - b'0')) ∷ rest) n out
      ≡ decode_digits rest n ((out ++ (a ∷ [])) ++ (b ∷ []))
unfolding decode_digits
decode_pair a b n rest out ha hb h =
    let low : ((b - b'0') * 16 + (a - b'0')) % 16 ≡ a - b'0' = omega arith in
    let high : ((b - b'0') * 16 + (a - b'0')) / 16 % 16 ≡ b - b'0' = omega arith in
    let char_a : digit_char (a - b'0') ≡ a = omega arith in
    let char_b : digit_char (b - b'0') ≡ b = omega arith in
    rw (
      low,
      high,
      le→leb (a - b'0') 9 (omega arith),
      le→leb (b - b'0') 9 (omega arith),
      char_a,
      char_b,
      lt→ltb (length (out ++ (a ∷ []))) n (omega (arith, length-append out (a ∷ []))),
    )

decode_digits-bytes :
    (ds : Text) (n : ℕ) (out : Text)
    → AreDigits ds
    → length out + length ds ≤ n
    → decode_digits (bcd_bytes ds) n out ≡ out ++ ds
unfolding bcd_bytes
decode_digits-bytes [] n out h fits = unfold decode_digits in rw (append-nil out)
decode_digits-bytes (a ∷ []) n out h fits = decode_odd a n out h.0
decode_digits-bytes (a ∷ b ∷ rest) n out h fits =
    decode_pair a b n (bcd_bytes rest) out h.0 h.1.0 (omega arith)
    ∙ decode_digits-bytes rest n ((out ++ (a ∷ [])) ++ (b ∷ [])) h.1.1
        (omega (arith, length-append (out ++ (a ∷ [])) (b ∷ []), length-append out (a ∷ [])))
    ∙ append_assoc (out ++ (a ∷ [])) (b ∷ []) rest
    ∙ append_assoc out (a ∷ []) (b ∷ rest)

pub decode_bcd-bytes : (ds : Text) → AreDigits ds → decode_bcd (bcd_bytes ds) (length ds) ≡ ds
unfolding decode_bcd
decode_bcd-bytes ds h =
    rw (decode_digits-bytes ds (length ds) [] h (omega arith))
      (take_all (length ds) ds (omega arith))

-- Every string of ASCII digits is encoded, in ⌈n/2⌉ octets, and decoding as many digits as it has
-- gives it back.
pub decode_bcd-encode_bcd :
    (ds : Text)
    → AreDigits ds
    → (octets : Bytes) × (encode_bcd ds ≡ ok octets)
      × (length octets ≡ (length ds + 1) / 2)
      × (decode_bcd octets (length ds) ≡ ds)
decode_bcd-encode_bcd ds h =
    (bcd_bytes ds, encode_bcd-eq-bytes ds h, length-bcd_bytes ds, decode_bcd-bytes ds h)
