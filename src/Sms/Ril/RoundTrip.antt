-- ===== src/Sms/Ril/RoundTrip.antt =====
-- parse_pdu_from_ril after build_pdu_for_ril (ims/sms_pdu.py).
use virtual_phone.Prelude.{
  ℕ, ◌*◌, ◌+◌, ◌/◌, ◌%◌, ◌<◌, ◌≡◌, refl, false, [], ◌∷◌, ◌++◌, ltb, if◌then◌else◌, length, ok,
  raised, value_error, ◌>>=◌, arith, All-append, Bool-cases, inl, inr, take-append, drop-append,
}
use virtual_phone.Bytes.{Bytes, AreBytes, IsByte}
use virtual_phone.Sms.Ril.{
  hex_char, to_hex, hex_value, is_space, from_hex, parse_pdu_from_ril, build_pdu_for_ril,
}

hex_value-char : (d : ℕ) → d < 16 → hex_value (hex_char d) ≡ ok d
unfolding hex_value
hex_value-char d h = ground arith

is_space-char : (d : ℕ) → d < 16 → is_space (hex_char d) ≡ false
unfolding is_space
is_space-char d h = ground arith

from_hex-to_hex : (octets : Bytes) → AreBytes octets → from_hex (to_hex octets) ≡ ok octets
unfolding from_hex to_hex
from_hex-to_hex [] h = refl
from_hex-to_hex (b ∷ rest) h =
    let value : b / 16 * 16 + b % 16 ≡ b = omega arith in
    rw (
      is_space-char (b / 16) (omega (arith, h.0)),
      hex_value-char (b / 16) (omega (arith, h.0)),
      hex_value-char (b % 16) (omega arith),
      from_hex-to_hex rest h.1,
      value,
    )

-- For every TPDU and every service centre field of at most 255 bytes, the hex string built for
-- the radio layer parses back into the two; a longer service centre raises ValueError.
pub parse_pdu_from_ril-build :
    (tpdu smsc : Bytes)
    → AreBytes tpdu
    → AreBytes smsc
    → (build_pdu_for_ril tpdu smsc >>= parse_pdu_from_ril)
      ≡ (if ltb (length smsc) 256 then ok (smsc, tpdu) else raised value_error)
unfolding parse_pdu_from_ril build_pdu_for_ril
parse_pdu_from_ril-build tpdu [] ht hs = rw (from_hex-to_hex (0 ∷ tpdu) (omega arith, ht))
parse_pdu_from_ril-build tpdu (b ∷ smsc) ht hs = elim (Bool-cases (ltb (length (b ∷ smsc)) 256)) [
  | inr long ↦ rw long
  | inl fits ↦ rw (
    fits,
    from_hex-to_hex (length (b ∷ smsc) ∷ ((b ∷ smsc) ++ tpdu))
        (ground arith, All-append IsByte (b ∷ smsc) tpdu hs ht),
    take-append (b ∷ smsc) tpdu,
    drop-append (b ∷ smsc) tpdu,
  )
]
