-- ===== src/Sms/Address/RoundTrip.antt =====
-- read_address after address_to_bytes, for numbers of digits (ims/sms_pdu.py).
use native.Mathlib.Nat.{mod-eq_of_lt}
use virtual_phone.Prelude.{
  ℕ, zero, suc, ◌*◌, ◌+◌, ◌-◌, ◌/◌, ◌%◌, ◌<◌, ◌≤◌, ◌≡◌, ◌≢◌, refl, ap, ◌∙◌, sym, List, [], ◌∷◌,
  ◌++◌, ltb, leb, ◌==◌, if◌then◌else◌, length, arith, take, drop, Result, ok, lt→ltb, take-append,
  drop-append, subst,
}
use virtual_phone.Prelude
use virtual_phone.Bytes.{Bytes}
use virtual_phone.Sms.Gsm7.{Text}
use virtual_phone.Sms.Bcd.RoundTrip.{
  AreDigits, bcd_bytes, encode_bcd-eq-bytes, length-bcd_bytes, decode_bcd-bytes,
}
use virtual_phone.Sms.Address.{
  TypeOfNumber, alphanumeric, SmsAddress, ton_code, ton_of_code, type_of_address, decode_number,
  read_address, without_plus, encode_number, address_to_bytes,
}

-- A number that an address field can hold: at most 255 digits, and a plan of four bits.
pub record IsNumeric (a : SmsAddress) : Type 0 where
  pub numeric : a.type_of_number ≢ alphanumeric
  pub digits : AreDigits a.number
  pub short : length a.number < 256
  pub plan : a.numbering_plan < 16

without_plus_digits : (ds : Text) → AreDigits ds → without_plus ds ≡ ds
unfolding without_plus
without_plus_digits [] h = refl
without_plus_digits (c ∷ ds) h = ground (arith, without_plus_digits ds h.1)

-- The bytes of a numeric address.
abbrev pub address_bytes : SmsAddress → Bytes
address_bytes a = length a.number ∷ type_of_address a ∷ bcd_bytes a.number

type_of_address-lt : (a : SmsAddress) → type_of_address a < 256
unfolding type_of_address
type_of_address-lt a = ground arith

encode_number-eq-bytes :
    (t : TypeOfNumber) (ds : Text) (toa : ℕ)
    → t ≢ alphanumeric
    → AreDigits ds
    → length ds < 256
    → toa < 256
    → encode_number t ds toa ≡ ok (length ds ∷ toa ∷ bcd_bytes ds)
unfolding encode_number
encode_number-eq-bytes alphanumeric ds toa n h s l = absurd (n refl)
encode_number-eq-bytes _ ds toa n h s l =
    rw (
      without_plus_digits ds h,
      encode_bcd-eq-bytes ds h,
      lt→ltb (length ds) 256 s,
      lt→ltb toa 256 l,
    )

pub address_to_bytes-eq-bytes :
    (a : SmsAddress) → IsNumeric a → address_to_bytes a ≡ ok (address_bytes a)
unfolding address_to_bytes
address_to_bytes-eq-bytes a h =
    encode_number-eq-bytes a.type_of_number a.number (type_of_address a) h.numeric h.digits h.short
      (type_of_address-lt a)

toa_type :
    (t : TypeOfNumber) (plan : ℕ)
    → ton_of_code ((0x80 + ton_code t * 16 + plan % 16) / 16 % 8) ≡ ok t
unfolding ton_of_code ton_code
toa_type t plan = ground arith

pub read_type : (a : SmsAddress) → ton_of_code (type_of_address a / 16 % 8) ≡ ok a.type_of_number
unfolding type_of_address
read_type a = toa_type a.type_of_number a.numbering_plan

pub read_plan : (a : SmsAddress) → type_of_address a % 16 ≡ a.numbering_plan % 16
unfolding type_of_address
read_plan a = omega arith

decode_number_digits :
    (t : TypeOfNumber) (ds : Text)
    → t ≢ alphanumeric
    → AreDigits ds
    → decode_number t (bcd_bytes ds) (length ds) ≡ ds
unfolding decode_number
decode_number_digits alphanumeric ds n h = absurd (n refl)
decode_number_digits _ ds n h = decode_bcd-bytes ds h

pub read_address-bytes :
    (a : SmsAddress) (rest : Bytes)
    → IsNumeric a
    → read_address (address_bytes a ++ rest) ≡ ok (a, rest)
unfolding read_address
read_address-bytes a rest h = rw (
  read_type a,
  read_plan a,
  mod-eq_of_lt h.plan,
  ← length-bcd_bytes a.number,
  take-append (bcd_bytes a.number) rest,
  drop-append (bcd_bytes a.number) rest,
  decode_number_digits a.type_of_number a.number h.numeric h.digits,
)

-- Every numeric address is written, and reading the bytes gives it back and leaves exactly what
-- follows them.
pub read_address-to_bytes :
    (a : SmsAddress) (rest : Bytes)
    → IsNumeric a
    → (Prelude.◌>>=◌ (address_to_bytes a) λ octets. read_address (octets ++ rest)) ≡ ok (a, rest)
read_address-to_bytes a rest h = rw (address_to_bytes-eq-bytes a h) (read_address-bytes a rest h)
