-- ===== src/Sms/Address.antt =====
-- SMSAddress of ims/sms_pdu.py: a number, its type and its numbering plan.
pub mod RoundTrip
pub mod Alphanumeric
use virtual_phone.Prelude.{
  ℕ, ◌*◌, ◌+◌, ◌/◌, ◌%◌, List, [], ◌∷◌, ◌++◌, ◌==◌, if◌then◌else◌, length, Result, ok, raised,
  value_error,
}
use virtual_phone.Prelude
use virtual_phone.Bytes.{Bytes, byte}
use virtual_phone.Bytes.Reading.{Reader, ◌>>=◌, lift, pure, read_byte, read_slice}
use virtual_phone.Sms.Gsm7.{Text, encode_gsm7, decode_gsm7}
use virtual_phone.Sms.Bcd.{encode_bcd, decode_bcd}

pub data TypeOfNumber : Type 0 where
  unknown international national network_specific subscriber alphanumeric abbreviated : TypeOfNumber

-- The value of the enumeration, and `TypeOfNumber(value)`, which knows no 7.
unfoldable pub ton_code : TypeOfNumber → ℕ
ton_code unknown = 0
ton_code international = 1
ton_code national = 2
ton_code network_specific = 3
ton_code subscriber = 4
ton_code alphanumeric = 5
ton_code abbreviated = 6

unfoldable pub ton_of_code : ℕ → Result TypeOfNumber
ton_of_code n =
    if n == 0
    then ok unknown
    else if n == 1
    then ok international
    else if n == 2
    then ok national
    else if n == 3
    then ok network_specific
    else if n == 4
    then ok subscriber
    else if n == 5
    then ok alphanumeric
    else if n == 6
    then ok abbreviated
    else raised value_error

pub record SmsAddress : Type 0 where
  pub number : Text
  pub type_of_number : TypeOfNumber
  pub numbering_plan : ℕ

-- The property `type_of_address`; the three fields of the byte do not overlap.
unfoldable pub type_of_address : SmsAddress → ℕ
unfolding ton_code
type_of_address a = 0x80 + ton_code a.type_of_number * 16 + a.numbering_plan % 16

-- The digits of an address field, by its type of number.
unfoldable pub decode_number : TypeOfNumber → Bytes → ℕ → Text
decode_number alphanumeric octets addr_len = decode_gsm7 octets (addr_len * 4 / 7)
decode_number _ octets addr_len = decode_bcd octets addr_len

-- SMSAddress.from_bytes
unfoldable pub read_address : Reader SmsAddress
unfolding ton_of_code decode_number
read_address = do
  addr_len ← read_byte
  toa ← read_byte
  ton ← lift (ton_of_code (toa / 16 % 8))
  bcd_bytes ← read_slice ((addr_len + 1) / 2)
  pure (record {
    number = decode_number ton bcd_bytes addr_len;
    type_of_number = ton;
    numbering_plan = toa % 16;
  })

-- `s.replace("+", "")`
unfoldable pub without_plus : Text → Text
without_plus [] = []
without_plus (c ∷ rest) = let others = without_plus rest in if c == b'+' then others else c ∷ others

-- `s.lstrip("+")`
unfoldable pub lstrip_plus : Text → Text
lstrip_plus [] = []
lstrip_plus (c ∷ rest) = let stripped = lstrip_plus rest in if c == b'+' then stripped else c ∷ rest

-- `bytes([addr_len, toa]) + encoded`
unfoldable pub with_header : ℕ → ℕ → Bytes → Result Bytes
with_header addr_len toa encoded =
    Prelude.◌>>=◌ (byte addr_len) λ b0. Prelude.◌>>=◌ (byte toa) λ b1. ok (b0 ++ (b1 ++ encoded))

-- The body of SMSAddress.to_bytes, by the type of number.
unfoldable pub encode_number : TypeOfNumber → Text → ℕ → Result Bytes
unfolding with_header without_plus
encode_number alphanumeric number toa = with_header (length number * 2) toa (encode_gsm7 number)
encode_number _ number toa =
    let digits = without_plus number in
    Prelude.◌>>=◌ (encode_bcd digits) λ bcd. with_header (length digits) toa bcd

unfoldable pub address_to_bytes : SmsAddress → Result Bytes
unfolding encode_number type_of_address
address_to_bytes a = encode_number a.type_of_number a.number (type_of_address a)

-- SMSAddress.international
unfoldable pub international_address : Text → SmsAddress
unfolding lstrip_plus
international_address number = record {
  number = lstrip_plus number;
  type_of_number = international;
  numbering_plan = 1;
}
