-- ===== src/Sms/Address/Alphanumeric.antt =====
-- The length field and the packing of alphanumeric addresses (ims/sms_pdu.py).
use virtual_phone.Prelude.{
  ℕ, zero, suc, ◌*◌, ◌+◌, ◌-◌, ◌/◌, ◌%◌, ◌<◌, ◌≤◌, ◌≡◌, refl, ap, ◌∙◌, sym, List, [], ◌∷◌, ◌++◌,
  length, arith, take, drop, Result, ok, lt→ltb, ltb, ◌==◌, if◌then◌else◌,
}
use virtual_phone.Prelude
use virtual_phone.Bytes.{Bytes}
use virtual_phone.Bytes.Reading.{drop-append_past}
use virtual_phone.Sms.Gsm7.{Text, encode_gsm7}
use virtual_phone.Sms.Gsm7.RoundTrip.{length-encode_gsm7}
use virtual_phone.Sms.Address.{
  alphanumeric, SmsAddress, read_address, address_to_bytes, decode_number,
}

abbrev pub sender : Text → SmsAddress
sender name = record { number = name; type_of_number = alphanumeric; numbering_plan = 0 }

half_of_double : (n : ℕ) → (n * 2 + 1) / 2 ≡ n
half_of_double n = omega arith

-- For every alphanumeric name of 8 to 127 characters, reading the address that was written
-- swallows bytes of what follows it: it takes one octet for each character, where the packing
-- wrote seven for each eight.
pub read_address-to_bytes_overrun :
    (name : Text) (rest : Bytes)
    → 8 ≤ length name
    → length name < 128
    → (number : Text) × ((Prelude.◌>>=◌
          (address_to_bytes (sender name))
          λ octets. read_address (octets ++ rest))
        ≡ ok (
          record (sender name) { number = number },
          drop (length name - (length name * 7 + 7) / 8) rest,
        ))
      × (0 < length name - (length name * 7 + 7) / 8)
unfolding address_to_bytes read_address
read_address-to_bytes_overrun name rest long short =
    let n : ℕ = length name in
    let packed : Bytes = encode_gsm7 name in
    let len : length packed ≡ (n * 7 + 7) / 8 = length-encode_gsm7 name in
    (
      decode_number alphanumeric (take n (packed ++ rest)) (n * 2),
      rw (
        lt→ltb (n * 2) 256 (omega arith),
        half_of_double n,
        drop-append_past n packed rest (omega (arith, len)),
        len,
      ),
      omega arith,
    )
