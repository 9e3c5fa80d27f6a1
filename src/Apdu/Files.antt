-- ===== src/Apdu/Files.antt =====
-- The elementary files of a profile (euicc/apdu/handler.py: _read_ef and the encoders), with the IMS
-- identities of euicc/isdp.py. `encode` is Python's `str.encode()`.
use virtual_phone.Prelude.{
  ℕ, ◌+◌, ◌-◌, ◌*◌, ◌/◌, ◌%◌, ◌||◌, Option, none, some, [], ◌∷◌, ◌++◌, ◌==◌, if◌then◌else◌, length,
  replicate, get_or, Result, ok, raised, ◌>>=◌, attribute_error,
}
use virtual_phone.Sms.Gsm7.{Text}
use virtual_phone.Sms.Bcd.{digit_value, encode_bcd}
use virtual_phone.Texts.{codes, is_empty, without_pluses}
use virtual_phone.Bytes.{Bytes, byte}
use virtual_phone.Euicc.{Isdp}

-- The identities of the ISIM application; a missing one is `none`.
pub record IsimData : Type 0 where
  pub impi : Option Text
  pub impu : Option Text
  pub home_domain : Option Text

-- `value or default` for a string that may be missing.
abbrev pub set_or : Option Text → Text → Text
set_or none d = d
set_or (some []) d = d
set_or (some (c ∷ t)) d = c ∷ t

abbrev pub derived_isim : Isdp → IsimData
derived_isim p =
    let network =
      codes "ims.mnc" ++ (p.mnc ++ (codes ".mcc" ++ (p.mcc ++ codes ".3gppnetwork.org"))) in
    let domain = set_or p.home_domain network in
    record {
      impi = some (p.imsi ++ (b'@' ∷ domain));
      impu = some (codes "sip:" ++ (p.imsi ++ (b'@' ∷ domain)));
      home_domain = some domain;
    }

-- get_isim_data
unfoldable pub get_isim_data : Isdp → IsimData
get_isim_data p =
    if is_empty (set_or p.impi [])
    then derived_isim p
    else record { impi = p.impi; impu = p.impu; home_domain = p.home_domain }

abbrev pub first_digit : Text → Result ℕ
first_digit [] = ok 0
first_digit (c ∷ _) = digit_value c

abbrev pub other_digits : Text → Text
other_digits [] = []
other_digits (_ ∷ rest) = rest

-- _encode_imsi. The parts that `|` joins have no bit in common, here and below.
unfoldable pub encode_imsi : Text → Result Bytes
unfolding encode_bcd
encode_imsi imsi = do
  size ← byte ((length imsi + 1) / 2 + 1)
  first ← first_digit imsi
  rest ← encode_bcd (other_digits imsi)
  ok (size ++ ((if length imsi % 2 == 1 then 9 else 1) + first * 16) ∷ rest)

-- _nibble
abbrev pub nibble : ℕ → Result ℕ
nibble c = if (c == b'F') || (c == b'f') then ok 15 else digit_value c

-- `text.ljust(3, "F")`, at a place below 3.
abbrev pub padded_at : Text → ℕ → ℕ
padded_at text i = get_or text i b'F'

-- _encode_plmn
unfoldable pub encode_plmn : Text → Text → Result Bytes
encode_plmn mcc mnc = do
  mcc1 ← nibble (padded_at mcc 1)
  mcc0 ← nibble (padded_at mcc 0)
  mnc2 ← nibble (padded_at mnc 2)
  mcc2 ← nibble (padded_at mcc 2)
  mnc1 ← nibble (padded_at mnc 1)
  mnc0 ← nibble (padded_at mnc 0)
  ok ((mcc1 * 16 + mcc0) ∷ (mnc2 * 16 + mcc2) ∷ (mnc1 * 16 + mnc0) ∷ [])

abbrev pub type_of_number : Text → ℕ
type_of_number [] = 0x81
type_of_number (c ∷ _) = if c == b'+' then 0x91 else 0x81

-- _encode_msisdn
unfoldable pub encode_msisdn : Option Text → Result Bytes
unfolding encode_bcd without_pluses
encode_msisdn none = ok (replicate 14 0xff)
encode_msisdn (some []) = ok (replicate 14 0xff)
encode_msisdn (some (c ∷ number)) = do
  bcd ← encode_bcd (without_pluses (c ∷ number))
  size ← byte (length bcd + 1)
  ok (size ++ type_of_number (c ∷ number) ∷ bcd)

-- `spn.encode().ljust(16, b"\xff")`
abbrev pub padded_name : Bytes → Bytes
padded_name name = name ++ replicate (16 - length name) 0xff

module _ (encode : Text → Result Bytes) where
  -- `isim["..."].encode()`; None has no such attribute.
  abbrev pub encode_identity : Option Text → Result Bytes
  encode_identity none = raised attribute_error
  encode_identity (some t) = encode t

  -- _read_ef: every file is encoded, and then the one asked for is picked.
  unfoldable pub read_ef : ℕ → Isdp → Result (Option Bytes)
  unfolding encode_imsi encode_bcd encode_plmn encode_msisdn get_isim_data
  read_ef file_id p = do
    imsi ← encode_imsi p.imsi
    iccid ← encode_bcd p.iccid
    spn ← encode p.spn
    msisdn ← encode_msisdn p.msisdn
    plmn ← encode_plmn p.mcc p.mnc
    mnc_size ← byte (length p.mnc)
    impi ← encode_identity (get_isim_data p).impi
    impu ← encode_identity (get_isim_data p).impu
    domain ← encode_identity (get_isim_data p).home_domain
    ok (
        if file_id == 0x6f07
        then some imsi
        else if file_id == 0x2fe2
        then some iccid
        else if file_id == 0x6f46
        then some (padded_name spn)
        else if file_id == 0x6f40
        then some msisdn
        else if file_id == 0x6f31
        then some plmn
        else if file_id == 0x6fad
        then some (0 ∷ 0 ∷ (mnc_size ++ 0 ∷ []))
        else if file_id == 0x6f02
        then some impi
        else if file_id == 0x6f04
        then some impu
        else if file_id == 0x6f03
        then some domain
        else none)
