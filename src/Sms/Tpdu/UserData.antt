-- ===== src/Sms/Tpdu/UserData.antt =====
-- What SMSSubmit and SMSDeliver (ims/sms_pdu.py) share: the coding scheme, and user data with its
-- length and its text.

use virtual_phone.Prelude.{
  ℕ, ◌*◌, ◌+◌, ◌/◌, ◌%◌, ◌≡◌, refl, [], ◌∷◌, ◌==◌, if◌then◌else◌, length, map, Result, ok, raised,
  value_error, arith, take_all, drop, ◌<◌,
}
use virtual_phone.Bytes.{Bytes}
use virtual_phone.Bytes.Reading.{Reader, ◌>>=◌, pure, read_slice}
use virtual_phone.Sms.Gsm7.{Text, encode_gsm7, decode_gsm7}
use virtual_phone.Sms.Gsm7.RoundTrip.{kept, decode_gsm7-encode_gsm7, length-encode_gsm7}
use virtual_phone.Sms.Utf16.{encode_utf16, decode_utf16}
use virtual_phone.Sms.Utf16.RoundTrip.{
  AreScalars, text_bytes, encode_utf16-eq-bytes, decode-text_bytes,
}

pub data DataCodingScheme : Type 0 where
  gsm_7bit ucs2 eight_bit : DataCodingScheme

unfoldable pub dcs_code : DataCodingScheme → ℕ
dcs_code gsm_7bit = 0x00
dcs_code ucs2 = 0x08
dcs_code eight_bit = 0x04

-- `DataCodingScheme(b & 0x0C)`
unfoldable pub dcs_of_byte : ℕ → Result DataCodingScheme
dcs_of_byte b =
    let masked = b / 4 % 4 * 4 in
    if masked == 0x00
    then ok gsm_7bit
    else if masked == 0x08
    then ok ucs2
    else if masked == 0x04
    then ok eight_bit
    else raised value_error

pub dcs_of_byte-code : (dcs : DataCodingScheme) → dcs_of_byte (dcs_code dcs) ≡ ok dcs
unfolding dcs_of_byte dcs_code
dcs_of_byte-code gsm_7bit = refl
dcs_of_byte-code ucs2 = refl
dcs_of_byte-code eight_bit = refl

pub dcs_code-lt : (dcs : DataCodingScheme) → dcs_code dcs < 256
unfolding dcs_code
dcs_code-lt dcs = ground arith

-- The end of `from_bytes`: the user data of length `udl` and its text, which stays empty for
-- 8-bit data.
unfoldable pub read_user_data : DataCodingScheme → ℕ → Reader (Bytes × Text)
read_user_data ucs2 udl = do user_data ← read_slice udl; pure (user_data, decode_utf16 user_data)
read_user_data gsm_7bit udl = do
  user_data ← read_slice ((udl * 7 + 7) / 8)
  pure (user_data, decode_gsm7 user_data udl)
read_user_data eight_bit udl = do user_data ← read_slice udl; pure (user_data, [])

-- `if self.text and not self.user_data: self.user_data = ...`
unfoldable pub fill_user_data : DataCodingScheme → Text → Bytes → Result Bytes
fill_user_data ucs2 (c ∷ text) [] = encode_utf16 (c ∷ text)
fill_user_data gsm_7bit (c ∷ text) [] = ok (encode_gsm7 (c ∷ text))
fill_user_data _ _ user_data = ok user_data

-- TP-UDL
unfoldable pub user_data_length : DataCodingScheme → Text → Bytes → ℕ
user_data_length gsm_7bit [] user_data = length user_data * 8 / 7
user_data_length gsm_7bit (c ∷ text) user_data = length (c ∷ text)
user_data_length _ text user_data = length user_data

-- GSM 7-bit text with no data given: the text packed, its length in septets.
pub fill_user_data_gsm : (text : Text) → fill_user_data gsm_7bit text [] ≡ ok (encode_gsm7 text)
unfolding fill_user_data
fill_user_data_gsm [] = unfold encode_gsm7 in refl
fill_user_data_gsm (c ∷ text) = refl

pub user_data_length_gsm :
    (text : Text) → user_data_length gsm_7bit text (encode_gsm7 text) ≡ length text
unfolding user_data_length
user_data_length_gsm [] = unfold encode_gsm7 in refl
user_data_length_gsm (c ∷ text) = refl

pub read_user_data_gsm :
    (text : Text)
    → read_user_data gsm_7bit (length text) (encode_gsm7 text)
      ≡ ok ((encode_gsm7 text, map kept text), drop ((length text * 7 + 7) / 8) (encode_gsm7 text))
unfolding read_user_data
read_user_data_gsm text =
    let len : length (encode_gsm7 text) ≡ (length text * 7 + 7) / 8 = length-encode_gsm7 text in
    rw (
      take_all ((length text * 7 + 7) / 8) (encode_gsm7 text) (omega (arith, len)),
      decode_gsm7-encode_gsm7 text,
    )

-- UCS-2 text with no data given: its UTF-16 bytes.
pub fill_user_data_ucs :
    (text : Text) → AreScalars text → fill_user_data ucs2 text [] ≡ ok (text_bytes text)
unfolding fill_user_data
fill_user_data_ucs [] h = unfold text_bytes in refl
fill_user_data_ucs (c ∷ text) h = encode_utf16-eq-bytes (c ∷ text) h

pub user_data_length_ucs :
    (text : Text) (octets : Bytes) → user_data_length ucs2 text octets ≡ length octets
unfolding user_data_length
user_data_length_ucs text octets = refl

pub read_user_data_ucs :
    (text : Text)
    → AreScalars text
    → read_user_data ucs2 (length (text_bytes text)) (text_bytes text)
      ≡ ok ((text_bytes text, text), drop (length (text_bytes text)) (text_bytes text))
unfolding read_user_data
read_user_data_ucs text h =
    rw (
      take_all (length (text_bytes text)) (text_bytes text) (omega arith),
      decode-text_bytes text h,
    )
