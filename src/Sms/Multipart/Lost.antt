-- ===== src/Sms/Multipart/Lost.antt =====
-- The length byte of a concatenated GSM 7-bit part (ims/sms_pdu.py), as
-- SMSSubmit.to_bytes writes it.
use virtual_phone.Prelude.{
  ℕ, ◌*◌, ◌+◌, ◌/◌, ◌<◌, ◌≡◌, refl, ap, ◌∙◌, [], ◌∷◌, ◌++◌, length, take, drop, arith, ok, ◌>>=◌,
  length-take,
}
use virtual_phone.Bytes.{Bytes}
use virtual_phone.Sms.Gsm7.{Text, encode_gsm7, decode_gsm7}
use virtual_phone.Sms.Gsm7.RoundTrip.{length-encode_gsm7}
use virtual_phone.Sms.Tpdu.UserData.{gsm_7bit, fill_user_data, user_data_length, read_user_data}
use virtual_phone.Sms.Tpdu.Submit.{SmsSubmit, submit_to_bytes, submit_from_bytes}
use virtual_phone.Sms.Tpdu.SubmitRoundTrip.{HeaderFits, submit_to_bytes-eq, submit_from_bytes-eq}
use virtual_phone.Sms.Header.{encode_udh_concat}

fill_header :
    (text : Text) (ref total part : ℕ) (rest : Bytes)
    → fill_user_data gsm_7bit text (encode_udh_concat ref total part ++ rest)
      ≡ ok (encode_udh_concat ref total part ++ rest)
unfolding fill_user_data encode_udh_concat
fill_header [] ref total part rest = refl
fill_header (c ∷ text) ref total part rest = refl

header_size :
    (ref total part : ℕ) (rest : Bytes)
    → length (encode_udh_concat ref total part ++ rest) ≡ 6 + length rest
unfolding encode_udh_concat
header_size ref total part rest = omega arith

length_given :
    (text : Text) (ud : Bytes) → 0 < length text → user_data_length gsm_7bit text ud ≡ length text
unfolding user_data_length
length_given [] ud h = elim h [ ]
length_given (c ∷ text) ud h = refl

read_given :
    (n : ℕ) (ud : Bytes)
    → read_user_data gsm_7bit n ud
      ≡ ok (
        (take ((n * 7 + 7) / 8) ud, decode_gsm7 (take ((n * 7 + 7) / 8) ud) n),
        drop ((n * 7 + 7) / 8) ud,
      )
unfolding read_user_data
read_given n ud = refl

-- For every flagged part as split_multipart makes it (the concatenation header and then the
-- packed text of 1 to 255 characters, under a header that fits), parsing the written bytes keeps
-- six octets fewer than were written: the end of the text is lost.
pub submit_from_bytes-to_bytes_part :
    (m : SmsSubmit) (ref total part : ℕ)
    → HeaderFits m
    → m.dcs ≡ gsm_7bit
    → m.user_data ≡ encode_udh_concat ref total part ++ encode_gsm7 m.text
    → 0 < length m.text
    → length m.text < 256
    → (m' : SmsSubmit) × ((submit_to_bytes m >>= λ r. submit_from_bytes r.0) ≡ ok m')
      × (length m.user_data ≡ length m'.user_data + 6)
submit_from_bytes-to_bytes_part m ref total part h dcs ud pos short =
    let n : ℕ = length m.text in
    let kept : Bytes = take ((n * 7 + 7) / 8) m.user_data in
    let packed : length (encode_gsm7 m.text) ≡ (n * 7 + 7) / 8 = length-encode_gsm7 m.text in
    let size : length m.user_data ≡ 6 + (n * 7 + 7) / 8 =
      ap length ud ∙ header_size ref total part (encode_gsm7 m.text) ∙ omega (arith, packed) in
    let fill : fill_user_data m.dcs m.text m.user_data ≡ ok m.user_data =
      rw (dcs, ud) (fill_header m.text ref total part (encode_gsm7 m.text)) in
    let len : user_data_length m.dcs m.text m.user_data ≡ n =
      rw dcs (length_given m.text m.user_data pos) in
    (
      record m { user_data = kept; text = decode_gsm7 kept n },
      rw (submit_to_bytes-eq m h m.user_data fill (omega (arith, len)), len)
          (submit_from_bytes-eq m h n m.user_data kept (drop ((n * 7 + 7) / 8) m.user_data)
            (decode_gsm7 kept n) (rw dcs (read_given n m.user_data))),
      omega (arith, size, length-take ((n * 7 + 7) / 8) m.user_data),
    )
