-- ===== src/Sms/Tpdu/DeliverRoundTrip.antt =====
-- SMSDeliver.from_bytes after SMSDeliver.to_bytes, and the timestamp (ims/sms_pdu.py).
use virtual_phone.Prelude.{
  ℕ, ◌*◌, ◌+◌, ◌/◌, ◌%◌, ◌<◌, ◌≡◌, Bool, not, [], ◌∷◌, ◌++◌, map, length, drop, ok, ◌>>=◌, arith,
  lt→ltb, take-append, drop-append,
}
use virtual_phone.Bytes.{Bytes, bit_at, weigh}
use virtual_phone.Sms.Gsm7.{Text, encode_gsm7}
use virtual_phone.Sms.Gsm7.RoundTrip.{kept}
use virtual_phone.Sms.Address.RoundTrip.{
  IsNumeric, address_bytes, address_to_bytes-eq-bytes, read_address-bytes,
}
use virtual_phone.Sms.Utf16.RoundTrip.{AreScalars, text_bytes}
use virtual_phone.Sms.Tpdu.UserData.{
  gsm_7bit, ucs2, dcs_code, dcs_code-lt, dcs_of_byte-code, read_user_data, fill_user_data,
  user_data_length, fill_user_data_gsm, user_data_length_gsm, read_user_data_gsm,
  fill_user_data_ucs, user_data_length_ucs, read_user_data_ucs,
}
use virtual_phone.Sms.Tpdu.Deliver.{
  SmsDeliver, deliver_from_bytes, deliver_to_bytes, swap_digits, encode_scts, scts_part,
  decode_scts, iso_time,
}

-- An originator that is a number of digits (not alphanumeric, no '+'), a protocol of one octet and a
-- timestamp of seven.
pub record HeaderFits (m : SmsDeliver) : Type 0 where
  pub originator : IsNumeric m.originator
  pub protocol : m.protocol_id < 256
  pub scts : length m.timestamp ≡ 7

abbrev flags_of : Bool → Bool → Bool → Bool → ℕ
flags_of more sri udh rp = weigh (not more) 0x04 + weigh sri 0x20 + weigh udh 0x40 + weigh rp 0x80

module _ (more sri udh rp : Bool) where
  flags-lt : flags_of more sri udh rp < 256
  flags-lt = ground arith

  flags_more : not (bit_at 4 (flags_of more sri udh rp)) ≡ more
  flags_more = ground arith

  flags_report : bit_at 32 (flags_of more sri udh rp) ≡ sri
  flags_report = ground arith

  flags_header : bit_at 64 (flags_of more sri udh rp) ≡ udh
  flags_header = ground arith

  flags_reply : bit_at 128 (flags_of more sri udh rp) ≡ rp
  flags_reply = ground arith

abbrev deliver_bytes : SmsDeliver → ℕ → Bytes → Bytes
deliver_bytes m udl user_data =
    flags_of m.more_messages m.status_report_indication m.user_data_header m.reply_path
    ∷ (address_bytes m.originator
        ++ (m.protocol_id ∷ dcs_code m.dcs ∷ (m.timestamp ++ (udl ∷ user_data))))

module _ (m : SmsDeliver) (h : HeaderFits m) where
  deliver_to_bytes-eq :
      (user_data : Bytes)
      → fill_user_data m.dcs m.text m.user_data ≡ ok user_data
      → user_data_length m.dcs m.text user_data < 256
      → deliver_to_bytes m
        ≡ ok (
          deliver_bytes m (user_data_length m.dcs m.text user_data) user_data,
          record m { user_data = user_data },
        )
  unfolding deliver_to_bytes
  deliver_to_bytes-eq user_data fill fits = rw (
    lt→ltb _ _
        (flags-lt m.more_messages m.status_report_indication m.user_data_header m.reply_path),
    address_to_bytes-eq-bytes m.originator h.originator,
    lt→ltb _ _ h.protocol,
    lt→ltb _ _ (dcs_code-lt m.dcs),
    fill,
    lt→ltb _ _ fits,
    h.scts,
  )

  deliver_from_bytes-eq :
      (udl : ℕ) (user_data user_data' left : Bytes) (text' : Text)
      → read_user_data m.dcs udl user_data ≡ ok ((user_data', text'), left)
      → deliver_from_bytes (deliver_bytes m udl user_data)
        ≡ ok (record m { user_data = user_data'; text = text' })
  unfolding deliver_from_bytes
  deliver_from_bytes-eq udl user_data user_data' left text' read =
      let more : Bool = m.more_messages in
      let sri : Bool = m.status_report_indication in
      let udh : Bool = m.user_data_header in
      let rp : Bool = m.reply_path in
      rw (
        read_address-bytes m.originator
            (m.protocol_id ∷ dcs_code m.dcs ∷ (m.timestamp ++ (udl ∷ user_data))) h.originator,
        dcs_of_byte-code m.dcs,
        ← h.scts,
        take-append m.timestamp (udl ∷ user_data),
        drop-append m.timestamp (udl ∷ user_data),
        read,
        flags_more more sri udh rp,
        flags_report more sri udh rp,
        flags_header more sri udh rp,
        flags_reply more sri udh rp,
      )

-- Every GSM 7-bit message of at most 255 characters with no user data set yet, from an originator of
-- at most 255 digits that is not alphanumeric and has no '+', with a numbering plan of four bits, a
-- protocol of one octet and a timestamp of seven, is written, and parsing gives it back: the user data
-- is the packed text, and the text has `?` for each character that the alphabet lacks.
pub deliver_from_bytes-to_bytes_gsm :
    (m : SmsDeliver)
    → HeaderFits m
    → m.dcs ≡ gsm_7bit
    → m.user_data ≡ []
    → length m.text < 256
    → (deliver_to_bytes m >>= λ r. deliver_from_bytes r.0)
      ≡ ok (record m { user_data = encode_gsm7 m.text; text = map kept m.text })
deliver_from_bytes-to_bytes_gsm m h dcs no_data short =
    let fill : fill_user_data m.dcs m.text m.user_data ≡ ok (encode_gsm7 m.text) =
      rw (dcs, no_data) (fill_user_data_gsm m.text) in
    let len : user_data_length m.dcs m.text (encode_gsm7 m.text) ≡ length m.text =
      rw dcs (user_data_length_gsm m.text) in
    rw (deliver_to_bytes-eq m h (encode_gsm7 m.text) fill (omega (arith, len)), len)
      (deliver_from_bytes-eq m h (length m.text) (encode_gsm7 m.text) (encode_gsm7 m.text)
        (drop ((length m.text * 7 + 7) / 8) (encode_gsm7 m.text)) (map kept m.text)
        (rw dcs (read_user_data_gsm m.text)))

-- Every UCS-2 message of Unicode scalar values that takes at most 255 octets, with no user data set
-- yet, from an originator of at most 255 digits that is not alphanumeric and has no '+', with a
-- numbering plan of four bits, a protocol of one octet and a timestamp of seven, is written, and
-- parsing gives it back with its text unchanged and the UTF-16 bytes as its user data.
pub deliver_from_bytes-to_bytes_ucs :
    (m : SmsDeliver)
    → HeaderFits m
    → m.dcs ≡ ucs2
    → m.user_data ≡ []
    → AreScalars m.text
    → length (text_bytes m.text) < 256
    → (deliver_to_bytes m >>= λ r. deliver_from_bytes r.0)
      ≡ ok (record m { user_data = text_bytes m.text })
deliver_from_bytes-to_bytes_ucs m h dcs no_data scalars short =
    let octets : Bytes = text_bytes m.text in
    let fill : fill_user_data m.dcs m.text m.user_data ≡ ok octets =
      rw (dcs, no_data) (fill_user_data_ucs m.text scalars) in
    let len : user_data_length m.dcs m.text octets ≡ length octets =
      rw dcs (user_data_length_ucs m.text octets) in
    rw (deliver_to_bytes-eq m h octets fill (omega (arith, len)), len)
      (deliver_from_bytes-eq m h (length octets) octets octets (drop (length octets) octets) m.text
        (rw dcs (read_user_data_ucs m.text scalars)))

part-swap : (p : ℕ) → p < 100 → scts_part (swap_digits p) ≡ p
unfolding scts_part swap_digits
part-swap p h = omega arith

-- A timestamp whose parts are below 100 is decoded to the time that was encoded, in the century
-- of the year 2000.
pub decode_scts-encode_scts :
    (year month day hour minute second : ℕ)
    → month < 100
    → day < 100
    → hour < 100
    → minute < 100
    → second < 100
    → decode_scts (encode_scts year month day hour minute second)
      ≡ iso_time (2000 + year % 100) month day hour minute second
unfolding decode_scts encode_scts
decode_scts-encode_scts year month day hour minute second mo d h mi s = rw (
  part-swap (year % 100) (omega arith),
  part-swap month mo,
  part-swap day d,
  part-swap hour h,
  part-swap minute mi,
  part-swap second s,
)
