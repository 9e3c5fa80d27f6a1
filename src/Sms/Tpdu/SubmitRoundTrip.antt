-- ===== src/Sms/Tpdu/SubmitRoundTrip.antt =====
-- SMSSubmit.from_bytes after SMSSubmit.to_bytes (ims/sms_pdu.py).
use native.Mathlib.Nat.{mod-eq_of_lt}
use virtual_phone.Prelude.{
  ℕ, ◌*◌, ◌+◌, ◌/◌, ◌%◌, ◌<◌, ◌≡◌, refl, Bool, Option, none, some, [], ◌∷◌, ◌++◌, map, length, drop,
  ok, ◌>>=◌, arith, lt→ltb,
}
use virtual_phone.Bytes.{Bytes, bit_at, weigh}
use virtual_phone.Sms.Gsm7.{Text, encode_gsm7}
use virtual_phone.Sms.Gsm7.RoundTrip.{kept}
use virtual_phone.Sms.Address.RoundTrip.{
  IsNumeric, address_bytes, address_to_bytes-eq-bytes, read_address-bytes,
}
use virtual_phone.Sms.Tpdu.UserData.{
  gsm_7bit, dcs_code, dcs_of_byte-code, dcs_code-lt, read_user_data, fill_user_data,
  user_data_length, fill_user_data_gsm, user_data_length_gsm, read_user_data_gsm,
}
use virtual_phone.Sms.Tpdu.Submit.{
  SmsSubmit, read_validity, submit_from_bytes, submit_to_bytes, is_set, validity_bytes,
}

-- A destination that is a number of digits (not alphanumeric, no '+'), and header fields that fit the
-- wire.
pub record HeaderFits (m : SmsSubmit) : Type 0 where
  pub destination : IsNumeric m.destination
  pub reference : m.message_ref < 256
  pub protocol : m.protocol_id < 256
  pub validity : (vp : ℕ) → m.validity_period ≡ some vp → vp < 256

abbrev pub flags_of : Bool → Bool → Bool → Bool → Bool → ℕ
flags_of rd vp srr udh rp =
    0x01 + weigh rd 0x04 + weigh vp 0x10 + weigh srr 0x20 + weigh udh 0x40 + weigh rp 0x80

module _ (rd vp srr udh rp : Bool) where
  flags-lt : flags_of rd vp srr udh rp < 256
  flags-lt = ground arith

  flags_duplicates : bit_at 4 (flags_of rd vp srr udh rp) ≡ rd
  flags_duplicates = ground arith

  flags_validity : flags_of rd vp srr udh rp / 8 % 4 ≡ weigh vp 2
  flags_validity = ground arith

  flags_report : bit_at 32 (flags_of rd vp srr udh rp) ≡ srr
  flags_report = ground arith

  flags_header : bit_at 64 (flags_of rd vp srr udh rp) ≡ udh
  flags_header = ground arith

  flags_reply : bit_at 128 (flags_of rd vp srr udh rp) ≡ rp
  flags_reply = ground arith

abbrev pub validity_list : Option ℕ → Bytes
validity_list none = []
validity_list (some vp) = vp ∷ []

validity_bytes-eq-list :
    (v : Option ℕ) → ((vp : ℕ) → v ≡ some vp → vp < 256) → validity_bytes v ≡ ok (validity_list v)
validity_bytes-eq-list none h = refl
validity_bytes-eq-list (some vp) h = rw (lt→ltb vp 256 (h vp refl))

read_validity-list :
    (v : Option ℕ) (rest : Bytes)
    → read_validity (weigh (is_set v) 2) (validity_list v ++ rest) ≡ ok (v, rest)
unfolding read_validity
read_validity-list none rest = refl
read_validity-list (some vp) rest = refl

-- The bytes of a message, given its user data and their length.
abbrev pub submit_bytes : SmsSubmit → ℕ → Bytes → Bytes
submit_bytes m udl user_data =
    flags_of m.reject_duplicates (is_set m.validity_period) m.status_report_request
      m.user_data_header m.reply_path
    ∷ m.message_ref % 256
    ∷ (address_bytes m.destination
        ++ (m.protocol_id
            ∷ dcs_code m.dcs
            ∷ (validity_list m.validity_period ++ (udl ∷ user_data))))

module _ (m : SmsSubmit) (h : HeaderFits m) where
  pub submit_to_bytes-eq :
      (user_data : Bytes)
      → fill_user_data m.dcs m.text m.user_data ≡ ok user_data
      → user_data_length m.dcs m.text user_data < 256
      → submit_to_bytes m
        ≡ ok (
          submit_bytes m (user_data_length m.dcs m.text user_data) user_data,
          record m { user_data = user_data },
        )
  unfolding submit_to_bytes
  submit_to_bytes-eq user_data fill fits = rw (
    lt→ltb _ _ (
        flags-lt m.reject_duplicates (is_set m.validity_period) m.status_report_request
          m.user_data_header m.reply_path),
    lt→ltb (m.message_ref % 256) 256 (omega arith),
    address_to_bytes-eq-bytes m.destination h.destination,
    lt→ltb _ _ h.protocol,
    lt→ltb _ _ (dcs_code-lt m.dcs),
    validity_bytes-eq-list m.validity_period h.validity,
    fill,
    lt→ltb _ _ fits,
  )

  pub submit_from_bytes-eq :
      (udl : ℕ) (user_data user_data' left : Bytes) (text' : Text)
      → read_user_data m.dcs udl user_data ≡ ok ((user_data', text'), left)
      → submit_from_bytes (submit_bytes m udl user_data)
        ≡ ok (record m { user_data = user_data'; text = text' })
  unfolding submit_from_bytes
  submit_from_bytes-eq udl user_data user_data' left text' read =
      let rd : Bool = m.reject_duplicates in
      let vp : Bool = is_set m.validity_period in
      let srr : Bool = m.status_report_request in
      let udh : Bool = m.user_data_header in
      let rp : Bool = m.reply_path in
      rw (
        read_address-bytes m.destination
            (m.protocol_id
              ∷ dcs_code m.dcs
              ∷ (validity_list m.validity_period ++ (udl ∷ user_data)))
            h.destination,
        dcs_of_byte-code m.dcs,
        flags_validity rd vp srr udh rp,
        read_validity-list m.validity_period (udl ∷ user_data),
        read,
        flags_duplicates rd vp srr udh rp,
        flags_report rd vp srr udh rp,
        flags_header rd vp srr udh rp,
        flags_reply rd vp srr udh rp,
        mod-eq_of_lt h.reference,
      )

-- Every GSM 7-bit message of at most 255 characters with no user data set yet, to a destination of at
-- most 255 digits that is not alphanumeric and has no '+', and whose reference, protocol and validity
-- fit an octet and whose numbering plan four bits, is written, and parsing gives it back: the header
-- as it was, the user data the packed text, and the text with `?` for each character that the alphabet
-- lacks.
pub submit_from_bytes-to_bytes_gsm :
    (m : SmsSubmit)
    → HeaderFits m
    → m.dcs ≡ gsm_7bit
    → m.user_data ≡ []
    → length m.text < 256
    → (submit_to_bytes m >>= λ r. submit_from_bytes r.0)
      ≡ ok (record m { user_data = encode_gsm7 m.text; text = map kept m.text })
submit_from_bytes-to_bytes_gsm m h dcs no_data short =
    let fill : fill_user_data m.dcs m.text m.user_data ≡ ok (encode_gsm7 m.text) =
      rw (dcs, no_data) (fill_user_data_gsm m.text) in
    let len : user_data_length m.dcs m.text (encode_gsm7 m.text) ≡ length m.text =
      rw dcs (user_data_length_gsm m.text) in
    rw (submit_to_bytes-eq m h (encode_gsm7 m.text) fill (omega (arith, len)), len)
      (submit_from_bytes-eq m h (length m.text) (encode_gsm7 m.text) (encode_gsm7 m.text)
        (drop ((length m.text * 7 + 7) / 8) (encode_gsm7 m.text)) (map kept m.text)
        (rw dcs (read_user_data_gsm m.text)))
