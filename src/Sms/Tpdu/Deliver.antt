-- ===== src/Sms/Tpdu/Deliver.antt =====
-- SMSDeliver of ims/sms_pdu.py, and the timestamp of its TP-SCTS field. The clock is the argument
-- of `encode_scts`: the fields of `time.gmtime()`.
use virtual_phone.Prelude.{
  ℕ, ◌*◌, ◌+◌, ◌/◌, ◌%◌, Bool, true, false, not, [], ◌∷◌, ◌++◌, map, ◌==◌, ltb, if◌then◌else◌,
  length, replicate, Result, ok, ◌>>=◌,
}
use virtual_phone.Bytes.{Bytes, byte, bit_at, weigh}
use virtual_phone.Bytes.Reading
use virtual_phone.Bytes.Reading.{Reader, lift, pure, read_byte, read_slice}
use virtual_phone.Sms.Gsm7.{Text}
use virtual_phone.Sms.Address.{SmsAddress, read_address, address_to_bytes, international_address}
use virtual_phone.Sms.Tpdu.UserData.{
  DataCodingScheme, dcs_code, dcs_of_byte, read_user_data, fill_user_data, user_data_length,
}

pub record SmsDeliver : Type 0 where
  pub originator : SmsAddress
  pub protocol_id : ℕ
  pub dcs : DataCodingScheme
  pub timestamp : Bytes
  pub user_data : Bytes
  pub text : Text
  pub more_messages : Bool
  pub status_report_indication : Bool
  pub user_data_header : Bool
  pub reply_path : Bool

unfoldable pub read_deliver : Reader SmsDeliver
read_deliver = Reading.◌>>=◌ read_byte λ flags. Reading.◌>>=◌ read_address λ originator.
    Reading.◌>>=◌ read_byte λ protocol_id. Reading.◌>>=◌ read_byte λ coding.
      Reading.◌>>=◌ (lift (dcs_of_byte coding)) λ dcs. Reading.◌>>=◌ (read_slice 7) λ timestamp.
        Reading.◌>>=◌ read_byte λ udl. Reading.◌>>=◌ (read_user_data dcs udl) λ (user_data, text).
          pure (record {
            originator = originator;
            protocol_id = protocol_id;
            dcs = dcs;
            timestamp = timestamp;
            user_data = user_data;
            text = text;
            more_messages = not (bit_at 4 flags);
            status_report_indication = bit_at 32 flags;
            user_data_header = bit_at 64 flags;
            reply_path = bit_at 128 flags;
          })

-- SMSDeliver.from_bytes
unfoldable pub deliver_from_bytes : Bytes → Result SmsDeliver
unfolding read_deliver
deliver_from_bytes octets = do (m, _) ← read_deliver octets; ok m

unfoldable pub deliver_flags : SmsDeliver → ℕ
deliver_flags m =
    weigh (not m.more_messages) 0x04
    + weigh m.status_report_indication 0x20
    + weigh m.user_data_header 0x40
    + weigh m.reply_path 0x80

-- SMSDeliver.to_bytes; a timestamp of another length is written as zeros.
unfoldable pub deliver_to_bytes : SmsDeliver → Result (Bytes × SmsDeliver)
unfolding deliver_flags
deliver_to_bytes m = do
  flags ← byte (deliver_flags m)
  originator ← address_to_bytes m.originator
  pid ← byte m.protocol_id
  coding ← byte (dcs_code m.dcs)
  let scts = if length m.timestamp == 7 then m.timestamp else replicate 7 0
  user_data ← fill_user_data m.dcs m.text m.user_data
  udl ← byte (user_data_length m.dcs m.text user_data)
  ok (
    flags ++ (originator ++ (pid ++ (coding ++ (scts ++ (udl ++ user_data))))),
    record m { user_data = user_data },
  )

-- The swapped decimal digits of a part of the timestamp.
unfoldable pub swap_digits : ℕ → ℕ
swap_digits p = p % 10 * 16 + p / 10

-- encode_scts_now, with the clock read; each part is below 100, so it fits a byte.
unfoldable pub encode_scts : ℕ → ℕ → ℕ → ℕ → ℕ → ℕ → Bytes
unfolding swap_digits
encode_scts year month day hour minute second =
    map swap_digits (year % 100 ∷ month ∷ day ∷ hour ∷ minute ∷ second ∷ 0 ∷ [])

unfoldable pub scts_part : ℕ → ℕ
scts_part b = b % 16 * 10 + b / 16 % 16

-- `f"{n:02d}"` for n below 1000, and `f"{n:04d}"` for n of four digits.
unfoldable pub two_digits : ℕ → Text
two_digits n =
    if ltb n 100
    then (b'0' + n / 10) ∷ (b'0' + n % 10) ∷ []
    else (b'0' + n / 100) ∷ (b'0' + n / 10 % 10) ∷ (b'0' + n % 10) ∷ []

unfoldable pub four_digits : ℕ → Text
four_digits n =
    (b'0' + n / 1000) ∷ (b'0' + n / 100 % 10) ∷ (b'0' + n / 10 % 10) ∷ (b'0' + n % 10) ∷ []

unfoldable pub iso_time : ℕ → ℕ → ℕ → ℕ → ℕ → ℕ → Text
unfolding two_digits four_digits
iso_time year month day hour minute second =
    four_digits year
    ++ (b'-' ∷ two_digits month
        ++ (b'-' ∷ two_digits day
            ++ (b'T' ∷ two_digits hour
                ++ (b':' ∷ two_digits minute ++ (b':' ∷ two_digits second ++ (b'Z' ∷ []))))))

unfoldable pub decode_scts : Bytes → Text
unfolding scts_part iso_time
decode_scts (y ∷ mo ∷ d ∷ h ∷ mi ∷ s ∷ z ∷ _) =
    iso_time (2000 + scts_part y) (scts_part mo) (scts_part d) (scts_part h) (scts_part mi)
      (scts_part s)
decode_scts _ = []

-- SMSDeliver.create
unfoldable pub create_deliver : Text → Text → DataCodingScheme → Bytes → SmsDeliver
create_deliver from_number text dcs scts_now = record {
  originator = international_address from_number;
  protocol_id = 0;
  dcs = dcs;
  timestamp = scts_now;
  user_data = [];
  text = text;
  more_messages = true;
  status_report_indication = false;
  user_data_header = false;
  reply_path = false;
}
