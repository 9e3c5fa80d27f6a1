-- ===== src/Sms/Tpdu/Submit.antt =====
-- SMSSubmit of ims/sms_pdu.py. Writing fills the field `user_data`, so it returns the message too.
use virtual_phone.Prelude.{
  ℕ, ◌+◌, ◌/◌, ◌%◌, Bool, true, false, Option, none, some, [], ◌++◌, ◌==◌, if◌then◌else◌, Result,
  ok, ◌>>=◌,
}
use virtual_phone.Bytes.{Bytes, byte, bit_at, weigh}
use virtual_phone.Bytes.Reading
use virtual_phone.Bytes.Reading.{Reader, lift, pure, read_byte, read_slice}
use virtual_phone.Sms.Gsm7.{Text}
use virtual_phone.Sms.Address.{SmsAddress, read_address, address_to_bytes, international_address}
use virtual_phone.Sms.Tpdu.UserData.{
  DataCodingScheme, dcs_code, dcs_of_byte, read_user_data, fill_user_data, user_data_length,
}

pub record SmsSubmit : Type 0 where
  pub message_ref : ℕ
  pub destination : SmsAddress
  pub protocol_id : ℕ
  pub dcs : DataCodingScheme
  pub validity_period : Option ℕ
  pub user_data : Bytes
  pub text : Text
  pub reject_duplicates : Bool
  pub status_report_request : Bool
  pub user_data_header : Bool
  pub reply_path : Bool

-- TP-VP, by the two format bits: one byte if relative, seven that are skipped otherwise.
unfoldable pub read_validity : ℕ → Reader (Option ℕ)
read_validity vpf rest =
    let relative = Reading.◌>>=◌ read_byte (λ vp. pure (some vp)) rest in
    let skipped = Reading.◌>>=◌ (read_slice 7) (λ _. pure none) rest in
    if vpf == 2
    then relative
    else if vpf == 3
    then skipped
    else if vpf == 1
    then skipped
    else ok (none, rest)

unfoldable pub read_submit : Reader SmsSubmit
unfolding read_validity
read_submit = Reading.◌>>=◌ read_byte λ flags. Reading.◌>>=◌ read_byte λ message_ref.
    Reading.◌>>=◌ read_address λ destination. Reading.◌>>=◌ read_byte λ protocol_id.
      Reading.◌>>=◌ read_byte λ coding. Reading.◌>>=◌ (lift (dcs_of_byte coding)) λ dcs.
        Reading.◌>>=◌ (read_validity (flags / 8 % 4)) λ validity_period.
          Reading.◌>>=◌ read_byte λ udl. Reading.◌>>=◌ (read_user_data dcs udl) λ (user_data, text).
            pure (record {
              message_ref = message_ref;
              destination = destination;
              protocol_id = protocol_id;
              dcs = dcs;
              validity_period = validity_period;
              user_data = user_data;
              text = text;
              reject_duplicates = bit_at 4 flags;
              status_report_request = bit_at 32 flags;
              user_data_header = bit_at 64 flags;
              reply_path = bit_at 128 flags;
            })

-- SMSSubmit.from_bytes
unfoldable pub submit_from_bytes : Bytes → Result SmsSubmit
unfolding read_submit
submit_from_bytes octets = do (m, _) ← read_submit octets; ok m

abbrev pub is_set {ℓ} : {A : Type ℓ} → Option A → Bool
is_set none = false
is_set (some _) = true

unfoldable pub submit_flags : SmsSubmit → ℕ
submit_flags m =
    0x01
    + weigh m.reject_duplicates 0x04
    + weigh (is_set m.validity_period) 0x10
    + weigh m.status_report_request 0x20
    + weigh m.user_data_header 0x40
    + weigh m.reply_path 0x80

abbrev pub validity_bytes : Option ℕ → Result Bytes
validity_bytes none = ok []
validity_bytes (some vp) = byte vp

-- SMSSubmit.to_bytes
unfoldable pub submit_to_bytes : SmsSubmit → Result (Bytes × SmsSubmit)
unfolding submit_flags
submit_to_bytes m = do
  flags ← byte (submit_flags m)
  ref ← byte (m.message_ref % 256)
  destination ← address_to_bytes m.destination
  pid ← byte m.protocol_id
  coding ← byte (dcs_code m.dcs)
  validity ← validity_bytes m.validity_period
  user_data ← fill_user_data m.dcs m.text m.user_data
  udl ← byte (user_data_length m.dcs m.text user_data)
  ok (
    flags ++ (ref ++ (destination ++ (pid ++ (coding ++ (validity ++ (udl ++ user_data)))))),
    record m { user_data = user_data },
  )

-- SMSSubmit.create
unfoldable pub create_submit : Text → Text → DataCodingScheme → ℕ → SmsSubmit
create_submit dest_number text dcs msg_ref = record {
  message_ref = msg_ref;
  destination = international_address dest_number;
  protocol_id = 0;
  dcs = dcs;
  validity_period = none;
  user_data = [];
  text = text;
  reject_duplicates = false;
  status_report_request = false;
  user_data_header = false;
  reply_path = false;
}
