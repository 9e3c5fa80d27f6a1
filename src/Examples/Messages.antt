-- ===== src/Examples/Messages.antt =====
-- The message codings at concrete inputs.
use virtual_phone.Prelude.{
  ℕ, ◌≡◌, ◌≢◌, refl, Bool, true, false, Option, none, some, List, [], ◌∷◌, ◌++◌, ◌+◌, ◌-◌, ◌*◌, ◌/◌,
  ◌%◌, ◌<◌, map, length, drop, arith, Result, ok, raised, inl, inr, ltb, replicate,
}
use virtual_phone.Prelude
use virtual_phone.Bytes.{Bytes}
use virtual_phone.Sms.Gsm7.{Text, encode_gsm7, decode_gsm7}
use virtual_phone.Sms.Gsm7.RoundTrip.{kept, decode_gsm7-encode_gsm7, length-encode_gsm7}
use virtual_phone.Sms.Bcd.RoundTrip.{AreDigits}
use virtual_phone.Sms.Utf16.RoundTrip.{AreScalars, char_bytes, text_bytes}
use virtual_phone.Sms.Address.{
  SmsAddress, international, alphanumeric, read_address, address_to_bytes,
}
use virtual_phone.Sms.Address.RoundTrip.{IsNumeric}
use virtual_phone.Sms.Address.Alphanumeric.{sender, read_address-to_bytes_overrun}
use virtual_phone.Sms.Tpdu.UserData.{gsm_7bit, ucs2}
use virtual_phone.Sms.Tpdu.Submit.{SmsSubmit, submit_to_bytes, submit_from_bytes}
use virtual_phone.Sms.Tpdu.SubmitRoundTrip
use virtual_phone.Sms.Tpdu.SubmitRoundTrip.{submit_from_bytes-to_bytes_gsm}
use virtual_phone.Sms.Tpdu.Deliver.{SmsDeliver, deliver_to_bytes, deliver_from_bytes}
use virtual_phone.Sms.Tpdu.DeliverRoundTrip
use virtual_phone.Sms.Tpdu.DeliverRoundTrip.{
  deliver_from_bytes-to_bytes_gsm, deliver_from_bytes-to_bytes_ucs, decode_scts-encode_scts,
}
use virtual_phone.Sms.Relay.{RpData, RpMessageType, rp_to_bytes, rp_from_bytes}
use virtual_phone.Sms.Relay.RoundTrip.{rp_from_bytes-to_bytes}
use virtual_phone.Sms.Ril.{parse_pdu_from_ril, build_pdu_for_ril}
use virtual_phone.Sms.Ril.RoundTrip.{parse_pdu_from_ril-build}
use virtual_phone.Sms.Header.{encode_udh_concat, decode_udh_concat, find_concat}
use virtual_phone.Sms.Header.Elements.{decode_udh_concat-elements, find_concat_fuel}
use virtual_phone.Sms.Multipart.{split_multipart}
use virtual_phone.Sms.Multipart.Split.{concat}
use virtual_phone.Sms.Multipart.Parts.{AreParts, split_multipart_gsm}
use virtual_phone.Sms.Multipart.{Part, chunks, reassemble_multipart}
use virtual_phone.Sms.Multipart.Reorder.{Reordered, exchange, parts_of, reassemble_multipart-chunks}
use virtual_phone.Sms.Multipart.Lost.{submit_from_bytes-to_bytes_part}

-- "Hello{": the brace is not in the alphabet.
abbrev hello : Text
hello = 0x48 ∷ 0x65 ∷ 0x6c ∷ 0x6c ∷ 0x6f ∷ 0x7b ∷ []

hello_packed :
    encode_gsm7 (0x48 ∷ 0x65 ∷ 0x6c ∷ 0x6c ∷ 0x6f ∷ []) ≡ 0xc8 ∷ 0x32 ∷ 0x9b ∷ 0xfd ∷ 0x06 ∷ []
unfolding encode_gsm7
hello_packed = refl

decode_gsm7-encode_gsm7_example : decode_gsm7 (encode_gsm7 hello) 6 ≡ map kept hello
decode_gsm7-encode_gsm7_example = decode_gsm7-encode_gsm7 hello

length-encode_gsm7_example : length (encode_gsm7 hello) ≡ 6
length-encode_gsm7_example = length-encode_gsm7 hello

-- "15551".
abbrev digits : Text
digits = 0x31 ∷ 0x35 ∷ 0x35 ∷ 0x35 ∷ 0x31 ∷ []

digits-AreDigits : AreDigits digits
digits-AreDigits = omega arith

-- A letter of the basic plane and one beyond it.
abbrev wide : Text
wide = 0x41 ∷ 0x1f600 ∷ []

wide-AreScalars : AreScalars wide
wide-AreScalars = ((omega arith, inl (omega arith)), ((omega arith, inr (omega arith)), tt))

abbrev address : SmsAddress
address = record { number = digits; type_of_number = international; numbering_plan = 1 }

address-IsNumeric : IsNumeric address
address-IsNumeric = record {
  numeric = λ (e : international ≡ alphanumeric). cc;
  digits = digits-AreDigits;
  short = omega arith;
  plan = omega arith;
}

abbrev eight : Text
eight = 0x41 ∷ 0x42 ∷ 0x43 ∷ 0x44 ∷ 0x45 ∷ 0x46 ∷ 0x47 ∷ 0x48 ∷ []

read_address-to_bytes_overrun_example :
    (number : Text) × ((Prelude.◌>>=◌
        (address_to_bytes (sender eight))
        λ octets. read_address (octets ++ (7 ∷ 8 ∷ [])))
      ≡ ok (record (sender eight) { number = number }, 8 ∷ []))
    × (0 < 1)
read_address-to_bytes_overrun_example =
    read_address-to_bytes_overrun eight (7 ∷ 8 ∷ []) (omega arith) (omega arith)

abbrev submit : SmsSubmit
submit = record {
  message_ref = 3;
  destination = address;
  protocol_id = 0;
  dcs = gsm_7bit;
  validity_period = some 167;
  user_data = [];
  text = hello;
  reject_duplicates = false;
  status_report_request = true;
  user_data_header = false;
  reply_path = false;
}

submit-HeaderFits : SubmitRoundTrip.HeaderFits submit
submit-HeaderFits = record {
  destination = address-IsNumeric;
  reference = omega arith;
  protocol = omega arith;
  validity = λ (vp : ℕ) (e : some 167 ≡ some vp). ground arith;
}

submit_from_bytes-to_bytes_gsm_example :
    (Prelude.◌>>=◌ (submit_to_bytes submit) λ r. submit_from_bytes r.0)
    ≡ ok (record submit { user_data = encode_gsm7 hello; text = map kept hello })
submit_from_bytes-to_bytes_gsm_example =
    submit_from_bytes-to_bytes_gsm submit submit-HeaderFits refl refl (omega arith)

abbrev deliver : SmsDeliver
deliver = record {
  originator = address;
  protocol_id = 0;
  dcs = gsm_7bit;
  timestamp = 0x42 ∷ 0x10 ∷ 0x51 ∷ 0x21 ∷ 0x03 ∷ 0x00 ∷ 0x00 ∷ [];
  user_data = [];
  text = hello;
  more_messages = false;
  status_report_indication = false;
  user_data_header = false;
  reply_path = false;
}

deliver-HeaderFits : DeliverRoundTrip.HeaderFits deliver
deliver-HeaderFits = record { originator = address-IsNumeric; protocol = omega arith; scts = refl }

deliver_from_bytes-to_bytes_gsm_example :
    (Prelude.◌>>=◌ (deliver_to_bytes deliver) λ r. deliver_from_bytes r.0)
    ≡ ok (record deliver { user_data = encode_gsm7 hello; text = map kept hello })
deliver_from_bytes-to_bytes_gsm_example =
    deliver_from_bytes-to_bytes_gsm deliver deliver-HeaderFits refl refl (omega arith)

abbrev wide_deliver : SmsDeliver
wide_deliver = record deliver { dcs = ucs2; text = wide }

wide_deliver-HeaderFits : DeliverRoundTrip.HeaderFits wide_deliver
wide_deliver-HeaderFits = record {
  originator = address-IsNumeric;
  protocol = omega arith;
  scts = refl;
}

deliver_from_bytes-to_bytes_ucs_example :
    (Prelude.◌>>=◌ (deliver_to_bytes wide_deliver) λ r. deliver_from_bytes r.0)
    ≡ ok (record wide_deliver { user_data = text_bytes wide })
deliver_from_bytes-to_bytes_ucs_example =
    deliver_from_bytes-to_bytes_ucs wide_deliver wide_deliver-HeaderFits refl refl wide-AreScalars
      (unfold text_bytes char_bytes in omega arith)

abbrev relayed : RpData
relayed = record {
  msg_type = RpMessageType.rp_data_mo;
  reference = 258;
  originator = [];
  destination = 0x91 ∷ 0x51 ∷ [];
  tpdu = 1 ∷ 2 ∷ 3 ∷ [];
}

rp_from_bytes-to_bytes_example :
    (Prelude.◌>>=◌ (rp_to_bytes relayed) rp_from_bytes) ≡ ok (record relayed { reference = 2 })
rp_from_bytes-to_bytes_example = rp_from_bytes-to_bytes relayed

parse_pdu_from_ril-build_example :
    (Prelude.◌>>=◌ (build_pdu_for_ril (1 ∷ 255 ∷ []) (0x91 ∷ [])) parse_pdu_from_ril)
    ≡ ok (0x91 ∷ [], 1 ∷ 255 ∷ [])
parse_pdu_from_ril-build_example =
    parse_pdu_from_ril-build (1 ∷ 255 ∷ []) (0x91 ∷ []) (omega arith) (omega arith)

abbrev ports : List (ℕ × Bytes)
ports = (0x05, 0x0b ∷ 0x84 ∷ 0x23 ∷ 0xf0 ∷ []) ∷ []

decode_udh_concat-elements_example :
    decode_udh_concat (
      0x0b ∷ 0x05 ∷ 0x04 ∷ 0x0b ∷ 0x84 ∷ 0x23 ∷ 0xf0 ∷ 0x00 ∷ 0x03 ∷ 0x2a ∷ 0x02 ∷ 0x01 ∷ 0x48 ∷ [])
    ≡ some (0x2a, 2, 1)
decode_udh_concat-elements_example =
    decode_udh_concat-elements ports 0x2a 2 1 (0x48 ∷ [])
      (((λ (e : 5 ≡ 0). omega arith), (λ (e : 5 ≡ 8). omega arith)), tt)

find_concat_fuel_example :
    find_concat 5 5 (0x00 ∷ 0x03 ∷ 1 ∷ 2 ∷ 3 ∷ []) ≡ find_concat 9 5 (0x00 ∷ 0x03 ∷ 1 ∷ 2 ∷ 3 ∷ [])
find_concat_fuel_example =
    find_concat_fuel 5 9 5 (0x00 ∷ 0x03 ∷ 1 ∷ 2 ∷ 3 ∷ []) (omega arith) (omega arith)

abbrev long_text : Text
long_text = replicate 161 0x41

split_multipart_gsm_example :
    (ms : List SmsSubmit) × (split_multipart digits long_text gsm_7bit 0 255 ≡ ok (ms, 0))
    × (concat (map (λ m. m.text) ms) ≡ long_text)
    × (length ms ≡ 2)
    × AreParts 255 (length ms) 1 ms
split_multipart_gsm_example = split_multipart_gsm digits long_text 0 255 (omega arith)

abbrev part : SmsSubmit
part = record submit {
  user_data_header = true;
  user_data = encode_udh_concat 1 2 1 ++ encode_gsm7 hello;
}

part-HeaderFits : SubmitRoundTrip.HeaderFits part
part-HeaderFits = record {
  destination = address-IsNumeric;
  reference = omega arith;
  protocol = omega arith;
  validity = λ (vp : ℕ) (e : some 167 ≡ some vp). ground arith;
}

submit_from_bytes-to_bytes_part_example :
    (m : SmsSubmit) × ((Prelude.◌>>=◌ (submit_to_bytes part) λ r. submit_from_bytes r.0) ≡ ok m)
    × (length part.user_data ≡ length m.user_data + 6)
submit_from_bytes-to_bytes_part_example =
    submit_from_bytes-to_bytes_part part 1 2 1 part-HeaderFits refl refl (omega arith) (omega arith)

-- Two pieces that arrive in the wrong order.
abbrev swapped : List Part
swapped =
    record { number = 2; total = 2; content = 0x43 ∷ [] }
    ∷ record { number = 1; total = 2; content = 0x41 ∷ 0x42 ∷ [] }
    ∷ []

swapped-Reordered :
    let pieces = chunks 3 2 (0x41 ∷ 0x42 ∷ 0x43 ∷ []) in
    Reordered swapped (parts_of (length pieces) 1 pieces)
unfolding chunks
swapped-Reordered = exchange _ _ [] (λ (e : 2 ≡ 1). omega arith)

reassemble_multipart-chunks_example : reassemble_multipart swapped ≡ some (0x41 ∷ 0x42 ∷ 0x43 ∷ [])
reassemble_multipart-chunks_example =
    reassemble_multipart-chunks 2 (0x41 ∷ 0x42 ∷ 0x43 ∷ []) swapped (omega arith) (omega arith)
      swapped-Reordered
