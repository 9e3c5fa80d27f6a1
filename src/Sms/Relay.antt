-- ===== src/Sms/Relay.antt =====
-- RPData and RPAck of ims/sms_pdu.py: the relay protocol of 3GPP TS 24.011 round a TPDU.
pub mod RoundTrip
use virtual_phone.Prelude.{
  ℕ, ◌+◌, ◌%◌, List, [], ◌∷◌, ◌++◌, ◌==◌, if◌then◌else◌, length, Result, ok, raised, value_error,
  ◌>>=◌,
}
use virtual_phone.Bytes.{Bytes, byte}
use virtual_phone.Bytes.Reading
use virtual_phone.Bytes.Reading.{Reader, lift, pure, read_byte, read_slice}
use virtual_phone.Sms.Gsm7.{Text}
use virtual_phone.Sms.Bcd.{encode_bcd}
use virtual_phone.Sms.Address.{without_plus}

pub data RpMessageType : Type 0 where
  rp_data_mo rp_data_mt rp_ack_mo rp_ack_mt rp_error_mo rp_error_mt : RpMessageType

unfoldable pub rp_code : RpMessageType → ℕ
rp_code rp_data_mo = 0x00
rp_code rp_data_mt = 0x01
rp_code rp_ack_mo = 0x02
rp_code rp_ack_mt = 0x03
rp_code rp_error_mo = 0x04
rp_code rp_error_mt = 0x05

-- `RPMessageType(value)`
unfoldable pub rp_of_code : ℕ → Result RpMessageType
rp_of_code n =
    if n == 0
    then ok rp_data_mo
    else if n == 1
    then ok rp_data_mt
    else if n == 2
    then ok rp_ack_mo
    else if n == 3
    then ok rp_ack_mt
    else if n == 4
    then ok rp_error_mo
    else if n == 5
    then ok rp_error_mt
    else raised value_error

pub record RpData : Type 0 where
  pub msg_type : RpMessageType
  pub reference : ℕ
  pub originator : Bytes
  pub destination : Bytes
  pub tpdu : Bytes

-- The service centre's address in an address field; no bytes if there is none.
unfoldable pub smsc_field : Text → Result Bytes
smsc_field [] = ok []
smsc_field (c ∷ smsc) = do
  smsc_bcd ← encode_bcd (without_plus (c ∷ smsc))
  len ← byte (length smsc_bcd + 1)
  ok (len ++ (0x91 ∷ smsc_bcd))

-- RPData.wrap_mo
unfoldable pub wrap_mo : Bytes → ℕ → Text → Result RpData
unfolding smsc_field
wrap_mo tpdu reference smsc = do
  dest ← smsc_field smsc
  ok (record {
    msg_type = rp_data_mo;
    reference = reference;
    originator = [];
    destination = dest;
    tpdu = tpdu;
  })

-- RPData.wrap_mt
unfoldable pub wrap_mt : Bytes → ℕ → Text → Result RpData
unfolding smsc_field
wrap_mt tpdu reference smsc = do
  orig ← smsc_field smsc
  ok (record {
    msg_type = rp_data_mt;
    reference = reference;
    originator = orig;
    destination = [];
    tpdu = tpdu;
  })

-- An address field: its length and its bytes, or a single zero.
abbrev pub address_field : Bytes → Result Bytes
address_field [] = ok (0 ∷ [])
address_field (b ∷ rest) = do len ← byte (length (b ∷ rest)); ok (len ++ (b ∷ rest))

-- RPData.to_bytes
unfoldable pub rp_to_bytes : RpData → Result Bytes
unfolding rp_code
rp_to_bytes r = do
  kind ← byte (rp_code r.msg_type)
  ref ← byte (r.reference % 256)
  originator ← address_field r.originator
  destination ← address_field r.destination
  len ← byte (length r.tpdu)
  ok (kind ++ (ref ++ (originator ++ (destination ++ (len ++ r.tpdu)))))

-- `data[offset]`, then that many bytes.
unfoldable pub read_field : Reader Bytes
read_field = Reading.◌>>=◌ read_byte read_slice

unfoldable pub read_rp : Reader RpData
unfolding read_field rp_of_code
read_rp = Reading.◌>>=◌ read_byte λ kind. Reading.◌>>=◌ (lift (rp_of_code kind)) λ msg_type.
    Reading.◌>>=◌ read_byte λ reference. Reading.◌>>=◌ read_field λ originator.
      Reading.◌>>=◌ read_field λ destination. Reading.◌>>=◌ read_field λ tpdu. pure (record {
        msg_type = msg_type;
        reference = reference;
        originator = originator;
        destination = destination;
        tpdu = tpdu;
      })

-- RPData.from_bytes
unfoldable pub rp_from_bytes : Bytes → Result RpData
unfolding read_rp
rp_from_bytes octets = do (r, _) ← read_rp octets; ok r

-- RPAck.to_bytes, for its message type and reference.
unfoldable pub ack_to_bytes : RpMessageType → ℕ → Bytes
unfolding rp_code
ack_to_bytes msg_type reference = rp_code msg_type ∷ reference % 256 ∷ []
