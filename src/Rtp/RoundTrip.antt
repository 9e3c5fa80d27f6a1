-- ===== src/Rtp/RoundTrip.antt =====
-- RTPPacket.to_bytes then RTPPacket.from_bytes (ims/rtp.py).
use virtual_phone.Prelude.{
  ℕ, ◌*◌, ◌+◌, ◌/◌, ◌%◌, ◌^◌, ◌<◌, ◌≤◌, ◌≡◌, refl, Bool, false, List, [], ◌∷◌, ◌++◌, map, ap, ◌∙◌,
  arith, length, take, ok, ◌>>=◌, lt→ltb, length-take, subst,
}
use native.Mathlib.Nat.{mod-eq_of_lt}
use virtual_phone.Bytes.{Bytes, bit_at, weigh}
use virtual_phone.Bytes.Words.{be32, u16_of-pack, u32_of-pack}
use virtual_phone.Rtp.{
  RtpPacket, pack_csrcs, to_bytes, read_csrcs, from_bytes, skip_extension, strip_padding,
}

abbrev pub wrap32 : ℕ → ℕ
wrap32 n = n % 2 ^ 32

-- The words of a CSRC list, as they stand on the wire.
pub csrc_words : List ℕ → Bytes
csrc_words [] = []
csrc_words (csrc ∷ rest) = be32 (wrap32 csrc) ++ csrc_words rest

pub pack_csrcs-eq-words : (csrcs : List ℕ) → pack_csrcs csrcs ≡ ok (csrc_words csrcs)
unfolding pack_csrcs csrc_words
pack_csrcs-eq-words [] = refl
pack_csrcs-eq-words (csrc ∷ rest) =
    rw (lt→ltb (csrc % 2 ^ 32) (2 ^ 32) (omega arith)) (rw (pack_csrcs-eq-words rest))

pub read_csrcs-words :
    (csrcs : List ℕ) (rest : Bytes)
    → read_csrcs (length csrcs) (csrc_words csrcs ++ rest) ≡ (map wrap32 csrcs, rest)
unfolding read_csrcs csrc_words
read_csrcs-words [] rest = refl
read_csrcs-words (csrc ∷ csrcs) rest = rw (read_csrcs-words csrcs rest, u32_of-pack (csrc % 2 ^ 32))

-- The two flag bytes.
abbrev pub byte0 : Bool → Bool → ℕ → ℕ
byte0 padding extension cc = 2 * 64 + weigh padding 32 + weigh extension 16 + cc % 16

abbrev pub byte1 : Bool → ℕ → ℕ
byte1 marker pt = weigh marker 128 + pt % 128

-- The whole packet as a list, where the version is 2.
abbrev pub wire_list : RtpPacket → Bytes
wire_list p =
    byte0 p.padding p.extension p.csrc_count
    ∷ byte1 p.marker p.payload_type
    ∷ p.sequence_number % 2 ^ 16 / 256
    ∷ p.sequence_number % 2 ^ 16 % 256
    ∷ (be32 (wrap32 p.timestamp)
        ++ (be32 (wrap32 p.ssrc) ++ (csrc_words (take p.csrc_count p.csrc_list) ++ p.payload)))

byte0-lt : (padding extension : Bool) (cc : ℕ) → byte0 padding extension cc < 256
byte0-lt padding extension cc = ground arith

byte1-lt : (marker : Bool) (pt : ℕ) → byte1 marker pt < 256
byte1-lt marker pt = ground arith

pub to_bytes-eq-wire : (p : RtpPacket) → p.version ≡ 2 → to_bytes p ≡ ok (wire_list p)
unfolding to_bytes
to_bytes-eq-wire p h = rw (
  h,
  lt→ltb _ _ (byte0-lt p.padding p.extension p.csrc_count),
  lt→ltb _ _ (byte1-lt p.marker p.payload_type),
  lt→ltb (p.sequence_number % 2 ^ 16) (2 ^ 16) (omega arith),
  lt→ltb (wrap32 p.timestamp) (2 ^ 32) (omega arith),
  lt→ltb (wrap32 p.ssrc) (2 ^ 32) (omega arith),
  pack_csrcs-eq-words (take p.csrc_count p.csrc_list),
)

-- What the flag bytes say when they are read back.
byte0_version : (padding extension : Bool) (cc : ℕ) → byte0 padding extension cc / 64 % 4 ≡ 2
byte0_version padding extension cc = ground arith

byte0_count : (padding extension : Bool) (cc : ℕ) → byte0 padding extension cc % 16 ≡ cc % 16
byte0_count padding extension cc = ground arith

byte0_padding :
    (padding extension : Bool) (cc : ℕ) → bit_at 32 (byte0 padding extension cc) ≡ padding
byte0_padding padding extension cc = ground arith

byte0_extension :
    (padding extension : Bool) (cc : ℕ) → bit_at 16 (byte0 padding extension cc) ≡ extension
byte0_extension padding extension cc = ground arith

byte1_marker : (marker : Bool) (pt : ℕ) → bit_at 128 (byte1 marker pt) ≡ marker
byte1_marker marker pt = ground arith

byte1_type : (marker : Bool) (pt : ℕ) → byte1 marker pt % 128 ≡ pt % 128
byte1_type marker pt = ground arith

-- A packet whose CSRC count is honest: it fits the field, and the list holds as many.
abbrev pub HonestCount : RtpPacket → Type 0
HonestCount p = (p.csrc_count < 16) × (p.csrc_count ≤ length p.csrc_list)

-- What the wire keeps of a packet: every field cut to its width, and the payload given.
abbrev pub on_wire : RtpPacket → Bytes → RtpPacket
on_wire p payload = record p {
  payload_type = p.payload_type % 128;
  sequence_number = p.sequence_number % 2 ^ 16;
  timestamp = wrap32 p.timestamp;
  ssrc = wrap32 p.ssrc;
  csrc_list = map wrap32 (take p.csrc_count p.csrc_list);
  payload = payload;
}

length-take_csrcs : (n : ℕ) (csrcs : List ℕ) → n ≤ length csrcs → length (take n csrcs) ≡ n
length-take_csrcs n csrcs h = omega (arith, length-take {0} n csrcs)

read_csrcs-take :
    (n : ℕ) (csrcs : List ℕ) (rest : Bytes)
    → n ≤ length csrcs
    → read_csrcs n (csrc_words (take n csrcs) ++ rest) ≡ (map wrap32 (take n csrcs), rest)
read_csrcs-take n csrcs rest h =
    subst
      (λ k. read_csrcs k (csrc_words (take n csrcs) ++ rest) ≡ (map wrap32 (take n csrcs), rest))
      (length-take_csrcs n csrcs h) (read_csrcs-words (take n csrcs) rest)

-- Parsing a packet that was written: every field, and the payload as the padding rule cuts it.
pub from_bytes-wire :
    (p : RtpPacket)
    → p.version ≡ 2
    → HonestCount p
    → from_bytes (wire_list p)
      ≡ ok (
          on_wire p (
            strip_padding p.padding
              (12 + length (csrc_words (take p.csrc_count p.csrc_list) ++ p.payload))
              (skip_extension p.extension p.payload)))
unfolding from_bytes
from_bytes-wire p v h = rw (
  byte0_version p.padding p.extension p.csrc_count,
  byte0_count p.padding p.extension p.csrc_count,
  byte0_padding p.padding p.extension p.csrc_count,
  byte0_extension p.padding p.extension p.csrc_count,
  byte1_marker p.marker p.payload_type,
  byte1_type p.marker p.payload_type,
  mod-eq_of_lt h.0,
  read_csrcs-take p.csrc_count p.csrc_list p.payload h.1,
  u16_of-pack (p.sequence_number % 2 ^ 16),
  u32_of-pack (wrap32 p.timestamp),
  u32_of-pack (wrap32 p.ssrc),
  v,
)

-- For every packet of version 2 with an honest CSRC count and neither padding nor an extension,
-- parsing the written bytes gives the packet back, each field cut to its width on the wire
-- (7-bit type, 16-bit sequence number, 32-bit timestamp and sources), with the payload unchanged.
pub from_bytes-to_bytes :
    (p : RtpPacket)
    → p.version ≡ 2
    → HonestCount p
    → p.padding ≡ false
    → p.extension ≡ false
    → (to_bytes p >>= from_bytes) ≡ ok (on_wire p p.payload)
unfolding strip_padding skip_extension
from_bytes-to_bytes p v h np ne =
    rw (to_bytes-eq-wire p v) (from_bytes-wire p v h ∙ ap (λ x. ok (on_wire p x)) (rw (np, ne)))
