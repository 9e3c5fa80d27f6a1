-- ===== src/Rtp.antt =====
-- ims/rtp.py: RTP packets (RFC 3550) as they are written to and parsed from the wire.
pub mod RoundTrip
pub mod Padding
pub mod Reports
use virtual_phone.Prelude.{
  ℕ, zero, suc, ◌*◌, ◌+◌, ◌-◌, ◌/◌, ◌%◌, ◌^◌, ◌<◌, ◌≤◌, ◌≡◌, refl, Bool, true, false, not, List, [],
  ◌∷◌, ◌++◌, arith, ltb, leb, ◌==◌, length, take, drop, All, if◌then◌else◌, Result, ok, raised,
  value_error, ◌>>=◌, ◌>>◌, raise_if,
}
use virtual_phone.Bytes.{Bytes, bit_at, weigh}
use virtual_phone.Bytes.Words.{pack_u8, pack_u16, pack_u32, be32, u16_of, u32_of}

abbrev pub rtp_version : ℕ
rtp_version = 2

abbrev pub pt_amr_wb : ℕ
pt_amr_wb = 96

pub record RtpPacket : Type 0 where
  pub version : ℕ
  pub padding : Bool
  pub extension : Bool
  pub csrc_count : ℕ
  pub marker : Bool
  pub payload_type : ℕ
  pub sequence_number : ℕ
  pub timestamp : ℕ
  pub ssrc : ℕ
  pub csrc_list : List ℕ
  pub payload : Bytes

-- The loop over `self.csrc_list[:self.csrc_count]`.
pub pack_csrcs : List ℕ → Result Bytes
pack_csrcs [] = ok []
pack_csrcs (csrc ∷ rest) = do
  word ← pack_u32 (csrc % 2 ^ 32)
  words ← pack_csrcs rest
  ok (word ++ words)

pub to_bytes : RtpPacket → Result Bytes
unfolding pack_csrcs
to_bytes p = do
  byte0 ← pack_u8 (p.version * 64 + weigh p.padding 32 + weigh p.extension 16 + p.csrc_count % 16)
  byte1 ← pack_u8 (weigh p.marker 128 + p.payload_type % 128)
  seq ← pack_u16 (p.sequence_number % 2 ^ 16)
  ts ← pack_u32 (p.timestamp % 2 ^ 32)
  ssrc ← pack_u32 (p.ssrc % 2 ^ 32)
  csrcs ← pack_csrcs (take p.csrc_count p.csrc_list)
  ok (byte0 ++ (byte1 ++ (seq ++ (ts ++ (ssrc ++ (csrcs ++ p.payload))))))

-- At most `n` words; the loop breaks where fewer than four bytes are left.
pub read_csrcs : ℕ → Bytes → List ℕ × Bytes
read_csrcs zero rest = ([], rest)
read_csrcs (suc n) (a ∷ b ∷ c ∷ d ∷ rest) =
    let (csrcs, after) = read_csrcs n rest in (u32_of a b c d ∷ csrcs, after)
read_csrcs (suc n) rest = ([], rest)

-- The header extension, if the flag is set and its own header is there.
pub skip_extension : Bool → Bytes → Bytes
skip_extension true (a ∷ b ∷ c ∷ d ∷ rest) = drop (u16_of c d * 4) rest
skip_extension _ rest = rest

-- `data[-1]`
pub last_byte : ℕ → Bytes → ℕ
last_byte b [] = b
last_byte b (c ∷ rest) = last_byte c rest

-- `data[offset:payload_end]`, where `size` is `len(data)` and the list is `data[offset:]`. A pad
-- length above `size` makes `payload_end` negative, which Python counts from the end.
pub strip_padding : Bool → ℕ → Bytes → Bytes
unfolding last_byte
strip_padding true size (b ∷ rest) =
    let pad_len = last_byte b rest in
    let payload_end = if leb pad_len size then size - pad_len else 2 * size - pad_len in
    take (payload_end - (size - length (b ∷ rest))) (b ∷ rest)
strip_padding _ size rest = rest

-- What follows the fixed header, whose fields are given.
pub parse_body : ℕ → ℕ → ℕ → ℕ → ℕ → Bytes → RtpPacket
unfolding read_csrcs skip_extension strip_padding
parse_body byte0 byte1 seq ts ssrc rest =
    let cc = byte0 % 16 in
    let (csrcs, after) = read_csrcs cc rest in
    record {
      version = byte0 / 64 % 4;
      padding = bit_at 32 byte0;
      extension = bit_at 16 byte0;
      csrc_count = cc;
      marker = bit_at 128 byte1;
      payload_type = byte1 % 128;
      sequence_number = seq;
      timestamp = ts;
      ssrc = ssrc;
      csrc_list = csrcs;
      payload =
          strip_padding (bit_at 32 byte0) (12 + length rest)
            (skip_extension (bit_at 16 byte0) after);
    }

-- A packet of fewer than twelve bytes, and a version other than 2, raise ValueError.
pub from_bytes : Bytes → Result RtpPacket
unfolding parse_body
from_bytes (v ∷ m ∷ s1 ∷ s0 ∷ t3 ∷ t2 ∷ t1 ∷ t0 ∷ i3 ∷ i2 ∷ i1 ∷ i0 ∷ rest) = do
  raise_if (not (v / 64 % 4 == rtp_version)) value_error
  ok (parse_body v m (u16_of s1 s0) (u32_of t3 t2 t1 t0) (u32_of i3 i2 i1 i0) rest)
from_bytes _ = raised value_error

-- `header_size`
pub header_size : RtpPacket → ℕ
header_size p = 12 + 4 * p.csrc_count
