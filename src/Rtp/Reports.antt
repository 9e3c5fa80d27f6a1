-- ===== src/Rtp/Reports.antt =====
-- RTCPSenderReport and RTCPReceiverReport of ims/rtp.py. The counters of a report are packed as
-- they are, so a value beyond its word raises struct.error.
use virtual_phone.Prelude.{
  ℕ, ◌*◌, ◌+◌, ◌-◌, ◌/◌, ◌%◌, ◌^◌, ◌<◌, ◌≡◌, ◌∷◌, ◌++◌, arith, length, Result, ok, raised,
  value_error, ◌>>=◌, lt→ltb,
}
use virtual_phone.Bytes.{Bytes}
use virtual_phone.Bytes.Words.{pack_u8, pack_u16, pack_u32, u32_of, u32_of-pack}

pub record SenderReport : Type 0 where
  pub ssrc : ℕ
  pub ntp_timestamp_msw : ℕ
  pub ntp_timestamp_lsw : ℕ
  pub rtp_timestamp : ℕ
  pub sender_packet_count : ℕ
  pub sender_octet_count : ℕ

-- `struct.pack("!IIIII", ...)`
abbrev pub pack_words : ℕ → ℕ → ℕ → ℕ → ℕ → Result Bytes
pack_words a b c d e = do
  wa ← pack_u32 a
  wb ← pack_u32 b
  wc ← pack_u32 c
  wd ← pack_u32 d
  we ← pack_u32 e
  ok (wa ++ (wb ++ (wc ++ (wd ++ we))))

-- `struct.pack("!BBHI", first, kind, length, ssrc)`
abbrev pub pack_header : ℕ → ℕ → ℕ → ℕ → Result Bytes
pack_header first kind len ssrc = do
  b0 ← pack_u8 first
  b1 ← pack_u8 kind
  words ← pack_u16 len
  source ← pack_u32 ssrc
  ok (b0 ++ (b1 ++ (words ++ source)))

-- RTCPSenderReport.to_bytes
pub sr_to_bytes : SenderReport → Result Bytes
sr_to_bytes r = do
  payload ←
      pack_words r.ntp_timestamp_msw r.ntp_timestamp_lsw r.rtp_timestamp r.sender_packet_count
        r.sender_octet_count
  header ← pack_header 0x80 200 ((4 + length payload) / 4 - 1) r.ssrc
  ok (header ++ payload)

-- RTCPSenderReport.from_bytes: the first four bytes are not looked at.
pub sr_from_bytes : Bytes → Result SenderReport
sr_from_bytes
      (_ ∷ _ ∷ _ ∷ _ ∷ a3 ∷ a2 ∷ a1 ∷ a0 ∷ b3 ∷ b2 ∷ b1 ∷ b0 ∷ c3 ∷ c2 ∷ c1 ∷ c0 ∷ d3 ∷ d2 ∷ d1 ∷ d0
        ∷ e3 ∷ e2 ∷ e1 ∷ e0 ∷ f3 ∷ f2 ∷ f1 ∷ f0 ∷ _) =
    ok (record {
      ssrc = u32_of a3 a2 a1 a0;
      ntp_timestamp_msw = u32_of b3 b2 b1 b0;
      ntp_timestamp_lsw = u32_of c3 c2 c1 c0;
      rtp_timestamp = u32_of d3 d2 d1 d0;
      sender_packet_count = u32_of e3 e2 e1 e0;
      sender_octet_count = u32_of f3 f2 f1 f0;
    })
sr_from_bytes _ = raised value_error

pub record ReceiverReport : Type 0 where
  pub ssrc : ℕ
  pub source_ssrc : ℕ
  pub fraction_lost : ℕ
  pub cumulative_lost : ℕ
  pub highest_seq : ℕ
  pub jitter : ℕ
  pub last_sr : ℕ
  pub delay_since_sr : ℕ

-- RTCPReceiverReport.to_bytes. The two parts of `lost_word` share no bit, so `|` is `+`.
pub rr_to_bytes : ReceiverReport → Result Bytes
rr_to_bytes r = do
  source ← pack_u32 r.source_ssrc
  let lost_word = r.fraction_lost % 256 * 0x1000000 + r.cumulative_lost % 0x1000000
  words ← pack_words lost_word r.highest_seq r.jitter r.last_sr r.delay_since_sr
  let report_block = source ++ words
  header ← pack_header 0x81 201 ((4 + length report_block) / 4 - 1) r.ssrc
  ok (header ++ report_block)

-- RTCPReceiverReport.from_bytes
pub rr_from_bytes : Bytes → Result ReceiverReport
rr_from_bytes
      (_ ∷ _ ∷ _ ∷ _ ∷ a3 ∷ a2 ∷ a1 ∷ a0 ∷ b3 ∷ b2 ∷ b1 ∷ b0 ∷ c3 ∷ c2 ∷ c1 ∷ c0 ∷ d3 ∷ d2 ∷ d1 ∷ d0
        ∷ e3 ∷ e2 ∷ e1 ∷ e0 ∷ f3 ∷ f2 ∷ f1 ∷ f0 ∷ g3 ∷ g2 ∷ g1 ∷ g0 ∷ _) =
    let lost_word = u32_of c3 c2 c1 c0 in
    ok (record {
      ssrc = u32_of a3 a2 a1 a0;
      source_ssrc = u32_of b3 b2 b1 b0;
      fraction_lost = lost_word / 0x1000000 % 256;
      cumulative_lost = lost_word % 0x1000000;
      highest_seq = u32_of d3 d2 d1 d0;
      jitter = u32_of e3 e2 e1 e0;
      last_sr = u32_of f3 f2 f1 f0;
      delay_since_sr = u32_of g3 g2 g1 g0;
    })
rr_from_bytes _ = raised value_error

abbrev pub IsWord : ℕ → Type 0
IsWord n = n < 2 ^ 32

pub record SrFits (r : SenderReport) : Type 0 where
  pub ssrc : IsWord r.ssrc
  pub msw : IsWord r.ntp_timestamp_msw
  pub lsw : IsWord r.ntp_timestamp_lsw
  pub rtp : IsWord r.rtp_timestamp
  pub packets : IsWord r.sender_packet_count
  pub octets : IsWord r.sender_octet_count

-- A sender report whose fields fit 32 bits is written, and parsing the bytes gives it back.
pub sr_from_bytes-to_bytes :
    (r : SenderReport) → SrFits r → (sr_to_bytes r >>= sr_from_bytes) ≡ ok r
unfolding sr_to_bytes sr_from_bytes
sr_from_bytes-to_bytes r h = rw (
  lt→ltb _ _ h.msw,
  lt→ltb _ _ h.lsw,
  lt→ltb _ _ h.rtp,
  lt→ltb _ _ h.packets,
  lt→ltb _ _ h.octets,
  lt→ltb _ _ h.ssrc,
  u32_of-pack r.ssrc,
  u32_of-pack r.ntp_timestamp_msw,
  u32_of-pack r.ntp_timestamp_lsw,
  u32_of-pack r.rtp_timestamp,
  u32_of-pack r.sender_packet_count,
  u32_of-pack r.sender_octet_count,
)

pub record RrFits (r : ReceiverReport) : Type 0 where
  pub ssrc : IsWord r.ssrc
  pub source : IsWord r.source_ssrc
  pub highest : IsWord r.highest_seq
  pub jitter : IsWord r.jitter
  pub last : IsWord r.last_sr
  pub delay : IsWord r.delay_since_sr

lost_word-lt : (f c : ℕ) → f % 256 * 0x1000000 + c % 0x1000000 < 2 ^ 32
lost_word-lt f c = omega arith

lost_fraction : (f c : ℕ) → (f % 256 * 0x1000000 + c % 0x1000000) / 0x1000000 % 256 ≡ f % 256
lost_fraction f c = omega arith

lost_cumulative : (f c : ℕ) → (f % 256 * 0x1000000 + c % 0x1000000) % 0x1000000 ≡ c % 0x1000000
lost_cumulative f c = omega arith

-- A receiver report whose word fields fit 32 bits comes back with the loss fraction cut to 8 bits
-- and the cumulative loss cut to 24, and all else unchanged.
pub rr_from_bytes-to_bytes :
    (r : ReceiverReport)
    → RrFits r
    → (rr_to_bytes r >>= rr_from_bytes)
      ≡ ok (record r {
        fraction_lost = r.fraction_lost % 256;
        cumulative_lost = r.cumulative_lost % 2 ^ 24;
      })
unfolding rr_to_bytes rr_from_bytes
rr_from_bytes-to_bytes r h = rw (
  lt→ltb _ _ h.source,
  lt→ltb _ _ (lost_word-lt r.fraction_lost r.cumulative_lost),
  lt→ltb _ _ h.highest,
  lt→ltb _ _ h.jitter,
  lt→ltb _ _ h.last,
  lt→ltb _ _ h.delay,
  lt→ltb _ _ h.ssrc,
  u32_of-pack r.ssrc,
  u32_of-pack r.source_ssrc,
  u32_of-pack (r.fraction_lost % 256 * 0x1000000 + r.cumulative_lost % 0x1000000),
  u32_of-pack r.highest_seq,
  u32_of-pack r.jitter,
  u32_of-pack r.last_sr,
  u32_of-pack r.delay_since_sr,
  lost_fraction r.fraction_lost r.cumulative_lost,
  lost_cumulative r.fraction_lost r.cumulative_lost,
)
