-- ===== src/Codec.antt =====
-- ims/codec.py: AMR frames in octet-aligned mode (RFC 4867), DTMF events (RFC 4733), and the
-- parameters of a codec by its name. A digit or a name is its list of code points.
pub mod Frames
pub mod Events
use virtual_phone.Prelude.{
  ℕ, ◌*◌, ◌+◌, ◌/◌, ◌%◌, ◌-◌, ◌<◌, ◌≡◌, Bool, true, false, Option, none, some, List, [], ◌∷◌, ◌++◌,
  ltb, leb, ◌==◌, ◌&&◌, if◌then◌else◌, Result, ok, raised, value_error, ◌>>=◌, replicate,
}
use virtual_phone.Bytes.{Bytes, byte, bit_at, weigh}
use virtual_phone.Bytes.Words.{pack_u8, pack_u16, u16_of}

abbrev pub sid_mode : ℕ
sid_mode = 9

-- A dictionary with number keys, written as a list.
pub table_get : List (ℕ × ℕ) → ℕ → ℕ → ℕ
table_get [] k default = default
table_get ((j, v) ∷ rest) k default = if j == k then v else table_get rest k default

abbrev pub amr_wb_frame_sizes : List (ℕ × ℕ)
amr_wb_frame_sizes =
    (0, 17)
    ∷ (1, 23)
    ∷ (2, 32)
    ∷ (3, 36)
    ∷ (4, 40)
    ∷ (5, 46)
    ∷ (6, 50)
    ∷ (7, 58)
    ∷ (8, 60)
    ∷ (9, 5)
    ∷ (15, 0)
    ∷ []

abbrev pub amr_nb_frame_sizes : List (ℕ × ℕ)
amr_nb_frame_sizes =
    (0, 12)
    ∷ (1, 13)
    ∷ (2, 15)
    ∷ (3, 17)
    ∷ (4, 19)
    ∷ (5, 20)
    ∷ (6, 26)
    ∷ (7, 31)
    ∷ (8, 5)
    ∷ (15, 0)
    ∷ []

pub record AmrFrame : Type 0 where
  pub mode : ℕ
  pub quality : Bool
  pub payload : Bytes  -- the field `data`
  pub cmr : ℕ
  pub is_wideband : Bool

-- AMRFrame.to_rtp_payload. Both bytes are below 256 by their masks.
pub frame_to_payload : AmrFrame → Result Bytes
frame_to_payload f = do
  cmr_byte ← byte (f.cmr % 16 * 16)
  toc_byte ← byte (f.mode % 16 * 8 + weigh f.quality 4)
  ok (cmr_byte ++ (toc_byte ++ f.payload))

-- AMRFrame.from_rtp_payload
pub frame_from_payload : Bytes → Bool → Result AmrFrame
frame_from_payload (b0 ∷ b1 ∷ rest) is_wideband = ok (record {
  mode = b1 / 8 % 16;
  quality = bit_at 4 b1;
  payload = rest;
  cmr = b0 / 16 % 16;
  is_wideband = is_wideband;
})
frame_from_payload _ is_wideband = raised value_error

pub frame_size : AmrFrame → ℕ
unfolding table_get
frame_size f = table_get (if f.is_wideband then amr_wb_frame_sizes else amr_nb_frame_sizes) f.mode 0

pub clock_rate : AmrFrame → ℕ
clock_rate f = if f.is_wideband then 16000 else 8000

pub samples_per_frame : AmrFrame → ℕ
samples_per_frame f = if f.is_wideband then 320 else 160

-- AMRFrame.silence; `cmr` has its default, 15.
pub silence : Bool → AmrFrame
silence is_wideband = record {
  mode = sid_mode;
  quality = true;
  payload = replicate 5 0;
  cmr = 15;
  is_wideband = is_wideband;
}

pub record DtmfEvent : Type 0 where
  pub event : ℕ
  pub end : Bool
  pub volume : ℕ
  pub duration : ℕ

-- DTMFEvent.to_rtp_payload: `struct.pack("!BBH", ...)`.
pub event_to_payload : DtmfEvent → Result Bytes
event_to_payload e = do
  b0 ← pack_u8 (e.event % 256)
  b1 ← pack_u8 (weigh e.end 128 + e.volume % 64)
  d ← pack_u16 e.duration
  ok (b0 ++ (b1 ++ d))

-- DTMFEvent.from_rtp_payload
pub event_from_payload : Bytes → Result DtmfEvent
event_from_payload (b0 ∷ b1 ∷ d1 ∷ d0 ∷ _) =
    ok (record { event = b0; end = bit_at 128 b1; volume = b1 % 64; duration = u16_of d1 d0 })
event_from_payload _ = raised value_error

-- DTMF_EVENTS, in its order; the keys as code points.
abbrev pub dtmf_events : List (ℕ × ℕ)
dtmf_events =
    (b'0', 0)
    ∷ (b'1', 1)
    ∷ (b'2', 2)
    ∷ (b'3', 3)
    ∷ (b'4', 4)
    ∷ (b'5', 5)
    ∷ (b'6', 6)
    ∷ (b'7', 7)
    ∷ (b'8', 8)
    ∷ (b'9', 9)
    ∷ (b'*', 10)
    ∷ (b'#', 11)
    ∷ (b'A', 12)
    ∷ (b'B', 13)
    ∷ (b'C', 14)
    ∷ (b'D', 15)
    ∷ []

-- `str.upper` on a character of the DTMF keypad; an ASCII letter.
pub upper : ℕ → ℕ
upper c = if leb b'a' c && leb c b'z' then c - 32 else c

-- DTMFEvent.from_digit, for a digit of one ASCII character; the volume has its default, 10.
pub event_from_digit : ℕ → ℕ → Bool → DtmfEvent
unfolding upper table_get
event_from_digit digit duration end = record {
  event = table_get dtmf_events (upper digit) 0;
  end = end;
  volume = 10;
  duration = duration;
}

pub key_of : List (ℕ × ℕ) → ℕ → ℕ
key_of [] event = b'?'
key_of ((d, e) ∷ rest) event = if e == event then d else key_of rest event

-- The property DTMFEvent.digit.
pub event_digit : DtmfEvent → ℕ
unfolding key_of
event_digit e = key_of dtmf_events e.event
