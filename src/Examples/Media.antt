-- ===== src/Examples/Media.antt =====
-- RTP, the codec payloads and the jitter buffer at concrete inputs.

use virtual_phone.Prelude.{
  ℕ, ◌≡◌, refl, true, false, some, [], ◌∷◌, ◌+◌, ◌-◌, ◌/◌, ltb, arith, ok, ◌>>=◌,
}
use virtual_phone.Bytes.{Bytes}
use virtual_phone.Rtp.{RtpPacket, to_bytes, from_bytes}
use virtual_phone.Rtp.RoundTrip.{on_wire, from_bytes-to_bytes}
use virtual_phone.Rtp.Padding.{from_bytes-to_bytes_padded}
use virtual_phone.Rtp.Reports.{
  SenderReport, ReceiverReport, SrFits, RrFits, sr_to_bytes, sr_from_bytes, sr_from_bytes-to_bytes,
}
use virtual_phone.Codec.{AmrFrame, frame_to_payload, frame_from_payload, DtmfEvent}
use virtual_phone.Codec.Frames.{frame_from_payload-to_payload}
use virtual_phone.Jitter.{FloatOps, Entry, JitterBuffer, new, put, get}
use virtual_phone.Jitter.Order.{Sorted}
use virtual_phone.Jitter.Account.{Accounts, Reach, here, arrived, pulled, Reach-Accounts}
use virtual_phone.Jitter.Wrap.{get-put_wrapped}
use virtual_phone.Jitter.Playout.{PlaysOnly, get_plays}

abbrev packet : Bytes → RtpPacket
packet payload = record {
  version = 2;
  padding = false;
  extension = false;
  csrc_count = 1;
  marker = true;
  payload_type = 97;
  sequence_number = 65535;
  timestamp = 320;
  ssrc = 7;
  csrc_list = 9 ∷ [];
  payload = payload;
}

abbrev padded : RtpPacket
padded = record (packet (1 ∷ 2 ∷ 0 ∷ 2 ∷ [])) { padding = true }

abbrev extended : RtpPacket
extended = record (packet (0xbe ∷ 0xde ∷ 0 ∷ 1 ∷ 5 ∷ 6 ∷ 7 ∷ 8 ∷ 1 ∷ 2 ∷ [])) { extension = true }

from_bytes-to_bytes_example :
    (to_bytes (packet (1 ∷ 2 ∷ [])) >>= from_bytes)
    ≡ ok (on_wire (packet (1 ∷ 2 ∷ [])) (1 ∷ 2 ∷ []))
from_bytes-to_bytes_example = from_bytes-to_bytes (packet (1 ∷ 2 ∷ [])) refl (omega arith) refl refl

from_bytes-to_bytes_padded_example :
    (to_bytes padded >>= from_bytes) ≡ ok (on_wire padded (1 ∷ 2 ∷ []))
from_bytes-to_bytes_padded_example =
    from_bytes-to_bytes_padded padded (1 ∷ 2 ∷ []) (0 ∷ []) refl (omega arith) refl refl refl

abbrev sender_report : SenderReport
sender_report = record {
  ssrc = 1;
  ntp_timestamp_msw = 0xe8000000;
  ntp_timestamp_lsw = 3;
  rtp_timestamp = 320;
  sender_packet_count = 5;
  sender_octet_count = 600;
}

sender_report-SrFits : SrFits sender_report
sender_report-SrFits = record {
  ssrc = omega arith;
  msw = omega arith;
  lsw = omega arith;
  rtp = omega arith;
  packets = omega arith;
  octets = omega arith;
}

sr_from_bytes-to_bytes_example : (sr_to_bytes sender_report >>= sr_from_bytes) ≡ ok sender_report
sr_from_bytes-to_bytes_example = sr_from_bytes-to_bytes sender_report sender_report-SrFits

abbrev receiver_report : ReceiverReport
receiver_report = record {
  ssrc = 1;
  source_ssrc = 2;
  fraction_lost = 300;
  cumulative_lost = 4;
  highest_seq = 5;
  jitter = 6;
  last_sr = 7;
  delay_since_sr = 8;
}

receiver_report-RrFits : RrFits receiver_report
receiver_report-RrFits = record {
  ssrc = omega arith;
  source = omega arith;
  highest = omega arith;
  jitter = omega arith;
  last = omega arith;
  delay = omega arith;
}

abbrev frame : AmrFrame
frame = record { mode = 8; quality = true; payload = 1 ∷ 2 ∷ []; cmr = 15; is_wideband = true }

frame_from_payload-to_payload_example :
    (frame_to_payload frame >>= λ payload. frame_from_payload payload true) ≡ ok frame
frame_from_payload-to_payload_example = frame_from_payload-to_payload frame

abbrev pound : DtmfEvent
pound = record { event = 11; end = true; volume = 10; duration = 160 }

-- Times as whole numbers of milliseconds.
abbrev millis : FloatOps ℕ
millis = record {
  zero_float = 0;
  frame_time = 20;
  sixteen = 16;
  add = ◌+◌;
  sub = ◌-◌;
  div = ◌/◌;
  abs = λ n. n;
  is_positive = λ n. ltb 0 n;
}

abbrev numbered : ℕ → RtpPacket
numbered n = record (packet (n ∷ [])) { sequence_number = n }

abbrev start : JitterBuffer ℕ
start = new millis 1 2 2

abbrev after_two : JitterBuffer ℕ
after_two = (put millis 120 (numbered 4) (put millis 100 (numbered 5) start).0).0

Reach-two : Reach millis start (get after_two).0
unfolding new put get
Reach-two =
    pulled (arrived (arrived here 100 (numbered 5) (omega arith)) 120 (numbered 4) (omega arith))

Reach-Accounts_example : Sorted (get after_two).0.buffer × Accounts (get after_two).0
Reach-Accounts_example = Reach-Accounts millis 1 2 2 (get after_two).0 Reach-two

abbrev waiting : ℕ → Entry ℕ
waiting n = record { sequence_number = n; timestamp = 0; payload = n ∷ []; arrival_time = 100 }

abbrev two_waiting : JitterBuffer ℕ
two_waiting = record start { buffer = waiting 5 ∷ waiting 6 ∷ []; next_seq = some 5 }

get_plays_example : PlaysOnly 5 (waiting 5 ∷ waiting 6 ∷ []) two_waiting (get two_waiting)
get_plays_example = get_plays 5 two_waiting refl (omega arith) (omega arith)

abbrev after_three : JitterBuffer ℕ
after_three = (put millis 140 (numbered 6) after_two).0

abbrev at_wrap : JitterBuffer ℕ
at_wrap = record start { buffer = waiting 65535 ∷ []; next_seq = some 65535 }

get-put_wrapped_example :
    let (b, out) = get (put millis 120 (numbered 0) at_wrap).0 in
    (out ≡ some [])
    × (b.packets_lost ≡ at_wrap.packets_lost + 1)
    × (b.packets_played ≡ at_wrap.packets_played)
unfolding new
get-put_wrapped_example =
    get-put_wrapped millis 120 (numbered 0) (waiting 65535) at_wrap refl refl refl refl
      (omega arith) (omega arith)

-- Packet 4 comes after packet 5 and is late; packet 5 is played.
played_in_order : (get after_three).1 ≡ some (5 ∷ [])
unfolding new put get
played_in_order = refl
