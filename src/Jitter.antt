-- ===== src/Jitter.antt =====
-- JitterBuffer of ims/media.py. Floats are a type with the operations that the jitter estimate
-- uses, and the clock is an argument; what decides which packet is played is over integers.
pub mod Order
pub mod Account
pub mod Playout
pub mod Wrap
use virtual_phone.Prelude.{
  ℕ, zero, suc, ◌*◌, ◌+◌, ◌-◌, ◌%◌, ◌^◌, Bool, true, false, ◌&&◌, Option, none, some, List, [], ◌∷◌,
  ◌++◌, ltb, leb, ◌==◌, if◌then◌else◌, length, drop, Error, index_error,
}
use virtual_phone.Bytes.{Bytes}
use virtual_phone.Rtp.{RtpPacket}

-- What the estimate needs of Python's floats.
pub record FloatOps (F : Type 0) : Type 0 where
  pub zero_float : F
  pub frame_time : F  -- 0.020
  pub sixteen : F
  pub add : F → F → F
  pub sub : F → F → F
  pub div : F → F → F
  pub abs : F → F
  pub is_positive : F → Bool

pub record Entry (F : Type 0) : Type 0 where
  pub sequence_number : ℕ
  pub timestamp : ℕ
  pub payload : Bytes
  pub arrival_time : F

pub record JitterBuffer (F : Type 0) : Type 0 where
  pub min_depth : ℕ
  pub max_depth : ℕ
  pub target_depth : ℕ
  pub buffer : List (Entry F)
  pub next_seq : Option ℕ
  pub last_arrival : F
  pub jitter : F
  pub packets_received : ℕ
  pub packets_played : ℕ
  pub packets_lost : ℕ
  pub packets_late : ℕ
  pub packets_duplicate : ℕ

abbrev pub or_else {ℓ} : {A : Type ℓ} → Option A → A → A
or_else none d = d
or_else (some a) d = a

-- `(front.sequence_number - self._next_seq) & 0xFFFF`, for numbers below 65536.
abbrev pub seq_diff : ℕ → ℕ → ℕ
seq_diff front next = (front + 65536 - next) % 65536

module _ {F : Type 0} where
  -- JitterBuffer.__init__
  unfoldable pub new : FloatOps F → ℕ → ℕ → ℕ → JitterBuffer F
  new ops min_depth max_depth target_depth = record {
    min_depth = min_depth;
    max_depth = max_depth;
    target_depth = target_depth;
    buffer = [];
    next_seq = none;
    last_arrival = ops.zero_float;
    jitter = ops.zero_float;
    packets_received = 0;
    packets_played = 0;
    packets_lost = 0;
    packets_late = 0;
    packets_duplicate = 0;
  }

  -- The loop of the duplicate detection.
  unfoldable pub holds : ℕ → List (Entry F) → Bool
  holds seq [] = false
  holds seq (e ∷ rest) =
      let later = holds seq rest in if e.sequence_number == seq then true else later

  -- The estimate of RFC 3550 after an arrival at `now`.
  unfoldable pub next_jitter : FloatOps F → F → JitterBuffer F → F
  next_jitter ops now b =
      if ops.is_positive b.last_arrival
      then ops.add b.jitter (
          ops.div (ops.sub (ops.abs (ops.sub (ops.sub now b.last_arrival) ops.frame_time)) b.jitter)
            ops.sixteen)
      else b.jitter

  -- Whether some entry comes after `seq`, so that the new one is inserted and not appended.
  unfoldable pub has_later : ℕ → List (Entry F) → Bool
  has_later seq [] = false
  has_later seq (e ∷ rest) =
      let later = has_later seq rest in if ltb seq e.sequence_number then true else later

  -- The place before the first entry with a larger number, else the end.
  unfoldable pub insert_entry : Entry F → List (Entry F) → List (Entry F)
  insert_entry e [] = e ∷ []
  insert_entry e (d ∷ rest) =
      let later = insert_entry e rest in
      if ltb e.sequence_number d.sequence_number then e ∷ d ∷ rest else d ∷ later

  -- The bounded deque: `insert` into a full one raises IndexError, and `append` to a full one
  -- drops the first entry.
  unfoldable pub store : ℕ → Entry F → List (Entry F) → List (Entry F) × Option Error
  unfolding has_later insert_entry
  store maxlen e buffer =
      if ltb (length buffer) maxlen
      then (insert_entry e buffer, none)
      else if has_later e.sequence_number buffer
      then (buffer, some index_error)
      else (drop (length buffer + 1 - maxlen) (buffer ++ (e ∷ [])), none)

  -- JitterBuffer.put: the state it leaves, and what it raises.
  unfoldable pub put : FloatOps F → F → RtpPacket → JitterBuffer F → JitterBuffer F × Option Error
  unfolding holds next_jitter store
  put ops now packet b =
      let seq = packet.sequence_number in
      let counted : JitterBuffer F = record b {
        packets_received = b.packets_received + 1;
        next_seq = some (or_else b.next_seq seq);
      } in
      let e : Entry F = record {
        sequence_number = seq;
        timestamp = packet.timestamp;
        payload = packet.payload;
        arrival_time = now;
      } in
      let (stored, error) = store (b.max_depth * 2) e b.buffer in
      if holds seq b.buffer
      then (record counted { packets_duplicate = b.packets_duplicate + 1 }, none)
      else (
        record counted { buffer = stored; jitter = next_jitter ops now b; last_arrival = now },
        error,
      )

  -- `popleft` and play.
  abbrev pub play : Entry F → List (Entry F) → JitterBuffer F → JitterBuffer F × Option Bytes
  play e rest b = (
    record b {
      buffer = rest;
      next_seq = some ((e.sequence_number + 1) % 65536);
      packets_played = b.packets_played + 1;
    },
    some e.payload,
  )

  -- JitterBuffer.get, over the buffer; the call of itself after a late packet is the recursion.
  unfoldable pub get_from : List (Entry F) → JitterBuffer F → JitterBuffer F × Option Bytes
  get_from [] b = (record b { buffer = [] }, none)
  get_from (e ∷ rest) b =
      let next = or_else b.next_seq e.sequence_number in
      let diff = seq_diff e.sequence_number next in
      let try_next = get_from rest (record b { packets_late = b.packets_late + 1 }) in
      if ltb (length (e ∷ rest)) b.target_depth
      then (record b { buffer = e ∷ rest }, none)
      else if ltb 0x8000 diff
      then try_next
      else if ltb 0 diff
      then (
        record b {
          buffer = e ∷ rest;
          packets_lost = b.packets_lost + 1;
          next_seq = some ((next + 1) % 65536);
        },
        some [],
      )
      else play e rest b

  unfoldable pub get : JitterBuffer F → JitterBuffer F × Option Bytes
  unfolding get_from
  get b = get_from b.buffer b

  -- JitterBuffer.reset
  unfoldable pub reset : FloatOps F → JitterBuffer F → JitterBuffer F
  reset ops b = record b {
    buffer = [];
    next_seq = none;
    last_arrival = ops.zero_float;
    jitter = ops.zero_float;
  }

  -- The property `depth`.
  abbrev pub depth : JitterBuffer F → ℕ
  depth b = length b.buffer
