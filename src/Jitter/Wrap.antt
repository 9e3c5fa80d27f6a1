-- ===== src/Jitter/Wrap.antt =====
-- The jitter buffer (ims/media.py) where the sequence numbers wrap around.
use virtual_phone.Prelude.{◌*◌, ◌+◌, ◌<◌, ◌≤◌, ◌≡◌, refl, some, [], ◌∷◌, lt→ltb, le→ltb_false}
use virtual_phone.Rtp.{RtpPacket}
use virtual_phone.Jitter.{
  FloatOps, Entry, JitterBuffer, holds, store, insert_entry, put, get_from, get,
}

module _ {F : Type 0} where
  -- Where packet 65535 is expected and waiting as the only one, and packet 0 arrives, with room for
  -- it and a target depth of at most two, the next playout reports a loss and plays nothing.
  pub get-put_wrapped :
      (ops : FloatOps F) (now : F) (packet : RtpPacket) (e : Entry F) (b : JitterBuffer F)
      → b.buffer ≡ e ∷ []
      → e.sequence_number ≡ 65535
      → b.next_seq ≡ some 65535
      → packet.sequence_number ≡ 0
      → 1 < b.max_depth * 2
      → b.target_depth ≤ 2
      → let (b', out) = get (put ops now packet b).0 in
        (out ≡ some [])
        × (b'.packets_lost ≡ b.packets_lost + 1)
        × (b'.packets_played ≡ b.packets_played)
  unfolding put store holds insert_entry get get_from
  get-put_wrapped ops now packet e b held last next zero_seq room shallow =
      rw
        (
          held,
          next,
          zero_seq,
          last,
          lt→ltb 1 (b.max_depth * 2) room,
          le→ltb_false 2 b.target_depth shallow,
        )
        (refl, refl, refl)
