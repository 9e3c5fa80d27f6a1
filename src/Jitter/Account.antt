-- ===== src/Jitter/Account.antt =====
-- The counters of the jitter buffer and the packets in it (ims/media.py).
use virtual_phone.Prelude.{
  ℕ, suc, ◌*◌, ◌+◌, ◌<◌, ◌≡◌, refl, List, [], ◌∷◌, length, arith, lt→ltb, Bool-cases, inl, inr,
}
use virtual_phone.Rtp.{RtpPacket}
use virtual_phone.Jitter.{
  FloatOps, Entry, JitterBuffer, holds, insert_entry, store, put, get_from, get, new,
}
use virtual_phone.Jitter.Order.{Sorted, put-Sorted, get-Sorted}

module _ {F : Type 0} where
  -- Received is played, discarded as late or duplicate, or still waiting.
  abbrev pub Accounts : JitterBuffer F → Type 0
  Accounts b =
      b.packets_received ≡ b.packets_played + b.packets_late + b.packets_duplicate + length b.buffer

  pub length-insert_entry :
      (e : Entry F) (es : List (Entry F)) → length (insert_entry e es) ≡ suc (length es)
  unfolding insert_entry
  length-insert_entry e [] = refl
  length-insert_entry e (d ∷ rest) = ground (arith, length-insert_entry e rest)

  pub put-Accounts :
      (ops : FloatOps F) (now : F) (packet : RtpPacket) (b : JitterBuffer F)
      → length b.buffer < b.max_depth * 2
      → Accounts b
      → Accounts (put ops now packet b).0
  unfolding put store
  put-Accounts ops now packet b room h = elim (Bool-cases (holds packet.sequence_number b.buffer)) [
    | inl dup ↦ rw dup (omega arith)
    | inr fresh ↦
        rw (fresh, lt→ltb (length b.buffer) (b.max_depth * 2) room)
          (omega (arith, length-insert_entry))
  ]

  get_from-Accounts :
      (es : List (Entry F)) (b : JitterBuffer F)
      → b.packets_received ≡ b.packets_played + b.packets_late + b.packets_duplicate + length es
      → Accounts (get_from es b).0
  unfolding get_from
  get_from-Accounts [] b h = h
  get_from-Accounts (e ∷ rest) b h =
      ground (arith, get_from-Accounts rest (record b { packets_late = b.packets_late + 1 }))

  pub get-Accounts : (b : JitterBuffer F) → Accounts b → Accounts (get b).0
  unfolding get
  get-Accounts b h = get_from-Accounts b.buffer b h

  -- The states that arrivals with room for them and playouts lead to.
  pub data Reach (ops : FloatOps F) (start : JitterBuffer F) : JitterBuffer F → Type 0 where
    here : Reach ops start start
    arrived :
        {b : JitterBuffer F}
        → Reach ops start b
        → (now : F) (packet : RtpPacket) → length b.buffer < b.max_depth * 2
        → Reach ops start (put ops now packet b).0
    pulled : {b : JitterBuffer F} → Reach ops start b → Reach ops start (get b).0

  -- In every state that a new buffer reaches by arrivals that find room and by playouts, in any
  -- order, the buffer is strictly sorted by sequence number, and the packets received are exactly
  -- those played, late, duplicate or still waiting.
  pub Reach-Accounts :
      (ops : FloatOps F) (min_depth max_depth target_depth : ℕ) (b : JitterBuffer F)
      → Reach ops (new ops min_depth max_depth target_depth) b
      → Sorted b.buffer × Accounts b
  Reach-Accounts ops lo hi target b r = go b r
    where
      go : (b : JitterBuffer F) → Reach ops (new ops lo hi target) b → Sorted b.buffer × Accounts b
      go b here = unfold new in (tt, omega arith)
      go b (arrived {b = a} r now packet room) =
          let ih = go a r in
          (put-Sorted ops now packet a ih.0, put-Accounts ops now packet a room ih.1)
      go b (pulled {b = a} r) = let ih = go a r in (get-Sorted a ih.0, get-Accounts a ih.1)
