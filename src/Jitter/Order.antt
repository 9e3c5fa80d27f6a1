-- ===== src/Jitter/Order.antt =====
-- The order of the entries in the jitter buffer (ims/media.py).
use virtual_phone.Prelude.{
  ℕ, zero, suc, ◌*◌, ◌+◌, ◌-◌, ◌<◌, ◌≡◌, false, List, [], ◌∷◌, ◌++◌, ltb, length, drop, arith, All,
  Bool-cases, inl, inr,
}
use virtual_phone.Rtp.{RtpPacket}
use virtual_phone.Jitter.{
  FloatOps, Entry, JitterBuffer, holds, has_later, insert_entry, store, put, get_from, get,
}

module _ {F : Type 0} where
  abbrev pub AllAbove : ℕ → List (Entry F) → Type 0
  AllAbove n = All (λ e. n < e.sequence_number)

  abbrev pub Sorted : List (Entry F) → Type 0
  Sorted [] = Unit
  Sorted (e ∷ rest) = AllAbove e.sequence_number rest × Sorted rest

  All-above_mono : (m n : ℕ) (es : List (Entry F)) → m < n → AllAbove n es → AllAbove m es
  All-above_mono m n [] lt h = tt
  All-above_mono m n (e ∷ rest) lt h = (omega (arith, h.0), All-above_mono m n rest lt h.1)

  AllAbove-insert :
      (n : ℕ) (e : Entry F) (es : List (Entry F))
      → n < e.sequence_number
      → AllAbove n es
      → AllAbove n (insert_entry e es)
  unfolding insert_entry
  AllAbove-insert n e [] lt h = (lt, tt)
  AllAbove-insert n e (d ∷ rest) lt h =
      elim (Bool-cases (ltb e.sequence_number d.sequence_number)) [
        | inl before ↦ rw before (lt, h)
        | inr after ↦ rw after (h.0, AllAbove-insert n e rest lt h.1)
      ]

  insert_entry-Sorted :
      (e : Entry F) (es : List (Entry F))
      → holds e.sequence_number es ≡ false
      → Sorted es
      → Sorted (insert_entry e es)
  unfolding insert_entry holds
  insert_entry-Sorted e [] new h = (tt, tt)
  insert_entry-Sorted e (d ∷ rest) new h =
      elim (Bool-cases (ltb e.sequence_number d.sequence_number)) [
        | inl before ↦ rw before (
          (
            ground arith,
            All-above_mono e.sequence_number d.sequence_number rest (ground arith) h.0,
          ),
          h,
        )
        | inr after ↦ rw after (
          AllAbove-insert d.sequence_number e rest (ground arith) h.0,
          insert_entry-Sorted e rest (ground arith) h.1,
        )
      ]

  AllAbove-append :
      (n : ℕ) (e : Entry F) (es : List (Entry F))
      → n < e.sequence_number
      → AllAbove n es
      → AllAbove n (es ++ (e ∷ []))
  AllAbove-append n e [] lt h = (lt, tt)
  AllAbove-append n e (d ∷ rest) lt h = (h.0, AllAbove-append n e rest lt h.1)

  append-Sorted :
      (e : Entry F) (es : List (Entry F))
      → holds e.sequence_number es ≡ false
      → has_later e.sequence_number es ≡ false
      → Sorted es
      → Sorted (es ++ (e ∷ []))
  unfolding holds has_later
  append-Sorted e [] new last h = (tt, tt)
  append-Sorted e (d ∷ rest) new last h = (
    AllAbove-append d.sequence_number e rest (ground arith) h.0,
    append-Sorted e rest (ground arith) (ground arith) h.1,
  )

  drop-Sorted : (n : ℕ) (es : List (Entry F)) → Sorted es → Sorted (drop n es)
  drop-Sorted zero es h = h
  drop-Sorted (suc n) [] h = tt
  drop-Sorted (suc n) (e ∷ rest) h = drop-Sorted n rest h.1

  store-Sorted :
      (maxlen : ℕ) (e : Entry F) (es : List (Entry F))
      → holds e.sequence_number es ≡ false
      → Sorted es
      → Sorted (store maxlen e es).0
  unfolding store
  store-Sorted maxlen e es new h = elim (Bool-cases (ltb (length es) maxlen)) [
    | inl room ↦ rw room (insert_entry-Sorted e es new h)
    | inr full ↦ elim (Bool-cases (has_later e.sequence_number es)) [
      | inl later ↦ rw (full, later) h
      | inr last ↦
          rw (full, last)
            (drop-Sorted (length es + 1 - maxlen) (es ++ (e ∷ [])) (append-Sorted e es new last h))
    ]
  ]

  -- Whatever arrives, also a duplicate or at a full buffer, the buffer stays strictly sorted.
  pub put-Sorted :
      (ops : FloatOps F) (now : F) (packet : RtpPacket) (b : JitterBuffer F)
      → Sorted b.buffer
      → Sorted (put ops now packet b).0.buffer
  unfolding put
  put-Sorted ops now packet b h = elim (Bool-cases (holds packet.sequence_number b.buffer)) [
    | inl dup ↦ rw dup h
    | inr new ↦ rw new (store-Sorted (b.max_depth * 2) _ b.buffer new h)
  ]

  get_from-Sorted :
      (es : List (Entry F)) (b : JitterBuffer F) → Sorted es → Sorted (get_from es b).0.buffer
  unfolding get_from
  get_from-Sorted [] b h = tt
  get_from-Sorted (e ∷ rest) b h =
      ground (arith, get_from-Sorted rest (record b { packets_late = b.packets_late + 1 }))

  pub get-Sorted : (b : JitterBuffer F) → Sorted b.buffer → Sorted (get b).0.buffer
  unfolding get
  get-Sorted b h = get_from-Sorted b.buffer b h
