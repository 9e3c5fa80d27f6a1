-- ===== src/Jitter/Playout.antt =====
-- What the jitter buffer (ims/media.py) plays.
use mathlib.Core.List.{Memᴰ}
use virtual_phone.Prelude.{
  ℕ, ◌+◌, ◌%◌, ◌<◌, ◌≡◌, refl, false, Option, none, some, List, [], ◌∷◌, ltb, length, arith, ap,
  ◌∙◌, All, Bool-cases, inl, inr, ◌⊎◌,
}
use virtual_phone.Bytes.{Bytes}
use virtual_phone.Jitter.{Entry, JitterBuffer, get_from, get, seq_diff, or_else}

no_diff : (s n : ℕ) → s < 65536 → n < 65536 → ltb 0 (seq_diff s n) ≡ false → s ≡ n
no_diff s n hs hn h = ground arith

module _ {F : Type 0} where
  abbrev pub SixteenBits : List (Entry F) → Type 0
  SixteenBits = All (λ e. e.sequence_number < 65536)

  -- One playout of the expected number `n`. It waits: nothing is returned, and `n` is still expected;
  -- or it counts a packet as lost and returns silence for it; or it plays a packet of that number. In
  -- the latter two the next number is expected.
  abbrev pub PlaysOnly :
      ℕ → List (Entry F) → JitterBuffer F → JitterBuffer F × Option Bytes → Type 0
  PlaysOnly n es b (b', out) =
      ((out ≡ none)
        × (b'.packets_played ≡ b.packets_played)
        × (b'.packets_lost ≡ b.packets_lost)
        × (b'.next_seq ≡ some n))
      ⊎ ((out ≡ some [])
          × (b'.packets_played ≡ b.packets_played)
          × (b'.packets_lost ≡ b.packets_lost + 1)
          × (b'.next_seq ≡ some ((n + 1) % 65536)))
      ⊎ ((e : Entry F) × Memᴰ e es
          × (e.sequence_number ≡ n)
          × (out ≡ some e.payload)
          × (b'.packets_played ≡ b.packets_played + 1)
          × (b'.packets_lost ≡ b.packets_lost)
          × (b'.next_seq ≡ some ((n + 1) % 65536)))

  weaken :
      (n : ℕ) (e : Entry F) (es : List (Entry F)) (b b' : JitterBuffer F)
      (r : JitterBuffer F × Option Bytes)
      → b'.packets_played ≡ b.packets_played
      → b'.packets_lost ≡ b.packets_lost
      → PlaysOnly n es b' r
      → PlaysOnly n (e ∷ es) b r
  weaken n e es b b' r played lost (inl (o, p, l, x)) = inl (o, p ∙ played, l ∙ lost, x)
  weaken n e es b b' r played lost (inr (inl (o, p, l, x))) =
      inr (inl (o, p ∙ played, omega arith, x))
  weaken n e es b b' r played lost (inr (inr (d, m, s, o, p, l, x))) =
      inr (inr (d, Memᴰ.tail m, s, o, omega arith, l ∙ lost, x))

  get_from_plays :
      (n : ℕ) (es : List (Entry F)) (b : JitterBuffer F)
      → b.next_seq ≡ some n
      → n < 65536
      → SixteenBits es
      → PlaysOnly n es b (get_from es b)
  unfolding get_from
  get_from_plays n [] b next hn h = inl (refl, refl, refl, next)
  get_from_plays n (e ∷ rest) b next hn h =
      let b' : JitterBuffer F = record b { packets_late = b.packets_late + 1 } in
      let ih : PlaysOnly n (e ∷ rest) b (get_from rest b') =
        weaken n e rest b b' (get_from rest b') refl refl (get_from_plays n rest b' next hn h.1) in
      elim (Bool-cases (ltb (length (e ∷ rest)) b.target_depth)) [
        | inl shallow ↦ rw shallow (inl (refl, refl, refl, next))
        | inr deep ↦
            elim (Bool-cases
              (ltb 0x8000 (seq_diff e.sequence_number (or_else b.next_seq e.sequence_number)))) [
                | inl late ↦ rw (deep, late) ih
                | inr not_late ↦
                    elim (Bool-cases
                      (ltb 0 (seq_diff e.sequence_number (or_else b.next_seq e.sequence_number)))) [
                        | inl gap ↦
                            rw (deep, not_late, gap)
                              (inr (
                                inl (
                                  refl,
                                  refl,
                                  refl,
                                  ap
                                      (λ (q : Option ℕ).
                                        some ((or_else q e.sequence_number + 1) % 65536))
                                      next,
                                )))
                        | inr expected ↦
                            let same = no_diff e.sequence_number n h.0 hn (rw next at expected) in
                            rw (deep, not_late, expected)
                              (inr (
                                inr (
                                  e,
                                  Memᴰ.head refl,
                                  same,
                                  refl,
                                  refl,
                                  refl,
                                  ap (λ (k : ℕ). some ((k + 1) % 65536)) same,
                                )))
                      ]
              ]
      ]

  -- Where number `n` is expected and all numbers have 16 bits, a playout does one of three things: it
  -- returns nothing, with no packet counted as played or lost, and `n` still expected; it returns no
  -- octets, with one more packet lost, none played, and `n + 1` modulo 65536 expected; or it returns
  -- the payload of a packet of the buffer whose number is `n`, with one more played, none lost, and
  -- `n + 1` modulo 65536 expected.
  pub get_plays :
      (n : ℕ) (b : JitterBuffer F)
      → b.next_seq ≡ some n
      → n < 65536
      → SixteenBits b.buffer
      → PlaysOnly n b.buffer b (get b)
  unfolding get
  get_plays n b next hn h = get_from_plays n b.buffer b next hn h
