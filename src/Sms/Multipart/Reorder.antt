-- ===== src/Sms/Multipart/Reorder.antt =====
-- The order of the parts in reassemble_multipart (ims/sms_pdu.py).
use virtual_phone.Prelude.{
  ℕ, zero, suc, ◌<◌, ◌≤◌, ◌≡◌, ◌≢◌, refl, ap, sym, ◌∙◌, true, false, some, List, [], ◌∷◌, ◌++◌,
  arith, length, ◌==◌, ==_refl, ==_iff, Bool-cases, inl, inr,
}
use virtual_phone.Sms.Gsm7.{Text}
use virtual_phone.Sms.Multipart.{
  Part, insert_part, sort_parts, numbered_from, join_parts, reassemble_multipart, chunks,
}
use virtual_phone.Sms.Multipart.Split.{concat, concat-chunks}

-- One order of the parts comes from another by exchanges of neighbours with different numbers.
pub data Reordered : List Part → List Part → Type 0 where
  same : (ps : List Part) → Reordered ps ps
  later : (p : Part) (ps qs : List Part) → Reordered ps qs → Reordered (p ∷ ps) (p ∷ qs)
  exchange :
      (p q : Part) (ps : List Part) → p.number ≢ q.number → Reordered (p ∷ q ∷ ps) (q ∷ p ∷ ps)
  steps : (ps qs rs : List Part) → Reordered ps qs → Reordered qs rs → Reordered ps rs

insert_part_comm :
    (p q : Part) (s : List Part)
    → p.number ≢ q.number
    → insert_part p (insert_part q s) ≡ insert_part q (insert_part p s)
unfolding insert_part
insert_part_comm p q [] n = ground arith
insert_part_comm p q (d ∷ s) n = ground (arith, insert_part_comm p q s n)

sort_parts-Reordered : (ps qs : List Part) → Reordered ps qs → sort_parts ps ≡ sort_parts qs
unfolding sort_parts
sort_parts-Reordered _ _ (same ps) = refl
sort_parts-Reordered _ _ (later p ps qs r) = ap (insert_part p) (sort_parts-Reordered ps qs r)
sort_parts-Reordered _ _ (exchange p q ps n) = insert_part_comm p q (sort_parts ps) n
sort_parts-Reordered _ _ (steps ps qs rs a b) =
    sort_parts-Reordered ps qs a ∙ sort_parts-Reordered qs rs b

insert_first :
    (i : ℕ) (p : Part) (ps : List Part)
    → p.number ≡ i
    → numbered_from (suc i) ps ≡ true
    → insert_part p ps ≡ p ∷ ps
unfolding insert_part numbered_from
insert_first i p [] e h = refl
insert_first i p (q ∷ ps) e h = ground arith

sort_parts-numbered : (i : ℕ) (ps : List Part) → numbered_from i ps ≡ true → sort_parts ps ≡ ps
unfolding sort_parts numbered_from
sort_parts-numbered i [] h = refl
sort_parts-numbered i (p ∷ ps) h = elim (Bool-cases (p.number == i)) [
  | inl e ↦
      let others : numbered_from (suc i) ps ≡ true = rw e at h in
      ap (insert_part p) (sort_parts-numbered (suc i) ps others)
      ∙ insert_first i p ps ((==_iff p.number i).0 e) others
  | inr e ↦ let wrong : false ≡ true = rw e at h in cc
]

-- Parts that are numbered 1, 2, ... in order and name their count, in any other order: they are
-- reassembled to the contents joined in the order of the numbers.
pub reassemble_multipart-Reordered :
    (p : Part) (ps qs : List Part)
    → Reordered qs (p ∷ ps)
    → numbered_from 1 (p ∷ ps) ≡ true
    → p.total ≡ length (p ∷ ps)
    → reassemble_multipart qs ≡ some (join_parts (p ∷ ps))
unfolding reassemble_multipart
reassemble_multipart-Reordered p ps qs r numbered total =
    rw
      (
        sort_parts-Reordered qs (p ∷ ps) r,
        sort_parts-numbered 1 (p ∷ ps) numbered,
        total,
        ==_refl (suc (length ps)),
        numbered,
      )
      refl

-- The parts of a text that was cut, numbered from `i` on.
abbrev pub parts_of : ℕ → ℕ → List Text → List Part
parts_of total i [] = []
parts_of total i (t ∷ ts) =
    record { number = i; total = total; content = t } ∷ parts_of total (suc i) ts

numbered_from-parts : (total i : ℕ) (ts : List Text) → numbered_from i (parts_of total i ts) ≡ true
unfolding numbered_from
numbered_from-parts total i [] = refl
numbered_from-parts total i (t ∷ ts) = rw (==_refl i) (numbered_from-parts total (suc i) ts)

join_parts-parts : (total i : ℕ) (ts : List Text) → join_parts (parts_of total i ts) ≡ concat ts
unfolding join_parts concat
join_parts-parts total i [] = refl
join_parts-parts total i (t ∷ ts) = ap (λ u. t ++ u) (join_parts-parts total (suc i) ts)

length-parts : (total i : ℕ) (ts : List Text) → length (parts_of total i ts) ≡ length ts
length-parts total i [] = refl
length-parts total i (t ∷ ts) = ap suc (length-parts total (suc i) ts)

reassemble_all :
    (ts : List Text) (qs : List Part)
    → 0 < length ts
    → Reordered qs (parts_of (length ts) 1 ts)
    → reassemble_multipart qs ≡ some (concat ts)
reassemble_all [] qs pos r = elim pos [ ]
reassemble_all (t ∷ ts) qs pos r =
    let n : ℕ = length (t ∷ ts) in
    reassemble_multipart-Reordered (record { number = 1; total = n; content = t }) (parts_of n 2 ts)
      qs r (numbered_from-parts n 1 (t ∷ ts)) (ap suc (sym (length-parts n 2 ts)))
    ∙ ap some (join_parts-parts n 1 (t ∷ ts))

chunks_nonempty :
    (fuel limit : ℕ) (text : Text)
    → 0 < length text
    → length text ≤ fuel
    → 0 < length (chunks fuel limit text)
unfolding chunks
chunks_nonempty fuel limit [] pos h = elim pos [ ]
chunks_nonempty zero limit (c ∷ text) pos h = elim h [ ]
chunks_nonempty (suc fuel) limit (c ∷ text) pos h = omega arith

-- A text that is not empty, cut into pieces of at most `limit` characters as split_multipart cuts
-- it, with the pieces numbered in order, is reassembled whatever the order in which the pieces
-- arrive.
pub reassemble_multipart-chunks :
    (limit : ℕ) (text : Text) (qs : List Part)
    → 0 < limit
    → 0 < length text
    → (let pieces = chunks (length text) limit text in
        Reordered qs (parts_of (length pieces) 1 pieces))
    → reassemble_multipart qs ≡ some text
reassemble_multipart-chunks limit text qs pos some_text r =
    reassemble_all (chunks (length text) limit text) qs
      (chunks_nonempty (length text) limit text some_text (omega arith)) r
    ∙ ap some (concat-chunks (length text) limit text pos (omega arith))
