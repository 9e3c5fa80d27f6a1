-- ===== src/Sms/Multipart/Split.antt =====
-- How a long text is cut (ims/sms_pdu.py: the loop of split_multipart).
use virtual_phone.Prelude.{
  ℕ, zero, suc, ◌+◌, ◌/◌, ◌<◌, ◌≤◌, ◌≡◌, refl, ap, ◌∙◌, List, [], ◌∷◌, ◌++◌, length, take, drop,
  arith, All, take-append-drop, length-take, length-drop,
}
use virtual_phone.Sms.Gsm7.{Text}
use virtual_phone.Sms.Multipart.{chunks}

unfoldable pub concat : List Text → Text
concat [] = []
concat (t ∷ rest) = t ++ concat rest

-- With fuel for every character nothing is lost, and the order stays.
pub concat-chunks :
    (fuel limit : ℕ) (text : Text)
    → 0 < limit
    → length text ≤ fuel
    → concat (chunks fuel limit text) ≡ text
unfolding concat chunks
concat-chunks fuel limit [] pos h = refl
concat-chunks zero limit (c ∷ rest) pos h = elim h [ ]
concat-chunks (suc fuel) limit (c ∷ rest) pos h =
    ap (λ t. take limit (c ∷ rest) ++ t)
      (concat-chunks fuel limit (drop limit (c ∷ rest)) pos
        (omega (arith, length-drop limit (c ∷ rest))))
    ∙ take-append-drop limit (c ∷ rest)

-- Every piece has a character at least and `limit` at most.
pub chunks_bound :
    (fuel limit : ℕ) (text : Text)
    → 0 < limit
    → All (λ t. (0 < length t) × (length t ≤ limit)) (chunks fuel limit text)
unfolding chunks
chunks_bound fuel limit [] pos = tt
chunks_bound zero limit (c ∷ rest) pos = tt
chunks_bound (suc fuel) limit (c ∷ rest) pos = (
  omega (arith, length-take limit (c ∷ rest)),
  chunks_bound fuel limit (drop limit (c ∷ rest)) pos,
)

-- The number of pieces is the length over the limit, rounded up; here for the two limits used.
pub length-chunks_gsm :
    (fuel : ℕ) (text : Text)
    → length text ≤ fuel
    → length (chunks fuel 153 text) ≡ (length text + 152) / 153
unfolding chunks
length-chunks_gsm fuel [] h = refl
length-chunks_gsm zero (c ∷ rest) h = elim h [ ]
length-chunks_gsm (suc fuel) (c ∷ rest) h = omega (
  arith,
  length-drop 152 rest,
  length-chunks_gsm fuel (drop 152 rest) (omega (arith, length-drop 152 rest)),
)

pub length-chunks_ucs :
    (fuel : ℕ) (text : Text)
    → length text ≤ fuel
    → length (chunks fuel 67 text) ≡ (length text + 66) / 67
unfolding chunks
length-chunks_ucs fuel [] h = refl
length-chunks_ucs zero (c ∷ rest) h = elim h [ ]
length-chunks_ucs (suc fuel) (c ∷ rest) h = omega (
  arith,
  length-drop 66 rest,
  length-chunks_ucs fuel (drop 66 rest) (omega (arith, length-drop 66 rest)),
)
