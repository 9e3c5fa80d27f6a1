-- ===== src/Sms/Header/Elements.antt =====
-- Concatenation elements among the elements of a header (ims/sms_pdu.py, decode_udh_concat).
use virtual_phone.Prelude.{
  ℕ, zero, suc, ◌+◌, ◌-◌, ◌%◌, ◌<◌, ◌≤◌, ◌≡◌, ◌≢◌, refl, ap, ◌∙◌, some, List, [], ◌∷◌, ◌++◌, length,
  drop, arith, length-append, drop-append, append_assoc, le→ltb_false,
}
use virtual_phone.Bytes.{Bytes}
use virtual_phone.Sms.Header.{encode_udh_concat, find_concat, decode_udh_concat}

-- More fuel than there are bytes of header left changes nothing.
pub find_concat_fuel :
    (f g left : ℕ) (rest : Bytes)
    → left ≤ f
    → left ≤ g
    → find_concat f left rest ≡ find_concat g left rest
unfolding find_concat
find_concat_fuel zero zero left rest hf hg = refl
find_concat_fuel zero (suc g) left [] hf hg = refl
find_concat_fuel zero (suc g) left (i ∷ []) hf hg = refl
find_concat_fuel zero (suc g) left (i ∷ n ∷ body) hf hg = ground arith
find_concat_fuel (suc f) zero left [] hf hg = refl
find_concat_fuel (suc f) zero left (i ∷ []) hf hg = refl
find_concat_fuel (suc f) zero left (i ∷ n ∷ body) hf hg = ground arith
find_concat_fuel (suc f) (suc g) left [] hf hg = refl
find_concat_fuel (suc f) (suc g) left (i ∷ []) hf hg = refl
find_concat_fuel (suc f) (suc g) left (i ∷ n ∷ body) hf hg =
    ground (arith, find_concat_fuel f g (left - (2 + n)) (drop n body))

-- An element of another kind.
abbrev pub IsOther : ℕ → Type 0
IsOther iei = (iei ≢ 0x00) × (iei ≢ 0x08)

skip_element :
    (fuel left iei : ℕ) (content rest : Bytes)
    → IsOther iei
    → 0 < left
    → find_concat (suc fuel) left (iei ∷ length content ∷ (content ++ rest))
      ≡ find_concat fuel (left - (2 + length content)) rest
unfolding find_concat
skip_element fuel left iei content rest other more =
    rw (drop-append content rest) (ground (arith, length-append content rest))

-- Elements of other kinds, one after the other: identifiers and contents.
abbrev pub element_bytes : List (ℕ × Bytes) → Bytes
element_bytes [] = []
element_bytes ((iei, content) ∷ rest) = iei ∷ length content ∷ (content ++ element_bytes rest)

-- The concatenation element, without the length byte of the header.
abbrev pub concat_element : ℕ → ℕ → ℕ → Bytes
concat_element ref total part = 0x00 ∷ 0x03 ∷ ref % 256 ∷ total % 256 ∷ part % 256 ∷ []

abbrev pub AllOther : List (ℕ × Bytes) → Type 0
AllOther [] = Unit
AllOther (e ∷ rest) = IsOther e.0 × AllOther rest

find_here :
    (f ref total part : ℕ) (rest : Bytes)
    → find_concat (suc f) 5 (concat_element ref total part ++ rest)
      ≡ some (ref % 256, total % 256, part % 256)
unfolding find_concat
find_here f ref total part rest = ground arith

find_concat-elements :
    (f : ℕ) (es : List (ℕ × Bytes)) (ref total part : ℕ) (rest : Bytes)
    → AllOther es
    → length (element_bytes es) + 5 ≤ f
    → find_concat f
        (length (element_bytes es) + 5)
        (element_bytes es ++ (concat_element ref total part ++ rest))
      ≡ some (ref % 256, total % 256, part % 256)
find_concat-elements zero es ref total part rest others h = absurd (omega arith)
find_concat-elements (suc f) [] ref total part rest others h = find_here f ref total part rest
find_concat-elements (suc f) ((iei, content) ∷ es) ref total part rest others h =
    let tail : Bytes = concat_element ref total part ++ rest in
    let left : ℕ = length (element_bytes ((iei, content) ∷ es)) + 5 in
    let len : length (content ++ element_bytes es) ≡ length content + length (element_bytes es) =
      length-append content (element_bytes es) in
    ap (λ xs. find_concat (suc f) left (iei ∷ length content ∷ xs))
      (append_assoc content (element_bytes es) tail)
    ∙ skip_element f left iei content (element_bytes es ++ tail) others.0 (omega arith)
    ∙ ap (λ n. find_concat f n (element_bytes es ++ tail)) {x = left - (2 + length content)}
        {y = length (element_bytes es) + 5} (omega (arith, len))
    ∙ find_concat-elements f es ref total part rest others.1 (omega (arith, len))

-- A header that carries any number of elements of other kinds and then a concatenation element,
-- with text behind it, yields that element's reference, total and part number, each cut to 8 bits.
pub decode_udh_concat-elements :
    (es : List (ℕ × Bytes)) (ref total part : ℕ) (text : Bytes)
    → AllOther es
    → decode_udh_concat (
        (length (element_bytes es) + 5)
        ∷ (element_bytes es ++ (concat_element ref total part ++ text)))
      ≡ some (ref % 256, total % 256, part % 256)
unfolding decode_udh_concat
decode_udh_concat-elements es ref total part text others =
    let len : length (element_bytes es ++ (concat_element ref total part ++ text))
        ≡ length (element_bytes es) + (5 + length text) =
      omega (arith, length-append (element_bytes es) (concat_element ref total part ++ text)) in
    rw
      (le→ltb_false (length (element_bytes es ++ (concat_element ref total part ++ text)))
        (length (element_bytes es) + 5) (omega (arith, len)))
      (find_concat-elements (length (element_bytes es) + 5) es ref total part text others
        (omega arith))

-- The header that `encode_udh_concat` builds, in front of any text.
pub decode_udh_concat-encode :
    (ref total part : ℕ) (text : Bytes)
    → decode_udh_concat (encode_udh_concat ref total part ++ text)
      ≡ some (ref % 256, total % 256, part % 256)
unfolding encode_udh_concat
decode_udh_concat-encode ref total part text = decode_udh_concat-elements [] ref total part text tt
