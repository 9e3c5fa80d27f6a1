-- ===== src/Sms/Gsm7/RoundTrip.antt =====
-- decode_gsm7 after encode_gsm7 (ims/sms_pdu.py).
use native.Mathlib.Nat.{mod-eq_of_lt}
use virtual_phone.Prelude.{
  ℕ, zero, suc, ◌*◌, ◌+◌, ◌-◌, ◌/◌, ◌%◌, ◌^◌, ◌<◌, ◌≤◌, ◌≡◌, refl, ap, ◌∙◌, sym, List, [], ◌∷◌,
  ◌++◌, Option, none, some, arith, ltb, leb, ◌==◌, if◌then◌else◌, length, map, get_elem?, subst,
  Option-cases, inl, inr,
}
use virtual_phone.Bytes.{Bytes}
use virtual_phone.Sms.Gsm7.{
  Text, gsm7_basic, index_from, gsm7_encode, septet_or_mark, septets_of, encode_gsm7, gsm7_char,
  decode_gsm7, gather_bits, unpack_septets, pack_septets, char_or_mark,
}
use virtual_phone.Sms.Gsm7.Packing.{
  septets_value, pack_septets_value, gather_bits_value, unpack_septets_value, length-pack_septets,
}

-- The character that a text keeps: itself if the alphabet has it, else `?`.
abbrev pub keep_or_mark : Option ℕ → ℕ → ℕ
keep_or_mark (some _) c = c
keep_or_mark none c = 0x3f

abbrev pub kept : ℕ → ℕ
kept c = keep_or_mark (gsm7_encode c) c

-- An index found is the place of the character.
index_from_sound :
    (i c : ℕ) (table : Text) (k : ℕ)
    → index_from i c table ≡ some k
    → (j : ℕ) × (k ≡ i + j) × (get_elem? table j ≡ some c)
unfolding index_from
index_from_sound i c [] k h = cc
index_from_sound i c (d ∷ table) k h = elim (virtual_phone.Prelude.Bool-cases (d == c)) [
  | inl here ↦ (0, ground arith, ground arith)
  | inr later ↦
      let (j, e, g) = index_from_sound (suc i) c table k (rw later at h) in
      (suc j, omega (arith, e), g)
]

index_from-bound :
    (i c : ℕ) (table : Text) (k : ℕ) → index_from i c table ≡ some k → k < i + length table
unfolding index_from
index_from-bound i c [] k h = cc
index_from-bound i c (d ∷ table) k h = ground (arith, index_from-bound (suc i) c table k)

gsm7_encode-lt : (c k : ℕ) → gsm7_encode c ≡ some k → k < 128
unfolding gsm7_encode
gsm7_encode-lt c k h = ground (arith, index_from-bound 0 c gsm7_basic k)

encode-place : (c k : ℕ) → gsm7_encode c ≡ some k → index_from 0 c gsm7_basic ≡ some k
unfolding gsm7_encode
encode-place c k h = ground arith

char-encode : (c k : ℕ) → gsm7_encode c ≡ some k → gsm7_char (k % 128) ≡ c
unfolding gsm7_char
char-encode c k h =
    let (j, e, g) = index_from_sound 0 c gsm7_basic k (encode-place c k h) in
    rw (mod-eq_of_lt (gsm7_encode-lt c k h)) (
      ap (λ n. char_or_mark (get_elem? gsm7_basic n)) {x = k} {y = j} (omega (arith, e))
      ∙ ap char_or_mark g)

char-septet : (c : ℕ) → gsm7_char (septet_or_mark (gsm7_encode c) % 128) ≡ kept c
char-septet c = elim (Option-cases (gsm7_encode c)) [
  | inl e ↦ rw e (unfold gsm7_char in refl)
  | inr (k, e) ↦ rw e (char-encode c k e)
]

map-char-septets : (text : Text) → map (λ s. gsm7_char (s % 128)) (septets_of text) ≡ map kept text
unfolding septets_of
map-char-septets [] = refl
map-char-septets (c ∷ text) = rw (char-septet c, map-char-septets text)

length-septets_of : (text : Text) → length (septets_of text) ≡ length text
unfolding septets_of
length-septets_of [] = refl
length-septets_of (c ∷ text) = ap suc (length-septets_of text)

-- Unpacking as many septets as the text has characters gives the text back, for every text: each
-- character of the alphabet (ESC excepted) as it was, any other as `?`.
pub decode_gsm7-encode_gsm7 :
    (text : Text) → decode_gsm7 (encode_gsm7 text) (length text) ≡ map kept text
unfolding decode_gsm7 encode_gsm7
decode_gsm7-encode_gsm7 text =
    let ss : List ℕ = septets_of text in
    let octets : Bytes = pack_septets ss 0 0 in
    let bits : ℕ = gather_bits octets 0 0 in
    let value : bits / 2 ^ (0 * 7) ≡ septets_value ss = omega (
      arith,
      gather_bits_value octets 0 0,
      pack_septets_value ss 0 0 (omega arith) (omega arith),
    ) in
    subst (λ n. unpack_septets n 0 bits ≡ map kept text) (length-septets_of text)
      (unpack_septets_value ss 0 bits value ∙ map-char-septets text)

-- The packed text has exactly ⌈7n/8⌉ octets for n characters.
pub length-encode_gsm7 : (text : Text) → length (encode_gsm7 text) ≡ (length text * 7 + 7) / 8
unfolding encode_gsm7
length-encode_gsm7 text =
    length-pack_septets (septets_of text) 0 0 (omega arith) ∙ omega (arith, length-septets_of text)
