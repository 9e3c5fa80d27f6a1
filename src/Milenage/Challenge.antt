-- ===== src/Milenage/Challenge.antt =====
-- The USIM against the network (euicc/crypto/milenage.py).
use virtual_phone.Prelude.{
  ℕ, ◌/◌, ◌%◌, ◌^◌, ◌<◌, ◌≤◌, ◌≡◌, refl, ap, sym, ◌∙◌, none, some, [], ◌∷◌, ◌++◌, length, take,
  drop, arith, ltb, lt→ltb, length-append, if◌then◌else◌, take-append, drop-append, take_all,
  append_assoc, ok, same_text_refl,
}
use virtual_phone.Bytes.{Bytes, AreBytes}
use virtual_phone.Milenage.{
  Milenage, xor, slice, from_big, f1, f1star, f2345, f5star, authenticate, generate_auts,
}
use virtual_phone.Milenage.Sizes.{
  BlockSized, xor_twice, length-xor, length-f1, length-f1star, length-f5star, length-f2345,
}

-- The token that a network with the same keys builds: SQN xor AK, AMF, MAC-A.
abbrev pub network_token : Milenage → Bytes → Bytes → Bytes → Bytes
network_token m rand sqn amf = xor sqn (f2345 m rand).ak ++ (amf ++ f1 m rand sqn amf)

-- A number and a field of the sizes of the standard.
pub record IsField (rand sqn amf : Bytes) : Type 0 where
  pub rand_size : length rand ≡ 16
  pub sqn_size : length sqn ≡ 6
  pub amf_size : length amf ≡ 2
  pub sqn_bytes : AreBytes sqn

three_slices :
    (a b c : Bytes)
    → length a ≡ 6
    → length b ≡ 2
    → length c ≡ 8
    → (slice 0 6 (a ++ (b ++ c)) ≡ a)
      × (slice 6 2 (a ++ (b ++ c)) ≡ b)
      × (slice 8 8 (a ++ (b ++ c)) ≡ c)
      × (length (a ++ (b ++ c)) ≡ 16)
three_slices a b c la lb lc = (
  ap (λ n. take n (a ++ (b ++ c))) (sym la) ∙ take-append a (b ++ c),
  ap (λ n. take 2 (drop n (a ++ (b ++ c)))) (sym la)
      ∙ ap (take 2) (drop-append a (b ++ c))
      ∙ ap (λ n. take n (b ++ c)) (sym lb)
      ∙ take-append b c,
  ap (take 8) (
        ap (drop 8) (sym (append_assoc a b c))
        ∙ ap (λ n. drop n ((a ++ b) ++ c)) {x = 8} {y = length (a ++ b)}
            (omega (arith, length-append a b))
        ∙ drop-append (a ++ b) c)
      ∙ take_all 8 c (omega arith),
  omega (arith, length-append a (b ++ c), length-append b c),
)

abbrev six_bytes : ℕ → Bytes
six_bytes n =
    n / 2 ^ 40 % 256
    ∷ n / 2 ^ 32 % 256
    ∷ n / 2 ^ 24 % 256
    ∷ n / 2 ^ 16 % 256
    ∷ n / 256 % 256
    ∷ n % 256
    ∷ []

from_big-six : (n : ℕ) → n < 2 ^ 48 → from_big 0 (six_bytes n) ≡ n
unfolding from_big
from_big-six n h = omega arith

six_bytes-AreBytes : (n : ℕ) → AreBytes (six_bytes n)
six_bytes-AreBytes n = omega arith

module _ (m : Milenage) (h : BlockSized m) where
  -- A challenge by a network with the same keys is answered with the vector f2, f3 and f4, unless
  -- its sequence number is below the stored one, and then with nothing. The cipher and the key
  -- have 16-byte blocks, and the parts of the challenge their standard sizes.
  pub authenticate-network :
      (rand sqn amf : Bytes) (sqn_stored : ℕ)
      → IsField rand sqn amf
      → authenticate m rand (network_token m rand sqn amf) sqn_stored ≡ (
          let v = f2345 m rand in
          ok (if ltb (from_big 0 sqn) sqn_stored then none else some (v.res, v.ck, v.ik)))
  unfolding authenticate
  authenticate-network rand sqn amf sqn_stored f =
      let ak : Bytes = (f2345 m rand).ak in
      let hidden : Bytes = xor sqn ak in
      let wide : length sqn ≤ length ak =
        omega (arith, f.sqn_size, (length-f2345 m h rand f.rand_size).3) in
      let size : length hidden ≡ 6 = length-xor sqn ak wide ∙ f.sqn_size in
      let (first, middle, last, whole) =
        three_slices hidden amf (f1 m rand sqn amf) size f.amf_size
          (length-f1 m h rand f.rand_size sqn amf f.sqn_size f.amf_size) in
      rw
        (
          f.rand_size,
          whole,
          first,
          middle,
          last,
          xor_twice sqn ak f.sqn_bytes wide,
          same_text_refl (f1 m rand sqn amf),
        )
        refl

  -- The resynchronisation token for a RAND of 16 bytes and a 48-bit sequence number has 14 bytes; a
  -- network with the same keys recovers that number from its first six, and the rest is MAC-S of the
  -- number. The cipher and the key have 16-byte blocks.
  pub generate_auts_lem :
      (rand : Bytes) (sqn_stored : ℕ)
      → length rand ≡ 16
      → sqn_stored < 2 ^ 48
      → (auts sqn : Bytes) × (generate_auts m rand sqn_stored ≡ ok auts)
        × (length auts ≡ 14)
        × (from_big 0 sqn ≡ sqn_stored)
        × (xor (take 6 auts) (f5star m rand) ≡ sqn)
        × (drop 6 auts ≡ f1star m rand sqn (0 ∷ 0 ∷ []))
  unfolding generate_auts
  generate_auts_lem rand n r16 small =
      let sqn : Bytes = six_bytes n in
      let ak : Bytes = f5star m rand in
      let mac : Bytes = f1star m rand sqn (0 ∷ 0 ∷ []) in
      let wide : length sqn ≤ length ak = omega (arith, length-f5star m h rand r16) in
      let size : length (xor sqn ak) ≡ 6 = length-xor sqn ak wide in
      (
        xor sqn ak ++ mac,
        sqn,
        rw (lt→ltb n (2 ^ 48) small, r16) refl,
        omega (
          arith,
          length-append (xor sqn ak) mac,
          size,
          length-f1star m h rand r16 sqn (0 ∷ 0 ∷ []) refl refl,
        ),
        from_big-six n small,
        ap (λ k. xor (take k (xor sqn ak ++ mac)) ak) (sym size)
            ∙ ap (λ t. xor t ak) (take-append (xor sqn ak) mac)
            ∙ xor_twice sqn ak (six_bytes-AreBytes n) wide,
        ap (λ k. drop k (xor sqn ak ++ mac)) (sym size) ∙ drop-append (xor sqn ak) mac,
      )
