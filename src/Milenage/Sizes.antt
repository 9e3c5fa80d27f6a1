-- ===== src/Milenage/Sizes.antt =====
-- The sizes of what Milenage computes, and its XOR (euicc/crypto/milenage.py).
use virtual_phone.Prelude.{
  ℕ, zero, suc, ◌+◌, ◌*◌, ◌/◌, ◌%◌, ◌^◌, ◌<◌, ◌≤◌, ◌≡◌, refl, ap, ◌∙◌, [], ◌∷◌, ◌++◌, length, drop,
  arith, length-take, length-drop, length-append, ◌==◌, Bool-cases, inl, inr,
}
use virtual_phone.Bytes.{Bytes, AreBytes}
use virtual_phone.Milenage.{
  Milenage, xor_bits, xor, rotate_from, rotate, constant, f1_core, f1, f1star, out, f2345, f5star,
}

half_below : (a p : ℕ) → a < p + p → a / 2 < p
half_below a p h = omega arith

double : (w : ℕ) → 2 ^ suc w ≡ 2 ^ w + 2 ^ w
double w = omega arith

digit : (x a b : ℕ) → (x * 2 + (a + b) % 2) / 2 ≡ x
digit x a b = omega arith

again : (x a b : ℕ) → (x * 2 + (a + b) % 2 + b) % 2 ≡ a % 2
again x a b = omega arith

pub xor_bits_twice : (w a b : ℕ) → a < 2 ^ w → xor_bits w (xor_bits w a b) b ≡ a
unfolding xor_bits
xor_bits_twice zero a b h = omega arith
xor_bits_twice (suc w) a b h =
    let half : a / 2 < 2 ^ w = half_below a (2 ^ w) (omega (arith, double w)) in
    rw (digit (xor_bits w (a / 2) (b / 2)) a b, again (xor_bits w (a / 2) (b / 2)) a b)
      (omega (arith, xor_bits_twice w (a / 2) (b / 2) half))

-- XOR with a block that is at least as long undoes itself.
pub xor_twice : (s t : Bytes) → AreBytes s → length s ≤ length t → xor (xor s t) t ≡ s
unfolding xor
xor_twice [] t bytes h = refl
xor_twice (a ∷ s) [] bytes h = elim h [ ]
xor_twice (a ∷ s) (b ∷ t) bytes h =
    rw (xor_bits_twice 8 a b bytes.0, xor_twice s t bytes.1 (omega arith))

pub length-xor : (s t : Bytes) → length s ≤ length t → length (xor s t) ≡ length s
unfolding xor
length-xor [] t h = refl
length-xor (a ∷ s) [] h = elim h [ ]
length-xor (a ∷ s) (b ∷ t) h = ap suc (length-xor s t (omega arith))

xor_block : (s t : Bytes) → length s ≡ 16 → length t ≡ 16 → length (xor s t) ≡ 16
xor_block s t hs ht = length-xor s t (omega (arith, hs, ht)) ∙ hs

length-rotate_from :
    (block : Bytes) (bits i count : ℕ) → length (rotate_from block bits i count) ≡ count
unfolding rotate_from
length-rotate_from block bits i zero = refl
length-rotate_from block bits i (suc count) = ap suc (length-rotate_from block bits (suc i) count)

length-rotate : (block : Bytes) (bits : ℕ) → length (rotate block bits) ≡ length block
unfolding rotate
length-rotate block bits = elim (Bool-cases (bits == 0)) [
  | inl still ↦ rw still refl
  | inr moves ↦ rw moves (length-rotate_from block bits 0 (length block))
]

-- What the block cipher promises, and the keys: a block of 16 bytes is ciphered to one, and OPc is one.
pub record BlockSized (m : Milenage) : Type 0 where
  pub block : (b : Bytes) → length b ≡ 16 → length (m.encrypt b) ≡ 16
  pub key : length m.opc ≡ 16

module _ (m : Milenage) (h : BlockSized m) (rand : Bytes) (r16 : length rand ≡ 16) where
  length-temp : length (m.encrypt (xor rand m.opc)) ≡ 16
  length-temp = h.block (xor rand m.opc) (xor_block rand m.opc r16 h.key)

  pub length-out : (r c : ℕ) → length (out m rand r c) ≡ 16
  unfolding out
  length-out r c =
      let temp : Bytes = xor (m.encrypt (xor rand m.opc)) m.opc in
      let turned : length (rotate temp r) ≡ 16 =
        length-rotate temp r ∙ xor_block (m.encrypt (xor rand m.opc)) m.opc length-temp h.key in
      let input : Bytes = xor (rotate temp r) (constant c) in
      xor_block (m.encrypt input) m.opc
        (h.block input (xor_block (rotate temp r) (constant c) turned refl)) h.key

  pub length-f1_core :
      (sqn amf : Bytes) → length sqn ≡ 6 → length amf ≡ 2 → length (f1_core m rand sqn amf) ≡ 16
  unfolding f1_core
  length-f1_core sqn amf s6 a2 =
      let in1 : Bytes = sqn ++ (amf ++ (sqn ++ amf)) in
      let in1_size : length in1 ≡ 16 = omega (
        arith,
        length-append sqn (amf ++ (sqn ++ amf)),
        length-append amf (sqn ++ amf),
        length-append sqn amf,
        s6,
        a2,
      ) in
      let turned : Bytes = rotate (xor in1 m.opc) 64 in
      let turned_size : length turned ≡ 16 =
        length-rotate (xor in1 m.opc) 64 ∙ xor_block in1 m.opc in1_size h.key in
      let mixed : Bytes = xor (m.encrypt (xor rand m.opc)) turned in
      let mixed_size : length mixed ≡ 16 =
        xor_block (m.encrypt (xor rand m.opc)) turned length-temp turned_size in
      let input : Bytes = xor mixed (constant 0) in
      xor_block (m.encrypt input) m.opc
        (h.block input (xor_block mixed (constant 0) mixed_size refl)) h.key

  pub length-f1 :
      (sqn amf : Bytes) → length sqn ≡ 6 → length amf ≡ 2 → length (f1 m rand sqn amf) ≡ 8
  unfolding f1
  length-f1 sqn amf s6 a2 =
      omega (arith, length-take 8 (f1_core m rand sqn amf), length-f1_core sqn amf s6 a2)

  pub length-f1star :
      (sqn amf : Bytes) → length sqn ≡ 6 → length amf ≡ 2 → length (f1star m rand sqn amf) ≡ 8
  unfolding f1star
  length-f1star sqn amf s6 a2 = omega (
    arith,
    length-take 8 (drop 8 (f1_core m rand sqn amf)),
    length-drop 8 (f1_core m rand sqn amf),
    length-f1_core sqn amf s6 a2,
  )

  pub length-f5star : length (f5star m rand) ≡ 6
  unfolding f5star
  length-f5star = omega (arith, length-take 6 (out m rand 96 8), length-out 96 8)

  -- Under a cipher and a key of 16-byte blocks, the vector of a challenge of 16 bytes has its standard
  -- sizes: RES 8 bytes, CK and IK 16, AK 6.
  pub length-f2345 :
      let v = f2345 m rand in
      (length v.res ≡ 8) × (length v.ck ≡ 16) × (length v.ik ≡ 16) × (length v.ak ≡ 6)
  unfolding f2345
  length-f2345 = (
    omega (
      arith,
      length-take 8 (drop 8 (out m rand 0 1)),
      length-drop 8 (out m rand 0 1),
      length-out 0 1,
    ),
    length-out 32 2,
    length-out 64 4,
    omega (arith, length-take 6 (out m rand 0 1), length-out 0 1),
  )
