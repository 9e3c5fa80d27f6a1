-- ===== src/Sms/Gsm7/Packing.antt =====
-- Packed septets are the digits of one number: the octets to base 256, the septets to base 128.
use native.Mathlib.Nat.{pow-suc, pow-le-pow_right, div-div-eq-div-mul}
use native.Mathlib.Numerals.{towards_suc}
use virtual_phone.Prelude.{
  ℕ, zero, suc, ◌*◌, ◌+◌, ◌-◌, ◌/◌, ◌%◌, ◌^◌, ◌<◌, ◌≤◌, ◌≡◌, refl, ap, ◌∙◌, sym, List, [], ◌∷◌,
  arith, length, map, le→leb, lt→leb_false,
}
use virtual_phone.Bytes.{Bytes}
use virtual_phone.Sms.Gsm7.{drain, pack_septets, gather_bits, unpack_septets, gsm7_char}

-- The number that octets, or septets, stand for, the least significant first.
pub octets_value : Bytes → ℕ
octets_value [] = 0
octets_value (b ∷ rest) = b + 256 * octets_value rest

pub septets_value : List ℕ → ℕ
septets_value [] = 0
septets_value (s ∷ rest) = s % 128 + 128 * septets_value rest

-- One septet, by the number of bits that wait.
module _ (s : ℕ) (ss : List ℕ)
    (ih : (bits c : ℕ)
      → c < 8
      → bits < 2 ^ c
      → octets_value (pack_septets ss bits c) ≡ bits + 2 ^ c * septets_value ss) where
  pack_step :
      (bits c : ℕ)
      → c < 8
      → bits < 2 ^ c
      → octets_value (pack_septets (s ∷ ss) bits c) ≡ bits + 2 ^ c * septets_value (s ∷ ss)
  unfolding octets_value septets_value pack_septets
  pack_step bits zero h b = omega (arith, ih (bits + s % 128 * 1) 7 (omega arith) (omega arith))
  pack_step bits (suc zero) h b =
      omega (arith, ih ((bits + s % 128 * 2) / 256) 0 (omega arith) (omega arith))
  pack_step bits (suc (suc zero)) h b =
      omega (arith, ih ((bits + s % 128 * 4) / 256) 1 (omega arith) (omega arith))
  pack_step bits (suc (suc (suc zero))) h b =
      omega (arith, ih ((bits + s % 128 * 8) / 256) 2 (omega arith) (omega arith))
  pack_step bits (suc (suc (suc (suc zero)))) h b =
      omega (arith, ih ((bits + s % 128 * 16) / 256) 3 (omega arith) (omega arith))
  pack_step bits (suc (suc (suc (suc (suc zero))))) h b =
      omega (arith, ih ((bits + s % 128 * 32) / 256) 4 (omega arith) (omega arith))
  pack_step bits (suc (suc (suc (suc (suc (suc zero)))))) h b =
      omega (arith, ih ((bits + s % 128 * 64) / 256) 5 (omega arith) (omega arith))
  pack_step bits (suc (suc (suc (suc (suc (suc (suc zero))))))) h b =
      omega (arith, ih ((bits + s % 128 * 128) / 256) 6 (omega arith) (omega arith))
  pack_step bits (suc (suc (suc (suc (suc (suc (suc (suc c)))))))) h b = absurd (omega arith)

pow_bound : (c : ℕ) → suc c < 8 → 2 ^ suc c ≤ 128
pow_bound c h = pow-le-pow_right {n = 2} (omega arith) {i = suc c} {j = 7} (omega arith)

pack_end : (bits c : ℕ) → c < 8 → bits < 2 ^ c → octets_value (pack_septets [] bits c) ≡ bits
unfolding octets_value pack_septets
pack_end bits zero h b = omega arith
pack_end bits (suc c) h b = ground (arith, pow_bound c h)

pub pack_septets_value :
    (ss : List ℕ) (bits c : ℕ)
    → c < 8
    → bits < 2 ^ c
    → octets_value (pack_septets ss bits c) ≡ bits + 2 ^ c * septets_value ss
pack_septets_value [] bits c h b = pack_end bits c h b ∙ unfold septets_value in omega arith
pack_septets_value (s ∷ ss) bits c h b = pack_step s ss (pack_septets_value ss) bits c h b

pow_add_eight : (c : ℕ) → 2 ^ (c + 8) ≡ 256 * 2 ^ c
pow_add_eight c = simp towards_suc (omega (arith, pow-suc 2 c))

pow_suc_seven : (i : ℕ) → 2 ^ (suc i * 7) ≡ 2 ^ (i * 7) * 128
pow_suc_seven i =
    ap (λ n. 2 ^ n) {y = i * 7 + 7} (omega arith)
    ∙ simp towards_suc (omega (arith, pow-suc 2 (i * 7)))

pub gather_bits_value :
    (octets : Bytes) (bits c : ℕ) → gather_bits octets bits c ≡ bits + 2 ^ c * octets_value octets
unfolding gather_bits octets_value
gather_bits_value [] bits c = omega arith
gather_bits_value (b ∷ rest) bits c =
    gather_bits_value rest (bits + b * 2 ^ c) (c + 8)
    ∙ omega (arith, ap (λ (t : ℕ). t * octets_value rest) (pow_add_eight c))

pub unpack_septets_value :
    (ss : List ℕ) (i bits : ℕ)
    → bits / 2 ^ (i * 7) ≡ septets_value ss
    → unpack_septets (length ss) i bits ≡ map (λ s. gsm7_char (s % 128)) ss
unfolding unpack_septets septets_value
unpack_septets_value [] i bits h = refl
unpack_septets_value (s ∷ ss) i bits h =
    let next : bits / 2 ^ (suc i * 7) ≡ septets_value ss =
      ap (λ n. bits / n) (pow_suc_seven i)
      ∙ sym (div-div-eq-div-mul bits (2 ^ (i * 7)) 128)
      ∙ omega (arith, h) in
    rw (unpack_septets_value ss (suc i) bits next) (
      ap (λ n. gsm7_char n ∷ map (λ x. gsm7_char (x % 128)) ss) {x = bits / 2 ^ (i * 7) % 128}
        {y = s % 128} (omega (arith, h)))

drain_once : (bits c : ℕ) → suc c < 8 → drain 2 bits (suc c + 7) ≡ (bits % 256 ∷ [], bits / 256, c)
unfolding drain
drain_once bits c h =
    rw (le→leb 8 (suc c + 7) (omega arith), lt→leb_false 8 (suc c + 7 - 8) (omega arith))
      (ap (λ (n : ℕ). (bits % 256 ∷ [], bits / 256, n)) {x = suc c + 7 - 8} {y = c} (omega arith))

length-pack_end : (bits c : ℕ) → c < 8 → length (pack_septets [] bits c) ≡ (c + 7 * 0 + 7) / 8
unfolding pack_septets
length-pack_end bits c h = ground arith

-- How many octets the packing appends: the bits that wait and those to come, rounded up.
module _ (s : ℕ) (ss : List ℕ)
    (ih : (bits c : ℕ)
      → c < 8
      → length (pack_septets ss bits c) ≡ (c + 7 * length ss + 7) / 8) where
  length-pack_step :
      (bits c : ℕ)
      → c < 8
      → length (pack_septets (s ∷ ss) bits c) ≡ (c + 7 * suc (length ss) + 7) / 8
  unfolding pack_septets
  length-pack_step bits zero h = omega (arith, ih (bits + s % 128 * 1) 7 (omega arith))
  length-pack_step bits (suc c) h =
      let bits' : ℕ = bits + s % 128 * 2 ^ suc c in
      rw (drain_once bits' c h) (omega (arith, ih (bits' / 256) c (omega arith)))

pub length-pack_septets :
    (ss : List ℕ) (bits c : ℕ)
    → c < 8
    → length (pack_septets ss bits c) ≡ (c + 7 * length ss + 7) / 8
length-pack_septets [] bits c h = length-pack_end bits c h
length-pack_septets (s ∷ ss) bits c h = length-pack_step s ss (length-pack_septets ss) bits c h
