-- ===== src/Milenage.antt =====
-- Milenage of euicc/crypto/milenage.py: the authentication functions of a USIM. The block cipher,
-- AES under the subscriber's key, is an argument.
pub mod Sizes
pub mod Challenge
use virtual_phone.Prelude.{
  ℕ, zero, suc, ◌+◌, ◌-◌, ◌*◌, ◌/◌, ◌%◌, ◌^◌, Bool, true, false, not, ◌&&◌, ◌||◌, Option, none,
  some, List, [], ◌∷◌, ◌++◌, ltb, ◌==◌, if◌then◌else◌, length, take, drop, replicate, get_or,
  Result, ok, raised, ◌>>=◌, ◌>>◌, raise_if, value_error, overflow_error, same_text,
}
use virtual_phone.Bytes.{Bytes}

-- `x ^ y` on numbers of `width` bits.
unfoldable pub xor_bits : ℕ → ℕ → ℕ → ℕ
xor_bits zero a b = 0
xor_bits (suc width) a b = xor_bits width (a / 2) (b / 2) * 2 + (a + b) % 2

-- _xor; `zip` stops at the shorter one.
unfoldable pub xor : Bytes → Bytes → Bytes
unfolding xor_bits
xor (a ∷ s) (b ∷ t) = xor_bits 8 a b ∷ xor s t
xor _ _ = []

-- The byte at position `i` of the rotated block. `|` adds, since the two parts have no bit in
-- common.
unfoldable pub rotated_byte : Bytes → ℕ → ℕ → ℕ
rotated_byte block bits i =
    let n = length block in
    let src1 = (i + bits / 8) % n in
    let src2 = (i + bits / 8 + 1) % n in
    (get_or block src1 0 * 2 ^ (bits % 8) + get_or block src2 0 / 2 ^ (8 - bits % 8)) % 256

-- The loop over `range(n)`, from `i` on with `count` rounds left.
unfoldable pub rotate_from : Bytes → ℕ → ℕ → ℕ → Bytes
unfolding rotated_byte
rotate_from block bits i zero = []
rotate_from block bits i (suc count) =
    rotated_byte block bits i ∷ rotate_from block bits (suc i) count

-- _rotate
unfoldable pub rotate : Bytes → ℕ → Bytes
unfolding rotate_from
rotate block bits = if bits == 0 then block else rotate_from block bits 0 (length block)

-- The constants c1 to c5: blocks of zeros but for the last byte.
abbrev pub constant : ℕ → Bytes
constant last = replicate 15 0 ++ (last ∷ [])

-- `data[from:from + size]`
abbrev pub slice : ℕ → ℕ → Bytes → Bytes
slice from size block = take size (drop from block)

-- `int.from_bytes(octets, "big")`
unfoldable pub from_big : ℕ → Bytes → ℕ
from_big high [] = high
from_big high (b ∷ rest) = from_big (high * 256 + b) rest

-- `n.to_bytes(6, "big")`
abbrev pub to_six : ℕ → Result Bytes
to_six n =
    raise_if (not (ltb n (2 ^ 48))) overflow_error
    >> ok (
        n / 2 ^ 40 % 256
        ∷ n / 2 ^ 32 % 256
        ∷ n / 2 ^ 24 % 256
        ∷ n / 2 ^ 16 % 256
        ∷ n / 256 % 256
        ∷ n % 256
        ∷ [])

-- The keys of a USIM, with E_K for the key.
pub record Milenage : Type 0 where
  pub encrypt : Bytes → Bytes
  pub opc : Bytes

-- The constructor's checks; `cipher` is AES in ECB mode.
unfoldable pub new : (Bytes → Bytes → Bytes) → Bytes → Bytes → Result Milenage
new cipher ki opc = do
  raise_if (not (length ki == 16)) value_error
  raise_if (not (length opc == 16)) value_error
  ok (record { encrypt = cipher ki; opc = opc })

-- compute_opc; AES has keys of 16, 24 and 32 bytes and takes whole blocks only.
unfoldable pub compute_opc : (Bytes → Bytes → Bytes) → Bytes → Bytes → Result Bytes
unfolding xor
compute_opc cipher ki op = do
  raise_if (not ((length ki == 16) || (length ki == 24) || (length ki == 32))) value_error
  raise_if (not (length op % 16 == 0)) value_error
  ok (xor op (cipher ki op))

-- The vector that f2345 returns.
pub record Vector : Type 0 where
  pub res : Bytes
  pub ck : Bytes
  pub ik : Bytes
  pub ak : Bytes

-- f1 to f5* are for a RAND of 16 bytes; the callers that may have another one have the error of the
-- cipher (whole_block).
module _ (m : Milenage) where
  unfoldable pub f1_core : Bytes → Bytes → Bytes → Bytes
  unfolding xor rotate
  f1_core rand sqn amf =
      let temp = m.encrypt (xor rand m.opc) in
      let in1 = sqn ++ (amf ++ (sqn ++ amf)) in
      let rotated = rotate (xor in1 m.opc) 64 in
      xor (m.encrypt (xor (xor temp rotated) (constant 0))) m.opc

  unfoldable pub f1 : Bytes → Bytes → Bytes → Bytes
  unfolding f1_core
  f1 rand sqn amf = slice 0 8 (f1_core rand sqn amf)

  unfoldable pub f1star : Bytes → Bytes → Bytes → Bytes
  unfolding f1_core
  f1star rand sqn amf = slice 8 8 (f1_core rand sqn amf)

  -- OUT2 to OUT5, which differ in rotation and constant.
  unfoldable pub out : Bytes → ℕ → ℕ → Bytes
  unfolding xor rotate
  out rand r c =
      let temp = m.encrypt (xor rand m.opc) in
      xor (m.encrypt (xor (rotate (xor temp m.opc) r) (constant c))) m.opc

  unfoldable pub f2345 : Bytes → Vector
  unfolding out
  f2345 rand =
      let out2 = out rand 0 1 in
      record { res = slice 8 8 out2; ck = out rand 32 2; ik = out rand 64 4; ak = slice 0 6 out2 }

  unfoldable pub f5star : Bytes → Bytes
  unfolding out
  f5star rand = slice 0 6 (out rand 96 8)

  -- authenticate: nothing where the MAC differs or the sequence number is too old.
  unfoldable pub authenticate : Bytes → Bytes → ℕ → Result (Option (Bytes × Bytes × Bytes))
  unfolding f1 f2345 xor from_big
  authenticate rand autn sqn_stored =
      let v = f2345 rand in
      let sqn = xor (slice 0 6 autn) v.ak in
      let amf = slice 6 2 autn in
      let mac_a_computed = f1 rand sqn amf in
      raise_if (not (length rand == 16) || not (length autn == 16)) value_error
      >> ok (
          if not (same_text mac_a_computed (slice 8 8 autn))
          then none
          else if ltb (from_big 0 sqn) sqn_stored
          then none
          else some (v.res, v.ck, v.ik))

  -- The cipher takes whole blocks only: a RAND of 1 to 15 bytes raises.
  abbrev pub whole_block : Bytes → Result (Unit {0})
  whole_block rand = raise_if (ltb 0 (length rand) && ltb (length rand) 16) value_error

  unfoldable pub generate_auts : Bytes → ℕ → Result Bytes
  unfolding f1star f5star xor
  generate_auts rand sqn_stored = do
    sqn_bytes ← to_six sqn_stored
    whole_block rand
    let ak_star = f5star rand
    ok (xor sqn_bytes ak_star ++ f1star rand sqn_bytes (0 ∷ 0 ∷ []))

  -- gsm_authenticate: SRES and Kc.
  unfoldable pub gsm_authenticate : Bytes → Result (Bytes × Bytes)
  unfolding f2345 xor
  gsm_authenticate rand =
      let v = f2345 rand in
      whole_block rand
      >> ok (take 4 v.res, xor (xor (take 8 v.ck) (drop 8 v.ck)) (xor (take 8 v.ik) (drop 8 v.ik)))
