-- ===== src/Apdu/RoundTrip.antt =====
-- Writing and reading commands (euicc/apdu/handler.py: APDUCommand).
use virtual_phone.Prelude.{
  ℕ, suc, ◌%◌, ◌<◌, ◌≤◌, ◌≡◌, refl, false, [], ◌∷◌, ◌==◌, lt→ltb, if◌then◌else◌, length, take_all,
  drop_all, ==_iff, arith, Bool-cases, inl, inr, ok, ◌>>=◌,
}
use virtual_phone.Bytes.{Bytes}
use virtual_phone.Texts.{is_empty}
use virtual_phone.Apdu.{Command, expected, command_from_bytes, tail_bytes, command_to_bytes}

-- The fields fit their bytes; an Le of 256 is written as 0.
pub record IsCommand (c : Command) : Type 0 where
  pub cla_byte : c.cla < 256
  pub ins_byte : c.ins < 256
  pub p1_byte : c.p1 < 256
  pub p2_byte : c.p2 < 256
  pub payload_size : length c.payload < 256
  pub le_size : c.le ≤ 256

expected-byte : (le : ℕ) → le ≤ 256 → (le == 0) ≡ false → expected (le % 256) ≡ le
expected-byte le small set = ground arith

-- A command is read back as it was written, but a command with data loses its Le; the fields fit
-- their bytes, and Le is 256 at most.
pub command_from_bytes-to_bytes :
    (c : Command)
    → IsCommand c
    → (command_to_bytes c >>= command_from_bytes)
      ≡ ok (record c { le = if is_empty c.payload then c.le else 0 })
unfolding command_to_bytes command_from_bytes
command_from_bytes-to_bytes c h =
    rw
      (
        lt→ltb c.cla 256 h.cla_byte,
        lt→ltb c.ins 256 h.ins_byte,
        lt→ltb c.p1 256 h.p1_byte,
        lt→ltb c.p2 256 h.p2_byte,
      )
      (body c.cla c.ins c.p1 c.p2 c.payload c.le h.payload_size h.le_size)
  where
    body :
        (cla ins p1 p2 : ℕ) (payload : Bytes) (le : ℕ)
        → length payload < 256
        → le ≤ 256
        → ((tail_bytes payload le >>= λ rest. ok (cla ∷ ins ∷ p1 ∷ p2 ∷ rest))
            >>= command_from_bytes)
          ≡ ok (record {
            cla = cla;
            ins = ins;
            p1 = p1;
            p2 = p2;
            payload = payload;
            le = if is_empty payload then le else 0;
          })
    body cla ins p1 p2 [] le size small = elim (Bool-cases (le == 0)) [
      | inl unset ↦ let zero_le : le ≡ 0 = (==_iff le 0).0 unset in rw zero_le refl
      | inr set ↦ rw (set, expected-byte le small set) refl
    ]
    body cla ins p1 p2 (b ∷ rest) le size small =
        rw
          (
            lt→ltb (suc (length rest)) 256 size,
            take_all (length rest) rest (omega arith),
            drop_all (length rest) rest (omega arith),
          )
          refl
