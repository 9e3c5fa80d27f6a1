-- ===== src/Apdu.antt =====
-- Commands and responses of the card (euicc/apdu/handler.py: APDUCommand, APDUResponse).
pub mod Files
pub mod Handler
pub mod RoundTrip
pub mod Login
use virtual_phone.Prelude.{
  ℕ, ◌%◌, Bool, true, false, ◌&&◌, List, [], ◌∷◌, ◌++◌, ◌==◌, if◌then◌else◌, length, take, drop,
  Result, ok, raised, ◌>>=◌, value_error,
}
use virtual_phone.Bytes.{Bytes, byte}

pub record Command : Type 0 where
  pub cla : ℕ
  pub ins : ℕ
  pub p1 : ℕ
  pub p2 : ℕ
  pub payload : Bytes
  pub le : ℕ

-- `raw[i] or 256`
abbrev pub expected : ℕ → ℕ
expected b = if b == 0 then 256 else b

-- What stands where Le is.
abbrev pub trailing : Bytes → ℕ
trailing [] = 0
trailing (b ∷ _) = expected b

-- APDUCommand.from_bytes
unfoldable pub command_from_bytes : Bytes → Result Command
command_from_bytes (cla ∷ ins ∷ p1 ∷ p2 ∷ []) =
    ok (record { cla = cla; ins = ins; p1 = p1; p2 = p2; payload = []; le = 0 })
command_from_bytes (cla ∷ ins ∷ p1 ∷ p2 ∷ le ∷ []) =
    ok (record { cla = cla; ins = ins; p1 = p1; p2 = p2; payload = []; le = expected le })
command_from_bytes (cla ∷ ins ∷ p1 ∷ p2 ∷ lc ∷ b ∷ body) = ok (record {
  cla = cla;
  ins = ins;
  p1 = p1;
  p2 = p2;
  payload = take lc (b ∷ body);
  le = trailing (drop lc (b ∷ body));
})
command_from_bytes _ = raised value_error

-- What follows the header in APDUCommand.to_bytes.
abbrev pub tail_bytes : Bytes → ℕ → Result Bytes
tail_bytes [] le = if le == 0 then ok [] else ok (le % 256 ∷ [])
tail_bytes (b ∷ body) le = byte (length (b ∷ body)) >>= λ lc. ok (lc ++ b ∷ body)

-- APDUCommand.to_bytes
unfoldable pub command_to_bytes : Command → Result Bytes
command_to_bytes c = do
  cla ← byte c.cla
  ins ← byte c.ins
  p1 ← byte c.p1
  p2 ← byte c.p2
  rest ← tail_bytes c.payload c.le
  ok (cla ++ (ins ++ (p1 ++ (p2 ++ rest))))

pub record Response : Type 0 where
  pub payload : Bytes
  pub sw1 : ℕ
  pub sw2 : ℕ

unfoldable pub response_to_bytes : Response → Result Bytes
response_to_bytes r = do sw1 ← byte r.sw1; sw2 ← byte r.sw2; ok (r.payload ++ (sw1 ++ sw2))

abbrev pub is_success : Response → Bool
is_success r = (r.sw1 == 0x90) && (r.sw2 == 0)
