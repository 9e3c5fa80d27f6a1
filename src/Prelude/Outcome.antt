-- ===== src/Prelude/Outcome.antt =====
-- The result of code that may raise: a value, or the class of the exception.

use mathlib.Core.Bool.{Bool, true, false}
use mathlib.Core.Option.{Option, none, some}

-- The exception classes that the modelled code raises.
pub data Error : Type 0 where
  value_error index_error key_error struct_error runtime_error memory_error overflow_error
        attribute_error :
      Error

pub data Result {ℓ} (A : Type ℓ) : Type ℓ where
  raised : Error → Result A
  ok : A → Result A

-- The rest of a computation runs only if nothing was raised.
infixl 5 ◌>>◌ ◌>>=◌
abbrev pub ◌>>◌ {κ} : {B : Type κ} → Result (Unit {0}) → Result B → Result B
raised error >> rest = raised error
ok _ >> rest = rest

abbrev pub ◌>>=◌ {κ ℓ} : {A : Type κ} {B : Type ℓ} → Result A → (A → Result B) → Result B
raised error >>= rest = raised error
ok value >>= rest = rest value

-- `if bad: raise e`
abbrev pub raise_if : Bool → Error → Result (Unit {0})
raise_if true e = raised e
raise_if false e = ok tt

-- What a missing value raises.
abbrev pub or_raise {ℓ} : {A : Type ℓ} → Option A → Error → Result A
or_raise none e = raised e
or_raise (some a) e = ok a
