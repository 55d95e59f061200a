-- ===== src/Base/Outcome.antt =====
-- The outcome of a C computation: a value, or a fault. A fault is a failed `assert`, an access
-- outside an object, a division by zero or a use of a freed object.
use mathlib.Core.Bool.{Bool, true, false}

pub data Run {ℓ} (A : Type ℓ) : Type ℓ where
  ok : A → Run A
  fault : Run A

infixl 5 ◌>>=◌
abbrev pub ◌>>=◌ {ℓ κ} : {A : Type ℓ} {B : Type κ} → Run A → (A → Run B) → Run B
fault >>= rest = fault
ok x >>= rest = rest x

-- A step without a value.
infixl 5 ◌>>◌
abbrev pub ◌>>◌ {ℓ} : {A : Type ℓ} → Run (Unit {0}) → Run A → Run A
step >> rest = step >>= λ _. rest

-- `assert(b)`
abbrev pub assert : Bool → Run (Unit {0})
assert true = ok tt
assert false = fault
