-- ===== src/Base/Ints.antt =====
-- C integers. `int` results are signed; `size_t` and `uintN_t` are natural numbers with their
-- wrap-around written out.
use Prim.Native.Nat.{ℕ, ◌+◌, ◌-◌, ◌%◌, ◌^◌, ◌≤◌, ◌<◌}
use mathlib.Core.Path.{◌≡◌}
use mathlib.Core.Bool.{Bool, true, false}
use native.Mathlib.Omega.{arith}
use kcpev.Base.Tests.{ltb, ◌==◌, if◌then◌else◌}

-- `negsuc n` is -(n + 1).
pub data ℤ : Type 0 where
  pos : ℕ → ℤ
  negsuc : ℕ → ℤ

abbrev pub minus_one : ℤ
minus_one = negsuc 0

-- a == b, a >= 0 and a > 0 on `int`
abbrev pub int_eq : ℤ → ℤ → Bool
int_eq (pos a) (pos b) = a == b
int_eq (negsuc a) (negsuc b) = a == b
int_eq (pos a) (negsuc b) = false
int_eq (negsuc a) (pos b) = false

abbrev pub is_nonneg : ℤ → Bool
is_nonneg (pos a) = true
is_nonneg (negsuc a) = false

abbrev pub is_positive : ℤ → Bool
is_positive (pos a) = ltb 0 a
is_positive (negsuc a) = false

-- a non-negative `int` as a length or descriptor; 0 for a negative one
abbrev pub to_nat : ℤ → ℕ
to_nat (pos a) = a
to_nat (negsuc a) = 0

abbrev pub size_mod : ℕ
size_mod = 2 ^ 64

-- `size_t` addition and subtraction
abbrev pub add_size : ℕ → ℕ → ℕ
add_size a b = (a + b) % 2 ^ 64

abbrev pub sub_size : ℕ → ℕ → ℕ
sub_size a b = (a + 2 ^ 64 - b) % 2 ^ 64

-- the conversion of a `size_t` to `int`: the low 32 bits, in two's complement
abbrev pub to_int : ℕ → ℤ
to_int w = if ltb (w % 2 ^ 32) (2 ^ 31) then pos (w % 2 ^ 32) else negsuc (2 ^ 32 - w % 2 ^ 32 - 1)

pub add_size-eq : (a b : ℕ) → a + b < 2 ^ 64 → add_size a b ≡ a + b
add_size-eq a b h = omega arith

pub sub_size-eq : (a b : ℕ) → b ≤ a → a < 2 ^ 64 → sub_size a b ≡ a - b
sub_size-eq a b h k = omega arith
