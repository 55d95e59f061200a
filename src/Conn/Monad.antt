-- ===== src/Conn/Monad.antt =====
-- The body of a C function with an `error` label, as `check` of src/dbg.h makes it.
use kcpev.Base.{Bool, true, false, ℤ, pos, minus_one, Run, ok, fault}

-- It goes on, jumps to the label, or faults.
pub data Exit (S A : Type 0) : Type 0 where
  next : A → S → Exit S A
  error : S → Exit S A
  crash : Exit S A

abbrev pub Body : Type 0 → Type 0 → Type 0
Body S A = S → Exit S A

infixl 5 ◌>>=◌ ◌>>◌
abbrev pub ◌>>=◌ : {S A B : Type 0} → Body S A → (A → Body S B) → Body S B
◌>>=◌ m f s = elim (m s) [ next a s' ↦ f a s' | error s' ↦ error s' | crash ↦ crash ]

abbrev pub ◌>>◌ : {S B : Type 0} → Body S (Unit {0}) → Body S B → Body S B
m >> k = m >>= λ _. k

abbrev pub pure : {S A : Type 0} → A → Body S A
pure a s = next a s

abbrev pub get : {S : Type 0} → Body S S
get s = next s s

abbrev pub modify : {S : Type 0} → (S → S) → Body S (Unit {0})
modify f s = next tt (f s)

-- `check(b, …)`
abbrev pub check : {S : Type 0} → Bool → Body S (Unit {0})
check true s = next tt s
check false s = error s

-- `goto error` and `sentinel`
abbrev pub fail : {S : Type 0} → Body S (Unit {0})
fail s = error s

-- A use of what is not there.
abbrev pub crashes : {S A : Type 0} → Body S A
crashes s = crash

-- A call of a function that returns.
abbrev pub call : {S A : Type 0} → (S → Run (A × S)) → Body S A
call f s = elim (f s) [ ok (a, s') ↦ next a s' | fault ↦ crash ]

abbrev pub call_void : {S : Type 0} → (S → Run S) → Body S (Unit {0})
call_void f s = elim (f s) [ ok s' ↦ next tt s' | fault ↦ crash ]

abbrev pub lift : {S A : Type 0} → Run A → Body S A
lift (ok a) s = next a s
lift fault s = crash

-- `return 0; error: return -1;`
abbrev pub returns_code : {S : Type 0} → Body S (Unit {0}) → S → Run (ℤ × S)
returns_code m s = elim (m s) [
  | next _ s' ↦ ok (pos 0, s')
  | error s' ↦ ok (minus_one, s')
  | crash ↦ fault
]

-- `error: return;`
abbrev pub returns_void : {S : Type 0} → Body S (Unit {0}) → S → Run S
returns_void m s = elim (m s) [ next _ s' ↦ ok s' | error s' ↦ ok s' | crash ↦ fault ]

-- `error: return -1;` where the body returns a value of its own.
abbrev pub returns_int : {S : Type 0} → Body S ℤ → S → Run (ℤ × S)
returns_int m s = elim (m s) [
  | next a s' ↦ ok (a, s')
  | error s' ↦ ok (minus_one, s')
  | crash ↦ fault
]
