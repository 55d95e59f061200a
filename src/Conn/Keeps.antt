-- ===== src/Conn/Keeps.antt =====
-- What every step of a body does to the state, its whole run does: one rule for each way to build a
-- body.
use kcpev.Base.{
  ◌≡◌, refl, subst, Bool, true, false, if◌then◌else◌, ℤ, pos, minus_one, Run, ok, fault, arith,
}
use kcpev.Conn.Monad.{
  Exit, next, error, crash, Body, ◌>>=◌, pure, get, modify, check, fail, crashes, call, call_void,
  returns_code, returns_void,
}

-- `P` holds of the state that `x` ends in, if it does.
abbrev pub Ends : {S A : Type 0} → (S → Type 0) → Exit S A → Type 0
Ends P (next a s) = P s
Ends P (error s) = P s
Ends P crash = Unit

-- A relation of the states before and behind a body.
pub record IsPreorder {S : Type 0} (R : S → S → Type 0) : Type 0 where
  pub same : (s : S) → R s s
  pub trans : (s t u : S) → R s t → R t u → R s u

-- Wherever the body ends, `R` holds of the states before and behind it.
pub record Keeps {S A : Type 0} (R : S → S → Type 0) (m : Body S A) : Type 0 where
  pub at : (s : S) → Ends (R s) (m s)

module _ {S : Type 0} {R : S → S → Type 0} (o : IsPreorder R) where
  Ends-moved : {B : Type 0} (s t : S) → R s t → (x : Exit S B) → Ends (R t) x → Ends (R s) x
  Ends-moved s t h (next b u) k = o.trans s t u h k
  Ends-moved s t h (error u) k = o.trans s t u h k
  Ends-moved s t h crash k = tt

  Ends-bind :
      {A B : Type 0} (f : A → Body S B) (s : S)
      → ((a : A) → Keeps R (f a))
      → (x : Exit S A) → Ends (R s) x
      → Ends (R s) (elim x [ next a s' ↦ f a s' | error s' ↦ error s' | crash ↦ crash ])
  Ends-bind f s kf (next a t) h = Ends-moved s t h (f a t) ((kf a).at t)
  Ends-bind f s kf (error t) h = h
  Ends-bind f s kf crash h = tt

  pub Keeps-bind :
      {A B : Type 0} (m : Body S A) (f : A → Body S B)
      → Keeps R m
      → ((a : A) → Keeps R (f a))
      → Keeps R (m >>= f)
  Keeps-bind m f km kf = record { at = λ s. Ends-bind f s kf (m s) (km.at s) }

  pub Keeps-get : {B : Type 0} (f : S → Body S B) → ((s : S) → Keeps R (f s)) → Keeps R (get >>= f)
  Keeps-get f k = record { at = λ s. (k s).at s }

  pub Keeps-pure : {A : Type 0} (a : A) → Keeps R (pure a)
  Keeps-pure a = record { at = λ s. o.same s }

  pub Keeps-fail : Keeps R fail
  Keeps-fail = record { at = λ s. o.same s }

  pub Keeps-crashes : {A : Type 0} → Keeps {A = A} R crashes
  Keeps-crashes = record { at = λ s. tt }

  pub Keeps-check : (b : Bool) → Keeps R (check b)
  Keeps-check true = record { at = λ s. o.same s }
  Keeps-check false = record { at = λ s. o.same s }

  pub Keeps-modify : (f : S → S) → ((s : S) → R s (f s)) → Keeps R (modify f)
  Keeps-modify f h = record { at = h }

  pub Keeps-if :
      {A : Type 0} (b : Bool) (m n : Body S A)
      → Keeps R m
      → Keeps R n
      → Keeps R (if b then m else n)
  Keeps-if true m n km kn = km
  Keeps-if false m n km kn = kn

  Ends-call :
      {A : Type 0} (s : S) (m : Run (A × S))
      → ((a : A) (t : S) → m ≡ ok (a, t) → R s t)
      → Ends (R s) (elim m as (λ _. Exit S A) [ ok (a, s') ↦ next a s' | fault ↦ crash ])
  Ends-call s (ok (a, t)) h = h a t refl
  Ends-call s fault h = tt

  pub Keeps-call :
      {A : Type 0} (f : S → Run (A × S))
      → ((s t : S) (a : A) → f s ≡ ok (a, t) → R s t)
      → Keeps R (call f)
  Keeps-call f h = record { at = λ s. Ends-call s (f s) (λ a t g. h s t a g) }

  Ends-call_void :
      (s : S) (m : Run S)
      → ((t : S) → m ≡ ok t → R s t)
      → Ends (R s) (elim m as (λ _. Exit S (Unit {0})) [ ok s' ↦ next tt s' | fault ↦ crash ])
  Ends-call_void s (ok t) h = h t refl
  Ends-call_void s fault h = tt

  pub Keeps-call_void : (f : S → Run S) → ((s t : S) → f s ≡ ok t → R s t) → Keeps R (call_void f)
  Keeps-call_void f h = record { at = λ s. Ends-call_void s (f s) (λ t g. h s t g) }

module _ {S : Type 0} (R : S → S → Type 0) (s t : S) where
  Ends-returns_code :
      (ret : ℤ) (x : Exit S (Unit {0}))
      → Ends (R s) x
      → elim x as (λ _. Run (ℤ × S)) [
        | next _ s' ↦ ok (pos 0, s')
        | error s' ↦ ok (minus_one, s')
        | crash ↦ fault
      ]
        ≡ ok (ret, t)
      → R s t
  Ends-returns_code ret (next a u) h g = subst (R s) (ground (arith, g)) h
  Ends-returns_code ret (error u) h g = subst (R s) (ground (arith, g)) h
  Ends-returns_code ret crash h g = absurd (ground (arith, g))

  pub returns_code-Keeps :
      (m : Body S (Unit {0})) (ret : ℤ) → Keeps R m → returns_code m s ≡ ok (ret, t) → R s t
  returns_code-Keeps m ret k g = Ends-returns_code ret (m s) (k.at s) g

  Ends-returns_void :
      (x : Exit S (Unit {0}))
      → Ends (R s) x
      → elim x as (λ _. Run S) [ next _ s' ↦ ok s' | error s' ↦ ok s' | crash ↦ fault ] ≡ ok t
      → R s t
  Ends-returns_void (next a u) h g = subst (R s) (ground (arith, g)) h
  Ends-returns_void (error u) h g = subst (R s) (ground (arith, g)) h
  Ends-returns_void crash h g = absurd (ground (arith, g))

  pub returns_void-Keeps : (m : Body S (Unit {0})) → Keeps R m → returns_void m s ≡ ok t → R s t
  returns_void-Keeps m k g = Ends-returns_void (m s) (k.at s) g

pub ruleset keeps_rules =
    (Keeps-get, Keeps-bind, Keeps-pure, Keeps-fail, Keeps-crashes, Keeps-check, Keeps-if)
