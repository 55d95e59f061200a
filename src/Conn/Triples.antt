-- ===== src/Conn/Triples.antt =====
-- Bodies step by step: what holds before, behind, and where the body jumps to its label.
use kcpev.Base.{
  ◌≡◌, refl, Bool, true, false, subst, ℤ, pos, negsuc, is_nonneg, Run, ok, fault, arith,
}
use kcpev.Conn.Monad.{
  Exit, next, error, crash, Body, ◌>>=◌, ◌>>◌, pure, get, modify, check, call, returns_code,
}

abbrev pub Outcome : {S A : Type 0} → (A → S → Type 0) → (S → Type 0) → Exit S A → Type 0
Outcome Q E (next a s) = Q a s
Outcome Q E (error s) = E s
Outcome Q E crash = Unit

-- From a state with `P` the body goes on in one with `Q`, jumps in one with `E`, or faults.
pub record Triple {S A : Type 0} (P : S → Type 0) (m : Body S A) (Q : A → S → Type 0)
    (E : S → Type 0) : Type 0 where
  pub at : (s : S) → P s → Outcome Q E (m s)

module _ {S : Type 0} {P E : S → Type 0} where
  pub Triple-bind :
      {A B : Type 0} {R : B → S → Type 0} (Q : A → S → Type 0) (m : Body S A) (f : A → Body S B)
      → Triple P m Q E
      → ((a : A) → Triple (Q a) (f a) R E)
      → Triple P (m >>= f) R E
  Triple-bind {A} {B} {R} Q m f tm tf = record { at = λ s p. go (m s) (tm.at s p) }
    where
      go :
          (x : Exit S A)
          → Outcome Q E x
          → Outcome R E (elim x as (λ _. Exit S B) [
            | next a s' ↦ f a s'
            | error s' ↦ error s'
            | crash ↦ crash
          ])
      go (next a s) q = (tf a).at s q
      go (error s) q = q
      go crash q = tt

  pub Triple-check :
      (b : Bool)
      → ((s : S) → P s → b ≡ false → E s)
      → Triple P (check b) (λ _ s. P s × (b ≡ true)) E
  Triple-check true h = record { at = λ s p. (p, refl) }
  Triple-check false h = record { at = λ s p. h s p refl }

  pub Triple-modify :
      {Q : S → Type 0} (f : S → S) → ((s : S) → P s → Q (f s)) → Triple P (modify f) (λ _ s. Q s) E
  Triple-modify f h = record { at = h }

  pub Triple-get : Triple P get (λ a s. P s × (a ≡ s)) E
  Triple-get = record { at = λ s p. (p, refl) }

  pub Triple-call :
      {A : Type 0} {Q : A → S → Type 0} (f : S → Run (A × S))
      → ((s t : S) (a : A) → P s → f s ≡ ok (a, t) → Q a t)
      → Triple P (call f) Q E
  Triple-call {A} {Q} f h = record { at = λ s p. go s p (f s) refl }
    where
      go :
          (s : S)
          → P s
          → (m : Run (A × S)) → f s ≡ m
          → Outcome Q E (elim m as (λ _. Exit S A) [ ok (a, s') ↦ next a s' | fault ↦ crash ])
      go s p (ok (a, t)) g = h s t a p g
      go s p fault g = tt

  pub Triple-pure :
      {A : Type 0} {Q : A → S → Type 0} (a : A) → ((s : S) → P s → Q a s) → Triple P (pure a) Q E
  Triple-pure a h = record { at = h }

  -- `check(b, …)` before the rest
  pub Triple-guard :
      {A : Type 0} {R : A → S → Type 0} (b : Bool) (rest : Body S A)
      → ((s : S) → P s → E s)
      → Triple P rest R E
      → Triple P (check b >> rest) R E
  Triple-guard true rest fails tr = record { at = tr.at }
  Triple-guard false rest fails tr = record { at = fails }

-- `ret = f(…); check(ret >= 0, …)`, and what comes behind it.
module _ {S : Type 0} {P Q E : S → Type 0} (f : S → Run (ℤ × S))
    (returns : (s t : S) (ret : ℤ)
      → P s
      → f s ≡ ok (ret, t)
      → (is_nonneg ret ≡ true → Q t) × (is_nonneg ret ≡ false → E t)) where
  abbrev Tested : ℤ → S → Type 0
  Tested ret s = (is_nonneg ret ≡ true → Q s) × (is_nonneg ret ≡ false → E s)

  check-Tested : (ret : ℤ) → Triple (Tested ret) (check (is_nonneg ret)) (λ _. Q) E
  check-Tested (pos n) = record { at = λ s q. q.0 refl }
  check-Tested (negsuc n) = record { at = λ s q. q.1 refl }

  rest-Tested :
      {A : Type 0} {R : A → S → Type 0} (rest : Body S A)
      → Triple Q rest R E
      → (ret : ℤ) → Triple (Tested ret) (check (is_nonneg ret) >> rest) R E
  rest-Tested rest tr (pos n) = record { at = λ s q. tr.at s (q.0 refl) }
  rest-Tested rest tr (negsuc n) = record { at = λ s q. q.1 refl }

  pub Triple-tested : Triple P (do ret ← call f; check (is_nonneg ret)) (λ _. Q) E
  Triple-tested =
      Triple-bind Tested (call f) (λ ret. check (is_nonneg ret)) (Triple-call f returns)
        check-Tested

  pub Triple-then :
      {A : Type 0} {R : A → S → Type 0} (rest : Body S A)
      → Triple Q rest R E
      → Triple P (do ret ← call f; check (is_nonneg ret); rest) R E
  Triple-then rest tr =
      Triple-bind Tested (call f) (λ ret. check (is_nonneg ret) >> rest) (Triple-call f returns)
        (rest-Tested rest tr)

module _ {S : Type 0} {P Q E : S → Type 0} (f : S → Run (ℤ × S)) where
  -- What holds whatever the result is.
  pub always :
      ((s t : S) (ret : ℤ) → P s → f s ≡ ok (ret, t) → Q t)
      → ((s : S) → Q s → E s)
      → (s t : S) (ret : ℤ) → P s
      → f s ≡ ok (ret, t)
      → (is_nonneg ret ≡ true → Q t) × (is_nonneg ret ≡ false → E t)
  always h fails s t ret p g = (λ _. h s t ret p g, λ _. fails t (h s t ret p g))

module _ {S : Type 0} {P Q : S → Type 0} (f : S → Run (ℤ × S)) where
  -- What holds of a good result, where the other does not matter.
  pub when_good :
      ((s t : S) (ret : ℤ) → P s → f s ≡ ok (ret, t) → is_nonneg ret ≡ true → Q t)
      → (s t : S) (ret : ℤ) → P s
      → f s ≡ ok (ret, t)
      → (is_nonneg ret ≡ true → Q t) × (is_nonneg ret ≡ false → Unit {0})
  when_good h s t ret p g = (λ good. h s t ret p g good, λ _. tt)

-- Behind `return 0; error: return -1;` what holds in both.
pub returns_code-Triple :
    {S : Type 0} {P Q : S → Type 0} (m : Body S (Unit {0}))
    → Triple P m (λ _. Q) Q
    → (s t : S) (ret : ℤ) → P s
    → returns_code m s ≡ ok (ret, t)
    → Q t
returns_code-Triple {Q} m tm s t ret p h = go (m s) refl (tm.at s p)
  where
    go : (x : Exit _ (Unit {0})) → m s ≡ x → Outcome (λ _. Q) Q x → Q t
    go (next a u) g q = subst Q (ground (arith, g)) q
    go (error u) g q = subst Q (ground (arith, g)) q
    go crash g q = absurd (ground (arith, g))
