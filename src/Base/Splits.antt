-- ===== src/Base/Splits.antt =====
-- How `take` and `drop` cut an append, and the append of a cut.
use Prim.Native.Nat.{ℕ, zero, suc, ◌+◌, ◌-◌, ◌≤◌}
use mathlib.Core.Path.{◌≡◌, refl, ap}
use mathlib.Core.List.{List, [], ◌∷◌, ◌++◌}
use native.Mathlib.Omega.{arith}
use kcpev.Base.Lists.{length, take, drop}

module _ {ℓ} {A : Type ℓ} where
  -- The cut falls at the seam.
  pub take-append : (n : ℕ) (xs ys : List A) → n ≡ length xs → take n (xs ++ ys) ≡ xs
  take-append zero [] ys h = refl
  take-append zero (x ∷ xs) ys h = absurd (omega arith)
  take-append (suc n) [] ys h = absurd (omega arith)
  take-append (suc n) (x ∷ xs) ys h = ap (◌∷◌ x) (take-append n xs ys (omega arith))

  pub drop-append : (n : ℕ) (xs ys : List A) → n ≡ length xs → drop n (xs ++ ys) ≡ ys
  drop-append zero [] ys h = refl
  drop-append zero (x ∷ xs) ys h = absurd (omega arith)
  drop-append (suc n) [] ys h = absurd (omega arith)
  drop-append (suc n) (x ∷ xs) ys h = drop-append n xs ys (omega arith)

  -- The cut falls behind the first list, or in it.
  pub take-append_right :
      (n k : ℕ) (xs ys : List A) → n ≡ length xs + k → take n (xs ++ ys) ≡ xs ++ take k ys
  take-append_right n k [] ys h = ap (λ m. take m ys) (omega arith)
  take-append_right zero k (x ∷ xs) ys h = absurd (omega arith)
  take-append_right (suc n) k (x ∷ xs) ys h = ap (◌∷◌ x) (take-append_right n k xs ys (omega arith))

  pub drop-append_right :
      (n k : ℕ) (xs ys : List A) → n ≡ length xs + k → drop n (xs ++ ys) ≡ drop k ys
  drop-append_right n k [] ys h = ap (λ m. drop m ys) (omega arith)
  drop-append_right zero k (x ∷ xs) ys h = absurd (omega arith)
  drop-append_right (suc n) k (x ∷ xs) ys h = drop-append_right n k xs ys (omega arith)

  pub take-append_left : (n : ℕ) (xs ys : List A) → n ≤ length xs → take n (xs ++ ys) ≡ take n xs
  take-append_left zero xs ys h = refl
  take-append_left (suc n) [] ys h = absurd (omega arith)
  take-append_left (suc n) (x ∷ xs) ys h = ap (◌∷◌ x) (take-append_left n xs ys (omega arith))

  pub drop-append_left :
      (n : ℕ) (xs ys : List A) → n ≤ length xs → drop n (xs ++ ys) ≡ drop n xs ++ ys
  drop-append_left zero xs ys h = refl
  drop-append_left (suc n) [] ys h = absurd (omega arith)
  drop-append_left (suc n) (x ∷ xs) ys h = drop-append_left n xs ys (omega arith)

  -- A list that is long enough splits at `n`.
  pub split_at :
      (n : ℕ) (xs : List A)
      → n ≤ length xs
      → (ys : List A) × (zs : List A) × (xs ≡ ys ++ zs)
        × (length ys ≡ n)
        × (length zs ≡ length xs - n)
  split_at zero xs h = ([], xs, refl, omega arith, omega arith)
  split_at (suc n) [] h = absurd (omega arith)
  split_at (suc n) (x ∷ xs) h =
      let (ys, zs, e, p, q) = split_at n xs (omega arith) in
      (x ∷ ys, zs, ap (◌∷◌ x) e, omega arith, omega arith)
