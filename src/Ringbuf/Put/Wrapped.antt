-- ===== src/Ringbuf/Put/Wrapped.antt =====
-- `ringbuf_put` where the pending bytes run over the end of the memory.
use native.Mathlib.Decide.{ℕ_discrete}
use kcpev.Base.{
  ℕ, ◌+◌, ◌-◌, ◌≤◌, ◌<◌, ◌≡◌, refl, ap, ◌∙◌, List, ◌++◌, append_assoc, length, length-append,
  split_at, arith,
}
use kcpev.Memory.{memcpy_at}
use kcpev.Ringbuf.Layout.{IsValid, contents, length-contents, wrapped, input_cases}
use kcpev.Ringbuf.{Ringbuf}
use kcpev.Ringbuf.Put.Stored.{contiguous_ok, Stores, stores_nothing}

module _ {r : Ringbuf} (v : IsValid r) (bytes : List ℕ) where
  -- The pending bytes run over the end of the memory: the bytes go to the gap.
  stores_in_gap :
      (back gap front : List ℕ)
      → contents r ≡ front ++ back
      → r.d ≡ back ++ (gap ++ front)
      → r.o ≡ length back + length gap
      → r.n ≡ length back + length gap + length front
      → r.i ≡ length back
      → 0 < length gap
      → length bytes ≤ r.n - r.u
      → Stores v bytes
  stores_in_gap back gap front e f g h at some_gap fits =
      let u-eq : r.u ≡ length front + length back =
        omega (arith, length-contents v, ap length e, length-append front back) in
      let (old, rest, e', f', g') = split_at (length bytes) gap (omega arith) in
      let d : List ℕ = (back ++ bytes) ++ (rest ++ front) in
      (
        d,
        contiguous_ok v bytes d (omega arith) (omega arith) fits (
            memcpy_at back old (rest ++ front) bytes r.i
              (f
                ∙ ap (λ x. back ++ (x ++ front)) e'
                ∙ ap (λ x. back ++ x) (append_assoc old rest front))
              at f' (append_assoc back bytes (rest ++ front))),
        wrapped (back ++ bytes) rest front (rw e (append_assoc front back bytes)) refl
            (omega (arith, ap length e', length-append old rest, length-append back bytes))
            (omega (arith, ap length e', length-append old rest, length-append back bytes)),
      )

  pub stores_wrapped :
      (back gap front : List ℕ)
      → contents r ≡ front ++ back
      → r.d ≡ back ++ (gap ++ front)
      → r.o ≡ length back + length gap
      → r.n ≡ length back + length gap + length front
      → length bytes ≤ r.n - r.u
      → Stores v bytes
  stores_wrapped back gap front e f g h fits =
      let u-eq : r.u ≡ length front + length back =
        omega (arith, length-contents v, ap length e, length-append front back) in
      elim (ℕ_discrete (length gap) 0) [
        | yes no_gap ↦ stores_nothing v bytes (omega arith)
        | no some_gap ↦
            stores_in_gap back gap front e f g h
              (ground (arith, v, input_cases r.o r.u r.n v.output_in v.used_in)) (omega arith) fits
      ]
