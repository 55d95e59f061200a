-- ===== src/Ringbuf/Put/Straight.antt =====
-- `ringbuf_put` where the pending bytes do not run over the end of the memory.
use native.Mathlib.Decide.{dec_le, ℕ_discrete}
use kcpev.Base.{
  list_laws, ℕ, ◌+◌, ◌-◌, ◌≤◌, ◌<◌, ◌≡◌, refl, sym, ap, ◌∙◌, inl, inr, List, [], ◌++◌, append_assoc,
  append-nil, length, take, drop, length-append, split_at, take_of_le, eq-nil_of_length, arith,
  lt→ltb, take-append, drop-append,
}
use kcpev.Memory.{memcpy_at}
use kcpev.Ringbuf.Layout.{IsValid, contents, length-contents, straight, wrapped, input_cases}
use kcpev.Ringbuf.{Ringbuf}
use kcpev.Ringbuf.Put.Stored.{input_in, contiguous_ok, wrapping_ok, Stores, stores_nothing}

module _ {r : Ringbuf} (v : IsValid r) (bytes : List ℕ) where
  -- The bytes fit between the input position and the end.
  stores_before_end :
      (pre post : List ℕ)
      → r.d ≡ pre ++ (contents r ++ post)
      → r.o ≡ length pre
      → r.n ≡ length pre + length (contents r) + length post
      → r.i ≡ r.o + r.u
      → r.i < r.n
      → length bytes ≤ r.n - r.i
      → Stores v bytes
  stores_before_end pre post e f g at room fits =
      let (old, rest, e', f', g') =
        split_at (length bytes) post (omega (arith, length-contents v)) in
      let q : List ℕ = contents r in
      let d : List ℕ = pre ++ (q ++ bytes ++ rest) in
      (
        d,
        wrapping_ok v bytes d d (omega arith) (ground (arith, v)) (omega arith)
            (rw (take_of_le (r.n - r.i) bytes fits) (
              memcpy_at (pre ++ q) old rest bytes r.i
                (e ∙ ap (λ x. pre ++ (q ++ x)) e' ∙ sym (append_assoc pre q (old ++ rest)))
                (omega (arith, length-append pre q, length-contents v)) f' (simp list_laws)))
            (ground arith),
        straight pre rest refl f
            (omega (arith, length-append q bytes, ap length e', length-append old rest)),
      )

  -- The bytes run over the end of the memory.
  stores_over_end :
      (pre post : List ℕ)
      → r.d ≡ pre ++ (contents r ++ post)
      → r.o ≡ length pre
      → r.n ≡ length pre + length (contents r) + length post
      → r.i ≡ r.o + r.u
      → r.i < r.n
      → length bytes ≤ r.n - r.u
      → r.n - r.i < length bytes
      → Stores v bytes
  stores_over_end pre post e f g at room fits more =
      let q : List ℕ = contents r in
      let (front, back, e', f', g') =
        split_at (length post) bytes (omega (arith, length-contents v)) in
      let (old, gap, e'', f'', g'') =
        split_at (length back) pre (omega (arith, length-contents v)) in
      let d : List ℕ = pre ++ (q ++ front) in
      let d' : List ℕ = back ++ (gap ++ (q ++ front)) in
      let b-eq : r.n - r.i ≡ length front = omega (arith, length-contents v) in
      (
        d',
        wrapping_ok v bytes d d' (omega arith) (ground (arith, v, length-contents v)) fits
            (rw (ap (λ x. take (r.n - r.i) x) e', take-append (r.n - r.i) front back b-eq)
              (memcpy_at (pre ++ q) post [] front r.i
                (e
                  ∙ sym (append_assoc pre q post)
                  ∙ ap (λ x. (pre ++ q) ++ x) (sym (append-nil post)))
                (omega (arith, length-append pre q, length-contents v)) (sym f') (simp list_laws)))
            (rw
              (
                lt→ltb (r.n - r.i) (length bytes) more,
                ap (λ x. drop (r.n - r.i) x) e',
                drop-append (r.n - r.i) front back b-eq,
              )
              (memcpy_at [] old (gap ++ (q ++ front)) back 0
                (ap (λ x. x ++ (q ++ front)) e'' ∙ append_assoc old gap (q ++ front)) refl f''
                refl)),
        wrapped back gap (q ++ front) (ap (◌++◌ q) e' ∙ sym (append_assoc q front back)) refl
            (omega (arith, length-append q front, ap length e'', length-append old gap))
            (omega (arith, length-append q front, ap length e'', length-append old gap)),
      )

  -- The pending bytes end at the end of the memory: the bytes go to its start.
  stores_at_start :
      (pre post : List ℕ)
      → r.d ≡ pre ++ (contents r ++ post)
      → r.o ≡ length pre
      → r.n ≡ length pre + length (contents r) + length post
      → r.i ≡ 0
      → r.n ≤ r.o + r.u
      → 0 < r.o
      → length bytes ≤ r.n - r.u
      → Stores v bytes
  stores_at_start pre post e f g at full h fits =
      let q : List ℕ = contents r in
      let (old, gap, e', f', g') = split_at (length bytes) pre (omega (arith, length-contents v)) in
      let none_left : post ≡ [] =
        eq-nil_of_length post (omega (arith, length-contents v, v.used_in)) in
      let d : List ℕ = bytes ++ (gap ++ q) in
      (
        d,
        contiguous_ok v bytes d (omega arith) (omega (arith, length-contents v)) fits (
            memcpy_at [] old (gap ++ q) bytes r.i
              (e
                ∙ ap (λ x. pre ++ (q ++ x)) none_left
                ∙ ap (λ x. pre ++ x) (append-nil q)
                ∙ ap (λ x. x ++ q) e'
                ∙ append_assoc old gap q)
              at f' refl),
        wrapped bytes gap q refl refl (omega (arith, ap length e', length-append old gap))
            (omega (arith, ap length e', length-append old gap, ap length none_left)),
      )

  pub stores_straight :
      (pre post : List ℕ)
      → r.d ≡ pre ++ (contents r ++ post)
      → r.o ≡ length pre
      → r.n ≡ length pre + length (contents r) + length post
      → length bytes ≤ r.n - r.u
      → Stores v bytes
  stores_straight pre post e f g fits = elim (input_cases r.o r.u r.n v.output_in v.used_in) [
    | inl (room, at) ↦ elim (dec_le (length bytes) (r.n - r.i)) [
      | yes h ↦ stores_before_end pre post e f g (v.input_at ∙ at) (input_in v bytes) h
      | no h ↦
          stores_over_end pre post e f g (v.input_at ∙ at) (input_in v bytes) fits (omega arith)
    ]
    | inr (full, at) ↦ elim (ℕ_discrete r.o 0) [
      | yes h ↦ stores_nothing v bytes (omega arith)
      | no h ↦
          stores_at_start pre post e f g (omega (arith, v.input_at, length-contents v, v.used_in))
            full (omega arith) fits
    ]
  ]
