-- ===== src/Ringbuf/Read/Consumed.antt =====
-- The layout of a ring whose oldest bytes are consumed.
use native.Mathlib.Nat.{mod-add-mod}
use kcpev.Base.{
  ℕ, ◌+◌, ◌-◌, ◌%◌, ◌≤◌, ◌≡◌, sym, ap, subst, ◌∙◌, inl, inr, List, [], ◌++◌, append_assoc, length,
  drop, length-append, split_at, drop-append, drop-append_right, eq-nil_of_length, arith,
}
use kcpev.Ringbuf.Layout.{
  IsValid, contents, length-contents, Layout, straight, wrapped, layout, input_cases,
}
use kcpev.Ringbuf.{Ringbuf}

-- The memory once `len` bytes are consumed.
module _ {r : Ringbuf} (v : IsValid r) (len : ℕ) (fits : len ≤ r.u) where
  consumed_straight :
      (pre post : List ℕ)
      → r.d ≡ pre ++ (contents r ++ post)
      → r.o ≡ length pre
      → r.n ≡ length pre + length (contents r) + length post
      → Layout r.d ((r.o + len) % r.n) r.n (drop len (contents r))
  consumed_straight pre post e f g =
      let (gone, left, e', f', g') = split_at len (contents r) (omega (arith, length-contents v)) in
      let left-eq : drop len (contents r) ≡ left =
        ap (drop len) e' ∙ drop-append len gone left (sym f') in
      let total : length (contents r) ≡ length gone + length left =
        ap length e' ∙ length-append gone left in
      subst (Layout r.d ((r.o + len) % r.n) r.n) (sym left-eq)
        (elim (input_cases r.o len r.n v.output_in (omega (arith, v.used_in))) [
          | inl (_, at) ↦
              straight (pre ++ gone) post
                (e
                  ∙ ap (λ x. pre ++ (x ++ post)) e'
                  ∙ ap (λ x. pre ++ x) (append_assoc gone left post)
                  ∙ sym (append_assoc pre gone (left ++ post)))
                (omega (arith, at, length-append pre gone)) (omega (arith, length-append pre gone))
          | inr (full, at) ↦
              let nothing : left ≡ [] = eq-nil_of_length left (omega arith) in
              straight [] r.d (ap (λ x. x ++ r.d) (sym nothing)) (omega arith)
                (omega (arith, ap length nothing, v.storage))
        ])

  consumed_wrapped :
      (back gap front : List ℕ)
      → contents r ≡ front ++ back
      → r.d ≡ back ++ (gap ++ front)
      → r.o ≡ length back + length gap
      → r.n ≡ length back + length gap + length front
      → Layout r.d ((r.o + len) % r.n) r.n (drop len (contents r))
  consumed_wrapped back gap front e f g h =
      let u-eq : r.u ≡ length front + length back =
        omega (arith, length-contents v, ap length e, length-append front back) in
      elim (input_cases r.o len r.n v.output_in (omega (arith, v.used_in))) [
        | inl (room, at) ↦
            let (gone, left, e', f', g') = split_at len front (omega arith) in
            let total : length front ≡ length gone + length left =
              ap length e' ∙ length-append gone left in
            wrapped back (gap ++ gone) left
              (ap (drop len) (e ∙ ap (λ x. x ++ back) e' ∙ append_assoc gone left back)
                ∙ drop-append len gone (left ++ back) (sym f'))
              (f
                ∙ ap (λ x. back ++ (gap ++ x)) e'
                ∙ ap (λ x. back ++ x) (sym (append_assoc gap gone left)))
              (omega (arith, at, length-append gap gone)) (omega (arith, length-append gap gone))
        | inr (over, at) ↦
            let (gone, left, e', f', g') = split_at (len - length front) back (omega arith) in
            let total : length back ≡ length gone + length left =
              ap length e' ∙ length-append gone left in
            let left-eq : drop len (contents r) ≡ left =
              ap (drop len) e
              ∙ drop-append_right len (len - length front) front back (omega arith)
              ∙ ap (drop (len - length front)) e'
              ∙ drop-append (len - length front) gone left (sym f') in
            subst (Layout r.d ((r.o + len) % r.n) r.n) (sym left-eq) (
              straight gone (gap ++ front)
                (f ∙ ap (λ x. x ++ (gap ++ front)) e' ∙ append_assoc gone left (gap ++ front))
                (omega (arith, at)) (omega (arith, length-append gap front)))
      ]

  pub consumed : Layout r.d ((r.o + len) % r.n) r.n (drop len (contents r))
  consumed = elim (layout v) [
    | straight pre post e f g ↦ consumed_straight pre post e f g
    | wrapped back gap front e f g h ↦ consumed_wrapped back gap front e f g h
  ]

  pub input_stays : r.i ≡ ((r.o + len) % r.n + (r.u - len)) % r.n
  input_stays =
      v.input_at ∙ ap (λ x. x % r.n) (omega arith) ∙ sym (mod-add-mod (r.o + len) r.n (r.u - len))
