-- ===== src/Ringbuf/Read/Copies.antt =====
-- `ringbuf_copy_data` by the layout of the pending bytes.
use kcpev.Base.{
  ℕ, ◌+◌, ◌-◌, ◌≤◌, ◌≡◌, sym, ap, ◌∙◌, some, List, [], ◌++◌, append_assoc, append-nil, length, take,
  drop, length-append, length-take, take-append_left, take-append_right, take-append-drop,
  take_of_le, sub_size-eq, ok, arith,
}
use kcpev.Memory.{read, read_at}
use kcpev.Ringbuf.Layout.{IsValid, contents, length-contents, input_cases}
use kcpev.Ringbuf.{Ringbuf, copy_data}

-- A read of the first bytes of a piece.
pub read_prefix :
    {d : List ℕ} (pre mid post : List ℕ) (off len : ℕ)
    → d ≡ pre ++ (mid ++ post)
    → off ≡ length pre
    → len ≤ length mid
    → read d off len ≡ ok (take len mid)
read_prefix pre mid post off len e f h =
    read_at pre (take len mid) (drop len mid ++ post) off len
      (e
        ∙ ap (λ x. pre ++ (x ++ post)) (sym (take-append-drop len mid))
        ∙ ap (λ x. pre ++ x) (append_assoc (take len mid) (drop len mid) post))
      f (omega (arith, length-take len mid))

module _ {r : Ringbuf} (v : IsValid r) where
  pub copy_straight :
      (pre post : List ℕ) (len : ℕ)
      → r.d ≡ pre ++ (contents r ++ post)
      → r.o ≡ length pre
      → r.n ≡ length pre + length (contents r) + length post
      → len ≤ r.u
      → copy_data r len ≡ ok (some (take len (contents r)))
  unfolding copy_data
  copy_straight pre post len e f g h = ground (
    arith,
    read_prefix pre (contents r) post r.o len e f (omega (arith, length-contents v)),
    length-contents v,
    sub_size-eq r.n r.o,
    v,
  )

  -- Wrapped bytes are read in one piece while they lie before the end, in two beyond it.
  pub copy_wrapped :
      (back gap front : List ℕ) (len : ℕ)
      → contents r ≡ front ++ back
      → r.d ≡ back ++ (gap ++ front)
      → r.o ≡ length back + length gap
      → r.n ≡ length back + length gap + length front
      → len ≤ r.u
      → copy_data r len ≡ ok (some (take len (contents r)))
  unfolding copy_data
  copy_wrapped back gap front len e f g h fits =
      let u-eq : r.u ≡ length front + length back =
        omega (arith, length-contents v, ap length e, length-append front back) in
      let d-eq : r.d ≡ (back ++ gap) ++ (front ++ []) =
        f ∙ sym (append_assoc back gap front) ∙ ap (◌++◌ (back ++ gap)) (sym (append-nil front)) in
      let o-eq : r.o ≡ length (back ++ gap) = omega (arith, length-append back gap) in
      ground (
        arith,
        e,
        read_prefix (back ++ gap) front [] r.o len d-eq o-eq,
        read_prefix (back ++ gap) front [] r.o (length front) d-eq o-eq,
        read_prefix [] back (gap ++ front) 0 (len - length front) f,
        take_of_le (length front) front,
        take-append_left len front back,
        take-append_right len (len - length front) front back,
        input_cases r.o r.u r.n,
        sub_size-eq r.n r.o,
        sub_size-eq len (length front),
        u-eq,
        v,
      )
