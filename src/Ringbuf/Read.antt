-- ===== src/Ringbuf/Read.antt =====
-- `ringbuf_copy_data`, `ringbuf_get_next_chunk`, `ringbuf_mark_consumed`, `ringbuf_clear` and
-- `ringbuf_new` against the pending bytes.
mod Copies
mod Consumed
use native.Mathlib.Nat.{mod-lt, mod-add-mod}
use native.Mathlib.Decide.{dec_le}
use kcpev.Base.{
  ℕ, ◌+◌, ◌-◌, ◌%◌, ◌^◌, ◌≤◌, ◌<◌, ◌≡◌, refl, sym, ap, ap₂, subst, ◌∙◌, inl, inr, none, some, List,
  [], ◌++◌, append_assoc, append-nil, length, take, drop, length-append, length-take, length-drop,
  split_at, take-append, drop-append, take-append_left, take-append_right, drop-append_right,
  take-append-drop, take_of_le, eq-nil_of_length, ltb, if◌then◌else◌, add_size, sub_size,
  add_size-eq, sub_size-eq, ok, fault, arith,
}
use kcpev.Memory.{read, read_at}
use kcpev.Ringbuf.Layout.{
  IsValid, contents, length-contents, Layout, straight, wrapped, layout, Layout-IsValid,
  input_cases,
}
use kcpev.Ringbuf.{Ringbuf, new, get_pending_size, get_next_chunk, mark_consumed, clear, copy_data}
use kcpev.Ringbuf.Read.Copies.{read_prefix, copy_straight, copy_wrapped}
use kcpev.Ringbuf.Read.Consumed.{consumed, input_stays}

-- On a valid ring `ringbuf_copy_data` copies the oldest `len` bytes, or returns -1 if fewer are
-- pending; it never reads outside the memory.
pub copy_data_lem :
    {r : Ringbuf} (len : ℕ)
    → IsValid r
    → copy_data r len ≡ ok (if ltb r.u len then none else some (take len (contents r)))
copy_data_lem {r} len v = elim (dec_le len r.u) [
  | yes h ↦
      (elim (layout v) [
        | straight pre post e f g ↦ copy_straight v pre post len e f g h
        | wrapped back gap front e f g k ↦ copy_wrapped v back gap front len e f g k h
      ])
      ∙ ground arith
  | no h ↦ copy_few h
]
  where
    copy_few :
        ¬ (len ≤ r.u)
        → copy_data r len ≡ ok (if ltb r.u len then none else some (take len (contents r)))
    copy_few h = unfold copy_data in ground arith

-- On a valid ring `ringbuf_get_next_chunk` gives the pending bytes up to the end of the memory: all of
-- them, or the part before the wrap; its assertions hold and it reads inside the memory.
pub get_next_chunk_lem :
    {r : Ringbuf} → IsValid r → get_next_chunk r ≡ ok (take (r.n - r.o) (contents r))
unfolding get_next_chunk
get_next_chunk_lem {r} v = elim (layout v) [
  | straight pre post e f g ↦ ground (
    arith,
    read_at pre (contents r) post r.o r.u e f (sym (length-contents v)),
    read_prefix pre (contents r) post r.o (r.n - r.o) e f,
    take_of_le (r.n - r.o) (contents r),
    length-contents v,
    eq-nil_of_length (contents r),
    sub_size-eq r.n r.o,
    sub_size-eq r.i r.o,
    add_size-eq (r.n - r.o) r.i,
    input_cases r.o r.u r.n,
    v,
  )
  | wrapped back gap front e f g h ↦ ground (
    arith,
    e,
    read_at (back ++ gap) front [] r.o (r.n - r.o)
        (f ∙ sym (append_assoc back gap front) ∙ ap (◌++◌ (back ++ gap)) (sym (append-nil front))),
    take-append (r.n - r.o) front back,
    length-append back gap,
    length-append front back,
    length-contents v,
    sub_size-eq r.n r.o,
    sub_size-eq r.i r.o,
    add_size-eq (r.n - r.o) r.i,
    input_cases r.o r.u r.n,
    v,
  )
]

-- On a valid ring `ringbuf_mark_consumed` drops the oldest `len` bytes and keeps the ring valid and of
-- its size, if that many are pending; if not, its assertion fails.
pub mark_consumed_lem :
    {r : Ringbuf} (len : ℕ)
    → IsValid r
    → (len ≤ r.u
        → (r' : Ringbuf) × (mark_consumed r len ≡ ok r')
          × IsValid r'
          × (contents r' ≡ drop len (contents r))
          × (r'.n ≡ r.n))
      × (r.u < len → mark_consumed r len ≡ fault)
mark_consumed_lem {r} len v = (drops, fails)
  where
    next : Ringbuf
    next = record r { o = add_size r.o len % r.n; u = sub_size r.u len }

    drops :
        len ≤ r.u
        → (r' : Ringbuf) × (mark_consumed r len ≡ ok r')
          × IsValid r'
          × (contents r' ≡ drop len (contents r))
          × (r'.n ≡ r.n)
    drops h =
        let o-eq = add_size-eq r.o len (omega (arith, v)) in
        let u-eq = sub_size-eq r.u len h (omega (arith, v)) in
        let (w, c) =
          Layout-IsValid next (drop len (contents r))
            (subst (λ x. Layout r.d (x % r.n) r.n (drop len (contents r))) (sym o-eq)
              (consumed v len h))
            (omega (arith, u-eq, length-drop len (contents r), length-contents v)) v.nonempty
            v.small (mod-lt (add_size r.o len) v.nonempty)
            (input_stays v len h ∙ ap₂ (λ x y. (x % r.n + y) % r.n) (sym o-eq) (sym u-eq)) in
        (next, unfold mark_consumed in ground (arith, v), w, c, refl)

    fails : r.u < len → mark_consumed r len ≡ fault
    fails h = unfold mark_consumed in ground arith

-- A new ring of a positive size is valid and empty.
pub new-IsValid :
    (memory : List ℕ) (sz : ℕ)
    → 0 < sz
    → sz ≤ 2 ^ 63
    → length memory ≡ sz
    → (r : Ringbuf) × (new (some memory) sz ≡ some r) × IsValid r × (contents r ≡ []) × (r.n ≡ sz)
unfolding new
new-IsValid memory sz h k m =
    (record { n = sz; u = 0; i = 0; o = 0; d = memory }, refl, ground arith, refl, refl)

pub clear-IsValid : {r : Ringbuf} → IsValid r → IsValid (clear r) × (contents (clear r) ≡ [])
unfolding clear
clear-IsValid v = ground (arith, v)

pub get_pending_size_lem : {r : Ringbuf} → IsValid r → get_pending_size r ≡ length (contents r)
unfolding get_pending_size
get_pending_size_lem v = sym (length-contents v)
