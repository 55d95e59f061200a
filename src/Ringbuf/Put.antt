-- ===== src/Ringbuf/Put.antt =====
-- `ringbuf_put`: what it appends, and when it refuses.
mod Stored
mod Straight
mod Wrapped
use native.Mathlib.Nat.{mod-add-mod}
use native.Mathlib.Decide.{dec_le, dec_lt, ℕ_discrete}
use kcpev.Base.{
  ℕ, ◌+◌, ◌-◌, ◌%◌, ◌≤◌, ◌<◌, ◌≡◌, refl, sym, ap, ◌∙◌, inl, inr, List, [], ◌++◌, append_assoc,
  append-nil, length, take, drop, length-append, split_at, take_of_le, eq-nil_of_length, ltb, ◌==◌,
  if◌then◌else◌, pos, minus_one, add_size, add_size-eq, sub_size-eq, ok, arith, lt→ltb, take-append,
  drop-append,
}
use kcpev.Memory.{memcpy, memcpy_at}
use kcpev.Ringbuf.Layout.{
  IsValid, contents, length-contents, Layout, straight, wrapped, layout, Layout-IsValid,
  input_cases,
}
use kcpev.Ringbuf.{Ringbuf, put_contiguous, put_wrapping, put}
use kcpev.Ringbuf.Put.Stored.{stored, input_in, Stores}
use kcpev.Ringbuf.Put.Straight.{stores_straight}
use kcpev.Ringbuf.Put.Wrapped.{stores_wrapped}

module _ {r : Ringbuf} (v : IsValid r) (bytes : List ℕ) where
  stores : length bytes ≤ r.n - r.u → Stores v bytes
  stores fits = elim (layout v) [
    | straight pre post e f g ↦ stores_straight v bytes pre post e f g fits
    | wrapped back gap front e f g h ↦ stores_wrapped v bytes back gap front e f g h fits
  ]

  stored-IsValid :
      (d : List ℕ)
      → Layout d r.o r.n (contents r ++ bytes)
      → length bytes ≤ r.n - r.u
      → IsValid (stored r (length bytes) d)
        × (contents (stored r (length bytes) d) ≡ contents r ++ bytes)
  stored-IsValid d l fits =
      Layout-IsValid (stored r (length bytes) d) (contents r ++ bytes) l
        (omega (
          arith,
          add_size-eq r.u (length bytes),
          length-append (contents r) bytes,
          length-contents v,
          v,
        ))
        v.nonempty v.small v.output_in
        (ap (λ x. x % r.n) (add_size-eq r.i (length bytes) (omega (arith, input_in v bytes, v)))
          ∙ ap (λ x. (x + length bytes) % r.n) v.input_at
          ∙ mod-add-mod (r.o + r.u) r.n (length bytes)
          ∙ ap (λ x. x % r.n) (omega (arith, add_size-eq r.u (length bytes) (omega (arith, v)))))

-- On a valid ring with free space for the bytes, `ringbuf_put` succeeds without a fault, keeps the ring
-- valid and of its size, and appends exactly those bytes to the pending ones.
pub put_appends :
    {r : Ringbuf} (bytes : List ℕ)
    → IsValid r
    → length bytes ≤ r.n - r.u
    → (r' : Ringbuf) × (put r bytes ≡ ok (pos 0, r'))
      × IsValid r'
      × (contents r' ≡ contents r ++ bytes)
      × (r'.n ≡ r.n)
put_appends bytes v fits =
    let (d, e, l) = stores v bytes fits in
    let (w, c) = stored-IsValid v bytes d l fits in (_, e, w, c, refl)

-- On a valid ring, bytes that do not fit in the free space make `ringbuf_put` return -1 and leave the
-- ring as it was.
pub put_refuses :
    {r : Ringbuf} (bytes : List ℕ)
    → IsValid r
    → r.n - r.u < length bytes
    → put r bytes ≡ ok (minus_one, r)
unfolding put put_contiguous put_wrapping
put_refuses {r} bytes v more = ground (
  arith,
  sub_size-eq r.n r.u,
  sub_size-eq r.o r.i,
  sub_size-eq r.n r.i,
  add_size-eq (r.n - r.i) r.o,
  input_in v bytes,
  input_cases r.o r.u r.n v.output_in v.used_in,
  v,
)
