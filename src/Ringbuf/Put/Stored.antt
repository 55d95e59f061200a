-- ===== src/Ringbuf/Put/Stored.antt =====
-- The two branches of `ringbuf_put` where the bytes fit, over the copies that they make.
use native.Mathlib.Decide.{dec_lt}
use kcpev.Base.{
  ℕ, ◌+◌, ◌-◌, ◌%◌, ◌≤◌, ◌<◌, ◌≡◌, refl, sym, List, [], ◌++◌, append-nil, length, take, drop,
  split_at, take_of_le, eq-nil_of_length, ltb, ◌==◌, if◌then◌else◌, pos, add_size, add_size-eq,
  sub_size-eq, ok, arith,
}
use kcpev.Memory.{memcpy, memcpy_at}
use kcpev.Ringbuf.Layout.{IsValid, contents, Layout, layout, input_cases}
use kcpev.Ringbuf.{Ringbuf, put_contiguous, put_wrapping, put}

-- The ring that a successful put leaves, with the new memory.
abbrev pub stored : Ringbuf → ℕ → List ℕ → Ringbuf
stored r len d = record r { d = d; i = add_size r.i len % r.n; u = add_size r.u len }

module _ {r : Ringbuf} (v : IsValid r) (bytes : List ℕ) where
  pub input_in : r.i < r.n
  input_in = omega arith

  pub contiguous_ok :
      (d : List ℕ)
      → r.i < r.o
      → r.o - r.i ≡ r.n - r.u
      → length bytes ≤ r.n - r.u
      → memcpy r.d r.i bytes ≡ ok d
      → put r bytes ≡ ok (pos 0, stored r (length bytes) d)
  unfolding put put_contiguous
  contiguous_ok d h e fits m = ground (arith, sub_size-eq r.n r.u, sub_size-eq r.o r.i, v)

  pub wrapping_ok :
      (d d' : List ℕ)
      → r.o ≤ r.i
      → (if r.i == r.o then r.n - r.u else r.n - r.i + r.o) ≡ r.n - r.u
      → length bytes ≤ r.n - r.u
      → memcpy r.d r.i (take (r.n - r.i) bytes) ≡ ok d
      → (if ltb (r.n - r.i) (length bytes) then memcpy d 0 (drop (r.n - r.i) bytes) else ok d)
        ≡ ok d'
      → put r bytes ≡ ok (pos 0, stored r (length bytes) d')
  unfolding put put_wrapping
  wrapping_ok d d' h e fits m m' =
      ground
        (arith, sub_size-eq r.n r.u, sub_size-eq r.n r.i, add_size-eq (r.n - r.i) r.o, input_in, v)

  -- The memory after a successful put.
  abbrev pub Stores : Type 0
  Stores =
      (d : List ℕ) × (put r bytes ≡ ok (pos 0, stored r (length bytes) d))
      × Layout d r.o r.n (contents r ++ bytes)

  memcpy-nil : (off : ℕ) → off ≤ length r.d → memcpy r.d off [] ≡ ok r.d
  memcpy-nil off h =
      let (pre, post, e, f, g) = split_at off r.d h in memcpy_at pre [] post [] off e (sym f) refl e

  pub stores_nothing : length bytes ≡ 0 → Stores
  stores_nothing z =
      let e : bytes ≡ [] = eq-nil_of_length bytes z in
      let copy : memcpy r.d r.i bytes ≡ ok r.d =
        rw e (memcpy-nil r.i (omega (arith, input_in, v.storage))) in
      let split = input_cases r.o r.u r.n v.output_in v.used_in in
      (
        r.d,
        elim (dec_lt r.i r.o) [
          | yes h ↦ contiguous_ok r.d h (ground (arith, v, split)) (omega arith) copy
          | no h ↦
              wrapping_ok r.d r.d (omega arith) (ground (arith, v, split)) (omega arith)
                (rw (take_of_le (r.n - r.i) bytes (omega arith)) copy) (ground arith)
        ],
        rw (e, append-nil) (layout v),
      )
