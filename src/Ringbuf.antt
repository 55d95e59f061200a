-- ===== src/Ringbuf.antt =====
-- The functions of src/kcpev_ringbuf.c. One that updates `*r` returns the new ring beside its
-- result. The modules below prove what a client may know of them.
pub mod Layout
pub mod Put
pub mod Read
pub mod Refine
mod Tests
use kcpev.Base.{
  ℕ, ◌+◌, ◌-◌, ◌%◌, Bool, true, false, ◌&&◌, ◌||◌, Option, none, some, List, [], ◌++◌, ltb, leb,
  ◌==◌, if◌then◌else◌, length, take, drop, ℤ, pos, minus_one, add_size, sub_size, Run, ok, fault,
  ◌>>=◌, ◌>>◌, assert,
}
use kcpev.Memory.{memcpy, read}

-- `ringbuf`: the allocated size, the used space, the input and output positions, the bytes.
pub record Ringbuf : Type 0 where
  pub n : ℕ
  pub u : ℕ
  pub i : ℕ
  pub o : ℕ
  pub d : List ℕ

-- `memory` is what `malloc` returns for the flexible array: bytes of any content, or NULL.
pub new : (memory : Option (List ℕ)) → (sz : ℕ) → Option Ringbuf
new none sz = none
new (some bytes) sz = some (record { n = sz; u = 0; i = 0; o = 0; d = bytes })

-- `r->i = (r->i + len) % r->n; r->u += len;` a modulus of 0 is a division by zero
advance_input : Ringbuf → ℕ → Run Ringbuf
advance_input r len =
    if r.n == 0 then fault else ok (record r { i = add_size r.i len % r.n; u = add_size r.u len })

-- The available space is a contiguous buffer.
put_contiguous : Ringbuf → List ℕ → Run (ℤ × Ringbuf)
unfolding advance_input
put_contiguous r bytes =
    let a = sub_size r.o r.i in
    do
      assert (a == sub_size r.n r.u)
      if ltb a (length bytes) then ok (minus_one, r) else do
        d ← memcpy r.d r.i bytes
        r' ← advance_input (record r { d = d }) (length bytes)
        ok (pos 0, r')

-- The available space wraps: it is two buffers.
put_wrapping : Ringbuf → List ℕ → Run (ℤ × Ringbuf)
unfolding advance_input
put_wrapping r bytes =
    let b = sub_size r.n r.i in
    let a = if r.i == r.o then sub_size r.n r.u else add_size b r.o in
    do
      assert (a == sub_size r.n r.u)
      if ltb a (length bytes) then ok (minus_one, r) else do
        d ← memcpy r.d r.i (take b bytes)
        d' ← (if ltb b (length bytes) then memcpy d 0 (drop b bytes) else ok d)
        r' ← advance_input (record r { d = d' }) (length bytes)
        ok (pos 0, r')

pub put : Ringbuf → List ℕ → Run (ℤ × Ringbuf)
unfolding put_contiguous put_wrapping
put r bytes = if ltb r.i r.o then put_contiguous r bytes else put_wrapping r bytes

pub get_pending_size : Ringbuf → ℕ
get_pending_size r = r.u

-- The chunk that `*data` and the returned length describe.
pub get_next_chunk : Ringbuf → Run (List ℕ)
get_next_chunk r =
    if ltb r.o r.i
    then (do assert (r.u == sub_size r.i r.o); read r.d r.o r.u)
    else if (r.o == r.i) && (r.u == 0)
    then ok []
    else do let b = sub_size r.n r.o; assert (r.u == add_size b r.i); read r.d r.o b

pub mark_consumed : Ringbuf → ℕ → Run Ringbuf
mark_consumed r len = do
  assert (leb len r.u)
  if r.n == 0 then fault else ok (record r { o = add_size r.o len % r.n; u = sub_size r.u len })

pub clear : Ringbuf → Ringbuf
clear r = record r { u = 0; i = 0; o = 0 }

-- The bytes that go through `data`; `none` is the result -1.
pub copy_data : Ringbuf → ℕ → Run (Option (List ℕ))
copy_data r len =
    let b = sub_size r.n r.o in
    if ltb r.u len
    then ok none
    else if ltb r.o r.i || leb len b
    then (do bytes ← read r.d r.o len; ok (some bytes))
    else do head ← read r.d r.o b; tail ← read r.d 0 (sub_size len b); ok (some (head ++ tail))
