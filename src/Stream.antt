-- ===== src/Stream.antt =====
-- The reassembly of packets from the TCP stream in src/kcpev.c: `on_tcp_recv`, `get_tcp_buf_chunk`,
-- and the loop that `client_tcp_recv` and `server_tcp_recv` share. Of the connection these use
-- `tcp.rb` alone, a ring or NULL, and the packet handlers never touch it.
pub mod Chunk
pub mod Store
pub mod Grow
pub mod Frames
pub mod Refine
pub mod Pieces
pub mod Segments
pub mod Stall
pub mod Preserve
mod Tests
use kcpev.Base.{
  ℕ, zero, suc, ◌+◌, ◌-◌, ◌^◌, Bool, true, false, Option, none, some, List, [], ◌∷◌, ltb, leb, ◌==◌,
  if◌then◌else◌, length, take, ℤ, pos, minus_one, int_eq, is_positive, to_int, Run, ok, fault,
  ◌>>=◌,
}
use kcpev.Ringbuf.{Ringbuf}
use kcpev.Ringbuf
use kcpev.Header.{Header, header_size, buffer_size, header_from_net}

-- (size_t)-1
abbrev pub size_error : ℕ
size_error = 2 ^ 64 - 1

pub no_pending : Option Ringbuf → Bool
no_pending none = true
no_pending (some r) = Ringbuf.get_pending_size r == 0

-- What `on_tcp_recv` finds when nothing is pending: one whole packet, or not.
pub data Look : Type 0 where
  whole unread partial : Look

pub first_look : List ℕ → Look
first_look bytes =
    if ltb (length bytes) header_size then partial else elim (header_from_net bytes) [
      | none ↦ unread
      | some h ↦ if h.size == length bytes then whole else partial
    ]

-- The `while` loop of `on_tcp_recv`, from the full ring to the new one. `none`: a put failed. Each
-- round consumes a byte at least, so one round more than the pending bytes is enough. A chunk is
-- shorter than 2 ^ 31, so `int size` holds its length.
pub move_chunks : ℕ → Ringbuf → Ringbuf → Run (Ringbuf × Option Ringbuf)
move_chunks zero r new_r = fault
move_chunks (suc fuel) r new_r = do
  chunk ← Ringbuf.get_next_chunk r
  elim chunk [
    | [] ↦ ok (r, some new_r)
    | x ∷ xs ↦ do
      (ret, new_r') ← Ringbuf.put new_r (x ∷ xs)
      elim (int_eq ret minus_one) [
        | true ↦ ok (r, none)
        | false ↦ do r' ← Ringbuf.mark_consumed r (length (x ∷ xs)); move_chunks fuel r' new_r'
      ]
  ]

-- The branch for a full ring. The new ring is given up at the end: `tcp->rb` stays the old one.
pub grow : (ℕ → Option (List ℕ)) → Ringbuf → Run (ℕ × Option Ringbuf)
grow alloc r = elim (Ringbuf.new (alloc (r.n + buffer_size)) (r.n + buffer_size)) [
  | none ↦ ok (size_error, some r)
  | some new_r ↦ do
    (r', moved) ← move_chunks (r.u + 1) r new_r
    elim moved [ none ↦ ok (size_error, some r') | some _ ↦ ok (0, some r') ]
]

pub store : (ℕ → Option (List ℕ)) → Ringbuf → List ℕ → Run (ℕ × Option Ringbuf)
store alloc r bytes = do
  (ret, r') ← Ringbuf.put r bytes
  if int_eq ret minus_one then grow alloc r' else ok (0, some r')

pub store_new : (ℕ → Option (List ℕ)) → Option Ringbuf → List ℕ → Run (ℕ × Option Ringbuf)
store_new alloc (some r) bytes = store alloc r bytes
store_new alloc none bytes = elim (Ringbuf.new (alloc buffer_size) buffer_size) [
  | none ↦ ok (size_error, none)
  | some r ↦ store alloc r bytes
]

-- `alloc` is `malloc`, by the number of bytes for the ring's memory. The result is the return value,
-- a `size_t`, and `tcp->rb`.
pub on_tcp_recv : (ℕ → Option (List ℕ)) → Option Ringbuf → List ℕ → Run (ℕ × Option Ringbuf)
on_tcp_recv alloc rb bytes = elim (if no_pending rb then first_look bytes else partial) [
  | whole ↦ ok (length bytes, rb)
  | unread ↦ ok (size_error, rb)
  | partial ↦ store_new alloc rb bytes
]

-- The part of `get_tcp_buf_chunk` behind the size checks. `ret_data` has `len` bytes; a copy of more
-- overruns it.
pub take_chunk : ℕ → Ringbuf → Header → Run (List ℕ × Option Ringbuf)
take_chunk len r h =
    if leb h.size (Ringbuf.get_pending_size r)
    then (do
      out ← Ringbuf.copy_data r h.size
      elim out [
        | none ↦ ok ([], some r)
        | some bytes ↦
            if ltb len h.size
            then fault
            else do r' ← Ringbuf.mark_consumed r h.size; ok (bytes, some r')
      ])
    else ok ([], some r)

pub read_chunk : ℕ → Ringbuf → Run (List ℕ × Option Ringbuf)
read_chunk len r = if ltb (Ringbuf.get_pending_size r) header_size then ok ([], some r) else do
  out ← Ringbuf.copy_data r header_size
  elim out [
    | none ↦ ok ([], some r)
    | some bytes ↦ elim (header_from_net bytes) [ none ↦ fault | some h ↦ take_chunk len r h ]
  ]

-- The bytes that `ret_data` and the returned length describe: none for the result 0.
pub get_tcp_buf_chunk : ℕ → Option Ringbuf → Run (List ℕ × Option Ringbuf)
get_tcp_buf_chunk len none = ok ([], none)
get_tcp_buf_chunk len (some r) = if ltb len header_size then ok ([], some r) else read_chunk len r

pub pending : Option Ringbuf → ℕ
pending none = 0
pending (some r) = r.u

-- `handle` is `on_client_recv` or `on_server_recv` over a state of the caller's.
module _ {S : Type 0} (handle : S → List ℕ → Run (ℤ × S)) where
  -- `while((len = get_tcp_buf_chunk(…)))`; one round more than the pending bytes is enough.
  unfoldable pub chunk_loop : ℕ → Option Ringbuf → S → Run (ℤ × Option Ringbuf × S)
  chunk_loop zero rb s = fault
  chunk_loop (suc fuel) rb s = do
    (chunk, rb') ← get_tcp_buf_chunk buffer_size rb
    elim chunk [
      | [] ↦ ok (pos 0, rb', s)
      | x ∷ xs ↦ do
        (ret, s') ← handle s (x ∷ xs)
        elim (int_eq ret (pos 0)) [
          | true ↦ chunk_loop fuel rb' s'
          | false ↦ ok (minus_one, rb', s')
        ]
    ]

  -- What `client_tcp_recv` and `server_tcp_recv` do with the bytes of one `recv`; -1 is a jump to
  -- their error label. The return value of `on_tcp_recv` passes through an `int`.
  unfoldable pub tcp_recv :
      (ℕ → Option (List ℕ)) → Option Ringbuf → S → List ℕ → Run (ℤ × Option Ringbuf × S)
  unfolding pending
  tcp_recv alloc rb s bytes = do
    (len, rb') ← on_tcp_recv alloc rb bytes
    if is_positive (to_int len)
        then (do
          (ret, s') ← handle s (take len bytes)
          if int_eq ret (pos 0)
              then chunk_loop (pending rb' + 1) rb' s'
              else ok (minus_one, rb', s'))
        else chunk_loop (pending rb' + 1) rb' s
