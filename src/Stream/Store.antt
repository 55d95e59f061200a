-- ===== src/Stream/Store.antt =====
-- `on_tcp_recv` while the ring has room: it either finds one whole packet, or keeps the bytes.
use kcpev.Base.{
  ℕ, ◌+◌, ◌≤◌, ◌≡◌, ◌≢◌, refl, sym, ap, ◌∙◌, inl, inr, Bool-cases, true, Option, none, some, List,
  [], ◌++◌, ltb, length, take_of_le, eq-nil_of_length, Run, ok, arith,
}
use kcpev.Ringbuf.{Ringbuf}
use kcpev.Ringbuf.Layout.{contents, length-contents}
use kcpev.Ringbuf.Put.{put_appends}
use kcpev.Ringbuf.Read.{new-IsValid, get_pending_size_lem}
use kcpev.Header.{header_size, buffer_size}
use kcpev.Header.Parsing.{header_from_net-some}
use kcpev.Stream.{
  Look, whole, unread, partial, size_error, no_pending, first_look, store, store_new, on_tcp_recv,
}
use kcpev.Stream.Chunk.{Holds, next_packet}

-- `malloc` gives as many bytes as it is asked for.
abbrev pub Allocates : (ℕ → Option (List ℕ)) → Type 0
Allocates alloc = (n : ℕ) → (m : List ℕ) × (alloc n ≡ some m) × (length m ≡ n)

-- Memory of the size asked for, or NULL.
abbrev pub Mallocs : (ℕ → Option (List ℕ)) → Type 0
Mallocs alloc = (n : ℕ) (m : List ℕ) → alloc n ≡ some m → length m ≡ n

-- The two outcomes: the return value is the length, or 0 with the bytes behind the pending ones.
pub data Received (rb : Option Ringbuf) (q bytes : List ℕ) : Run (ℕ × Option Ringbuf) → Type 0 where
  one_packet :
      q ≡ []
      → next_packet bytes ≡ bytes
      → header_size ≤ length bytes
      → Received rb q bytes (ok (length bytes, rb))
  kept : (r : Ringbuf) → Holds (some r) (q ++ bytes) → Received rb q bytes (ok (0, some r))

-- A look that finds one whole packet finds all the bytes.
first_look-whole :
    (bytes : List ℕ)
    → first_look bytes ≡ whole
    → (next_packet bytes ≡ bytes) × (header_size ≤ length bytes)
unfolding first_look next_packet
first_look-whole bytes e = ground (arith, take_of_le (length bytes) bytes)

first_look-read : (bytes : List ℕ) → first_look bytes ≢ unread
unfolding first_look
first_look-read bytes e = elim (Bool-cases (ltb (length bytes) header_size)) [
  | inl few ↦ ground arith
  | inr enough ↦ let (h, f) = header_from_net-some bytes (ground arith) in ground arith
]

-- With nothing pending the ring, if there is one, holds nothing.
idle_nil : (rb : Option Ringbuf) (q : List ℕ) → Holds rb q → no_pending rb ≡ true → q ≡ []
unfolding no_pending
idle_nil none q h e = h
idle_nil (some r) q (v, c, s) e =
    sym c ∙ eq-nil_of_length (contents r) (ground (arith, get_pending_size_lem v))

store-kept :
    (alloc : ℕ → Option (List ℕ)) {r : Ringbuf} {q : List ℕ} (bytes : List ℕ) (rb : Option Ringbuf)
    → Holds (some r) q
    → length q + length bytes ≤ buffer_size
    → Received rb q bytes (store alloc r bytes)
unfolding store
store-kept alloc {r} {q} bytes rb (v, e, s) fits =
    let (r', p, w, c, z) = put_appends bytes v (omega (arith, length-contents v, ap length e)) in
    rw p (kept r' (w, c ∙ ap (λ x. x ++ bytes) e, z ∙ s))

store_new-kept :
    (alloc : ℕ → Option (List ℕ)) (rb : Option Ringbuf) (q bytes : List ℕ)
    → Allocates alloc
    → Holds rb q
    → length q + length bytes ≤ buffer_size
    → Received rb q bytes (store_new alloc rb bytes)
unfolding store_new
store_new-kept alloc (some r) q bytes a h fits = store-kept alloc bytes (some r) h fits
store_new-kept alloc none q bytes a h fits =
    let (m, am, lm) = a buffer_size in
    let (r, e, v, c, z) = new-IsValid m buffer_size (omega arith) (omega arith) lm in
    rw (am, e, store_new) (store-kept alloc bytes none (v, c ∙ sym h, z) fits)

-- With room in a connection's ring for the bytes of a `recv`, and where `malloc` succeeds, `on_tcp_recv`
-- either returns their number, where nothing was pending and they are one whole packet, and leaves the
-- ring alone, or returns 0 with the bytes appended to the pending ones.
pub on_tcp_recv-Received :
    (alloc : ℕ → Option (List ℕ)) (rb : Option Ringbuf) (q bytes : List ℕ)
    → Allocates alloc
    → Holds rb q
    → length q + length bytes ≤ buffer_size
    → Received rb q bytes (on_tcp_recv alloc rb bytes)
unfolding on_tcp_recv
on_tcp_recv-Received alloc rb q bytes a h fits = elim (Bool-cases (no_pending rb)) [
  | inl idle ↦ rw (idle, on_tcp_recv) (go (idle_nil rb q h idle) (first_look bytes) refl)
  | inr busy ↦ rw (busy, on_tcp_recv) (store_new-kept alloc rb q bytes a h fits)
]
  where
    go :
        q ≡ []
        → (l : Look) → first_look bytes ≡ l
        → Received rb q bytes (elim l [
          | whole ↦ ok (length bytes, rb)
          | unread ↦ ok (size_error, rb)
          | partial ↦ store_new alloc rb bytes
        ])
    go z whole e = one_packet z (first_look-whole bytes e).0 (first_look-whole bytes e).1
    go z unread e = absurd (first_look-read bytes e)
    go z partial e = store_new-kept alloc rb q bytes a h fits
