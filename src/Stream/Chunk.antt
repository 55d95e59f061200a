-- ===== src/Stream/Chunk.antt =====
-- `get_tcp_buf_chunk` against the pending bytes.
use kcpev.Base.{
  ℕ, ◌≤◌, ◌<◌, ◌≡◌, refl, ap, subst, ◌∙◌, inl, inr, Bool-cases, Option, none, some, List, [], ltb,
  leb, if◌then◌else◌, length, take, drop, length-take, Run, ok, arith,
}
use kcpev.Ringbuf.{Ringbuf}
use kcpev.Ringbuf.Layout.{IsValid, contents, length-contents}
use kcpev.Ringbuf.Read.{get_pending_size_lem, copy_data_lem, mark_consumed_lem}
use kcpev.Header.{Header, header_size, buffer_size, header_from_net}
use kcpev.Header.Parsing.{header_from_net-take, header_from_net-some}
use kcpev.Stream.{take_chunk, read_chunk, get_tcp_buf_chunk}

-- The ring of a connection holds the bytes `q`, and has the one size that kcpev gives its rings.
abbrev pub Holds : Option Ringbuf → List ℕ → Type 0
Holds none q = q ≡ []
Holds (some r) q = IsValid r × (contents r ≡ q) × (r.n ≡ buffer_size)

-- The first packet of a stream of bytes, if it is all there: none if the header is not, nor if the
-- header gives a length of 0 or of more bytes than there are.
unfoldable pub next_packet : List ℕ → List ℕ
next_packet q = if ltb (length q) header_size then [] else elim (header_from_net q) [
  | none ↦ []
  | some h ↦ if leb h.size (length q) then take h.size q else []
]

-- What a call of `get_tcp_buf_chunk` leaves.
pub record Chunk (q : List ℕ) (rb : Option Ringbuf) (m : Run (List ℕ × Option Ringbuf))
    : Type 0 where
  pub next : Option Ringbuf
  pub returns : m ≡ ok (next_packet q, next)
  pub holds : Holds next (drop (length (next_packet q)) q)

pub next_packet-few : (q : List ℕ) → length q < header_size → next_packet q ≡ []
unfolding next_packet
next_packet-few q h = ground arith

pub next_packet-some :
    (q : List ℕ) (h : Header)
    → header_size ≤ length q
    → header_from_net q ≡ some h
    → next_packet q ≡ (if leb h.size (length q) then take h.size q else [])
unfolding next_packet
next_packet-some q h big e = ground arith

module _ {r : Ringbuf} (v : IsValid r) (sized : r.n ≡ buffer_size) where
  take_chunk-Chunk :
      (h : Header)
      → header_size ≤ length (contents r)
      → header_from_net (contents r) ≡ some h
      → Chunk (contents r) (some r) (take_chunk buffer_size r h)
  unfolding take_chunk
  take_chunk-Chunk h big e = elim (Bool-cases (leb h.size (length (contents r)))) [
    | inl fits ↦
        let size-le : h.size ≤ r.u = ground (arith, length-contents v) in
        let (r', e', w, c, s) = (mark_consumed_lem h.size v).0 size-le in
        let p : next_packet (contents r) ≡ take h.size (contents r) =
          next_packet-some (contents r) h big e
          ∙ ap (λ b. if b then take h.size (contents r) else []) fits in
        record {
          next = some r';
          returns = rw p (
              ground
                (arith, copy_data_lem h.size v, e', v, get_pending_size_lem v, length-contents v));
          holds = (
            w,
            c
                ∙ ap (λ n. drop n (contents r))
                    (omega
                      (arith, ap length p, length-take h.size (contents r), length-contents v)),
            s ∙ sized,
          );
        }
    | inr more ↦
        let p : next_packet (contents r) ≡ [] =
          next_packet-some (contents r) h big e
          ∙ ap (λ b. if b then take h.size (contents r) else []) more in
        record {
          next = some r;
          returns = rw p (ground (arith, get_pending_size_lem v));
          holds = rw p (v, refl, sized);
        }
  ]

  read_chunk-Chunk : Chunk (contents r) (some r) (read_chunk buffer_size r)
  unfolding read_chunk
  read_chunk-Chunk = elim (Bool-cases (ltb (length (contents r)) header_size)) [
    | inl few ↦ record {
      next = some r;
      returns = ground (arith, get_pending_size_lem v, next_packet-few (contents r));
      holds = rw (next_packet-few (contents r) (ground arith)) (v, refl, sized);
    }
    | inr enough ↦
        let big : header_size ≤ length (contents r) = ground arith in
        let (h, e) = header_from_net-some (contents r) big in
        let e' = header_from_net-take (contents r) big ∙ e in
        subst (Chunk (contents r) (some r))
          (ground
            (arith, copy_data_lem header_size v, e', get_pending_size_lem v, length-contents v))
          (take_chunk-Chunk h big e)
  ]

-- On the ring of a connection `get_tcp_buf_chunk` gives the first whole packet of the pending bytes
-- and takes it off them, or gives nothing and keeps them; it never writes more than `buf` holds.
pub get_tcp_buf_chunk_lem :
    (rb : Option Ringbuf) (q : List ℕ)
    → Holds rb q
    → (rb' : Option Ringbuf) × (get_tcp_buf_chunk buffer_size rb ≡ ok (next_packet q, rb'))
      × Holds rb' (drop (length (next_packet q)) q)
unfolding get_tcp_buf_chunk
get_tcp_buf_chunk_lem none q h = unfold next_packet in (none, rw h, rw h)
get_tcp_buf_chunk_lem (some r) q (v, e, s) =
    let c = subst (λ x. Chunk x (some r) (read_chunk buffer_size r)) e (read_chunk-Chunk v s) in
    (c.next, c.returns, c.holds)
