-- ===== src/Stream/Refine.antt =====
-- The loop of `client_tcp_recv` and `server_tcp_recv` over the ring against the loop over the bytes.
use kcpev.Base.{
  ℕ, zero, suc, ◌+◌, ◌≤◌, ◌<◌, ◌≡◌, refl, sym, ap, subst, ◌∙◌, true, false, Option, none, some,
  List, [], ◌∷◌, ◌++◌, length, drop, take_of_le, drop_of_le, ℤ, pos, minus_one, int_eq, Run, ok,
  fault, arith,
}
use kcpev.Ringbuf.{Ringbuf}
use kcpev.Ringbuf.Layout.{length-contents}
use kcpev.Header.{header_size, buffer_size}
use kcpev.Stream.{get_tcp_buf_chunk, on_tcp_recv, chunk_loop, pending, tcp_recv}
use kcpev.Stream.Chunk.{Holds, next_packet, next_packet-few, get_tcp_buf_chunk_lem}
use kcpev.Stream.Store.{Allocates, Received, one_packet, kept, on_tcp_recv-Received}
use kcpev.Stream.Frames.{packet_loop, packets, packet_loop-done}

-- The two loops end alike: the same result and state, and a ring that holds the bytes left.
abbrev pub Follows : {S : Type 0} → Run (ℤ × List ℕ × S) → Run (ℤ × Option Ringbuf × S) → Type 0
Follows fault m = m ≡ fault
Follows (ok (c, q, s)) m = (rb : Option Ringbuf) × (m ≡ ok (c, rb, s)) × Holds rb q

Follows-of_eq :
    {S : Type 0} {a b : Run (ℤ × List ℕ × S)} {m n : Run (ℤ × Option Ringbuf × S)}
    → a ≡ b
    → m ≡ n
    → Follows b n
    → Follows a m
Follows-of_eq {m} e f h = subst (λ x. Follows x m) (sym e) (subst (Follows _) (sym f) h)

-- One round of each loop, by what the packet and the handler's result are.
module _ {S : Type 0} (handle : S → List ℕ → Run (ℤ × S)) (fuel : ℕ) (s : S) where
  abbrev after : ℕ → List ℕ → Run (ℤ × S) → Run (ℤ × List ℕ × S)
  after n q fault = fault
  after n q (ok (c, s')) = elim (int_eq c (pos 0)) [
    | true ↦ packet_loop handle n q s'
    | false ↦ ok (minus_one, q, s')
  ]

  abbrev after_chunk : ℕ → Option Ringbuf → Run (ℤ × S) → Run (ℤ × Option Ringbuf × S)
  after_chunk n rb fault = fault
  after_chunk n rb (ok (c, s')) = elim (int_eq c (pos 0)) [
    | true ↦ chunk_loop handle n rb s'
    | false ↦ ok (minus_one, rb, s')
  ]

  packet_loop-next :
      (q : List ℕ) (x : ℕ) (xs : List ℕ)
      → next_packet q ≡ x ∷ xs
      → packet_loop handle (suc fuel) q s
        ≡ after fuel (drop (length (x ∷ xs)) q) (handle s (x ∷ xs))
  unfolding packet_loop
  packet_loop-next q x xs e = ground arith

  chunk_loop-done :
      (rb rb' : Option Ringbuf)
      → get_tcp_buf_chunk buffer_size rb ≡ ok ([], rb')
      → chunk_loop handle (suc fuel) rb s ≡ ok (pos 0, rb', s)
  unfolding chunk_loop
  chunk_loop-done rb rb' e = rw (e, chunk_loop)

  chunk_loop-next :
      (rb rb' : Option Ringbuf) (x : ℕ) (xs : List ℕ)
      → get_tcp_buf_chunk buffer_size rb ≡ ok (x ∷ xs, rb')
      → chunk_loop handle (suc fuel) rb s ≡ after_chunk fuel rb' (handle s (x ∷ xs))
  unfolding chunk_loop
  chunk_loop-next rb rb' x xs e = ground arith

  after-Follows :
      (n k : ℕ) (rb : Option Ringbuf) (q : List ℕ) (m : Run (ℤ × S))
      → Holds rb q
      → ((s' : S) → Follows (packet_loop handle n q s') (chunk_loop handle k rb s'))
      → Follows (after n q m) (after_chunk k rb m)
  after-Follows n k rb q fault h rest = refl
  after-Follows n k rb q (ok (c, s')) h rest =
      (elim (int_eq c (pos 0))
        as (λ b.
          Follows (elim b [ true ↦ packet_loop handle n q s' | false ↦ ok (minus_one, q, s') ])
            (elim b [ true ↦ chunk_loop handle k rb s' | false ↦ ok (minus_one, rb, s') ])) [
              | true ↦ rest s'
              | false ↦ (rb, refl, h)
            ])

module _ {S : Type 0} (handle : S → List ℕ → Run (ℤ × S)) where
  chunk_loop-Follows :
      (fuel : ℕ) (rb : Option Ringbuf) (q : List ℕ) (s : S)
      → Holds rb q
      → Follows (packet_loop handle fuel q s) (chunk_loop handle fuel rb s)
  unfolding packet_loop chunk_loop
  chunk_loop-Follows zero rb q s h = refl
  chunk_loop-Follows (suc fuel) rb q s h =
      let (rb', e, h') = get_tcp_buf_chunk_lem rb q h in
      go rb' (λ rest h'' s'. chunk_loop-Follows fuel rb' rest s' h'') (next_packet q) refl e h'
    where
      go :
          (rb' : Option Ringbuf)
          → ((rest : List ℕ)
              → Holds rb' rest
              → (s' : S)
              → Follows (packet_loop handle fuel rest s') (chunk_loop handle fuel rb' s'))
          → (p : List ℕ) → next_packet q ≡ p
          → get_tcp_buf_chunk buffer_size rb ≡ ok (next_packet q, rb')
          → Holds rb' (drop (length (next_packet q)) q)
          → Follows (packet_loop handle (suc fuel) q s) (chunk_loop handle (suc fuel) rb s)
      go rb' rest [] z e h' =
          Follows-of_eq (packet_loop-done handle fuel q s z)
            (chunk_loop-done handle fuel s rb rb' (e ∙ ap (λ p. ok (p, rb')) z))
            (rb', refl, subst (λ p. Holds rb' (drop (length p) q)) z h')
      go rb' rest (x ∷ xs) z e h' =
          let k : Holds rb' (drop (length (x ∷ xs)) q) =
            subst (λ p. Holds rb' (drop (length p) q)) z h' in
          Follows-of_eq (packet_loop-next handle fuel s q x xs z)
            (chunk_loop-next handle fuel s rb rb' x xs (e ∙ ap (λ p. ok (p, rb')) z))
            (after-Follows handle fuel s fuel fuel rb' (drop (length (x ∷ xs)) q)
              (handle s (x ∷ xs)) k (rest (drop (length (x ∷ xs)) q) k))

  pending-Holds : (rb : Option Ringbuf) (q : List ℕ) → Holds rb q → pending rb ≡ length q
  unfolding pending
  pending-Holds none q h = rw h
  pending-Holds (some r) q (v, c, s) = sym (length-contents v) ∙ ap length c

  -- The loop that `tcp_recv` starts, with its own fuel.
  rest-Follows :
      (rb : Option Ringbuf) (q : List ℕ) (s : S)
      → Holds rb q
      → Follows (packets handle q s) (chunk_loop handle (pending rb + 1) rb s)
  unfolding packets
  rest-Follows rb q s h =
      subst (λ n. Follows (packets handle q s) (chunk_loop handle (n + 1) rb s))
        (sym (pending-Holds rb q h)) (chunk_loop-Follows (length q + 1) rb q s h)

  packets-nil : (n : ℕ) (s : S) → packet_loop handle (suc n) [] s ≡ packets handle [] s
  unfolding packets
  packets-nil n s =
      packet_loop-done handle n [] s nothing ∙ sym (packet_loop-done handle 0 [] s nothing)
    where
      nothing : next_packet [] ≡ []
      nothing = next_packet-few [] (omega arith)

  -- The bytes of one `recv` that are one whole packet.
  alone-Follows :
      (rb : Option Ringbuf) (bytes : List ℕ) (s : S)
      → next_packet bytes ≡ bytes
      → header_size ≤ length bytes
      → Holds rb []
      → Follows
          (packets handle bytes s)
          (after_chunk handle 0 s (pending rb + 1) rb (handle s bytes))
  unfolding packets
  alone-Follows rb [] s e h hold = absurd (omega arith)
  alone-Follows rb (x ∷ xs) s e h hold =
      subst
        (λ n.
          Follows (packet_loop handle n (x ∷ xs) s)
            (after_chunk handle 0 s (pending rb + 1) rb (handle s (x ∷ xs))))
        {x = suc (length (x ∷ xs))} (omega arith)
        (Follows-of_eq
          (packet_loop-next handle (length (x ∷ xs)) s (x ∷ xs) x xs e
            ∙ ap (λ r. after handle (length (x ∷ xs)) s (length (x ∷ xs)) r (handle s (x ∷ xs)))
                (drop_of_le (length (x ∷ xs)) (x ∷ xs) le_self))
          refl
          (after-Follows handle 0 s (length (x ∷ xs)) (pending rb + 1) rb [] (handle s (x ∷ xs))
            hold
            (λ s'. Follows-of_eq (packets-nil (length xs) s') refl (rest-Follows rb [] s' hold))))
    where
      le_self : length (x ∷ xs) ≤ length (x ∷ xs)
      le_self = omega arith

  tcp_recv-kept :
      (alloc : ℕ → Option (List ℕ)) (rb rb' : Option Ringbuf) (bytes : List ℕ) (s : S)
      → on_tcp_recv alloc rb bytes ≡ ok (0, rb')
      → tcp_recv handle alloc rb s bytes ≡ chunk_loop handle (pending rb' + 1) rb' s
  unfolding tcp_recv
  tcp_recv-kept alloc rb rb' bytes s e = rw (e, tcp_recv)

  tcp_recv-packet :
      (alloc : ℕ → Option (List ℕ)) (rb rb' : Option Ringbuf) (bytes : List ℕ) (s : S)
      → 0 < length bytes
      → length bytes ≤ buffer_size
      → on_tcp_recv alloc rb bytes ≡ ok (length bytes, rb')
      → tcp_recv handle alloc rb s bytes
        ≡ after_chunk handle 0 s (pending rb' + 1) rb' (handle s bytes)
  unfolding tcp_recv
  tcp_recv-packet alloc rb rb' bytes s h k e = ground (arith, take_of_le (length bytes) bytes)

  -- Over a connection's ring with room for the bytes of a `recv`, and where `malloc` succeeds, the TCP
  -- handlers do what the loop over the pending and the new bytes in one sequence does: the same
  -- packets go to the packet handler in the same order, up to the first that it refuses, the result
  -- is the same, and the ring holds the bytes left over.
  pub tcp_recv_refines :
      (alloc : ℕ → Option (List ℕ)) (rb : Option Ringbuf) (q bytes : List ℕ) (s : S)
      → Allocates alloc
      → Holds rb q
      → length q + length bytes ≤ buffer_size
      → Follows (packets handle (q ++ bytes) s) (tcp_recv handle alloc rb s bytes)
  unfolding tcp_recv
  tcp_recv_refines alloc rb q bytes s a h fits =
      go (on_tcp_recv alloc rb bytes) refl (on_tcp_recv-Received alloc rb q bytes a h fits)
    where
      go :
          (m : Run (ℕ × Option Ringbuf))
          → on_tcp_recv alloc rb bytes ≡ m
          → Received rb q bytes m
          → Follows (packets handle (q ++ bytes) s) (tcp_recv handle alloc rb s bytes)
      go m e (one_packet z p k) =
          Follows-of_eq (ap (λ x. packets handle (x ++ bytes) s) z)
            (tcp_recv-packet alloc rb rb bytes s (omega arith) (omega arith) e)
            (alone-Follows rb bytes s p k (subst (Holds rb) z h))
      go m e (kept r h') =
          Follows-of_eq refl (tcp_recv-kept alloc rb (some r) bytes s e)
            (rest-Follows (some r) (q ++ bytes) s h')
