-- ===== src/Stream/Stall.antt =====
-- A packet whose header gives the length 0.
use kcpev.Base.{
  ℕ, suc, ◌+◌, ◌≤◌, ◌≡◌, ap, ◌∙◌, subst, Option, some, List, [], ◌++◌, length, length-append, ℤ,
  pos, Run, ok, arith,
}
use kcpev.Ringbuf.{Ringbuf}
use kcpev.Header.{Header, header_size, buffer_size, header_from_net}
use kcpev.Stream.{tcp_recv}
use kcpev.Stream.Chunk.{Holds, next_packet, next_packet-some}
use kcpev.Stream.Store.{Allocates}
use kcpev.Stream.Frames.{packet_loop, packets, packet_loop-done}
use kcpev.Stream.Refine.{Follows, tcp_recv_refines}

-- Where the pending bytes start with a header of length 0, no packet is handed over: the bytes of the
-- next `recv`, if they fit in the ring and `malloc` succeeds, are kept behind that header, and the
-- result is 0.
pub tcp_recv-stalls :
    {S : Type 0} (handle : S → List ℕ → Run (ℤ × S)) (alloc : ℕ → Option (List ℕ))
    (rb : Option Ringbuf) (q bytes : List ℕ) (h : Header) (s : S)
    → Allocates alloc
    → Holds rb q
    → header_size ≤ length q
    → header_from_net (q ++ bytes) ≡ some h
    → h.size ≡ 0
    → length q + length bytes ≤ buffer_size
    → (rb' : Option Ringbuf) × (tcp_recv handle alloc rb s bytes ≡ ok (pos 0, rb', s))
      × Holds rb' (q ++ bytes)
unfolding packets
tcp_recv-stalls handle alloc rb q bytes h s a hold long e zero_size fits =
    let long' : header_size ≤ length (q ++ bytes) = omega (arith, length-append q bytes) in
    let none_next : next_packet (q ++ bytes) ≡ [] =
      next_packet-some (q ++ bytes) h long' e ∙ ground (arith, zero_size) in
    let one_more : length (q ++ bytes) + 1 ≡ suc (length (q ++ bytes)) = omega arith in
    subst (λ m. Follows m (tcp_recv handle alloc rb s bytes))
      (ap (λ n. packet_loop handle n (q ++ bytes) s) one_more
        ∙ packet_loop-done handle (length (q ++ bytes)) (q ++ bytes) s none_next)
      (tcp_recv_refines handle alloc rb q bytes s a hold fits)
