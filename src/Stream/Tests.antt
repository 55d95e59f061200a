-- ===== src/Stream/Tests.antt =====
-- The stream theorems at two small packets.
use kcpev.Base.{
  ℕ, ◌≡◌, refl, Option, none, some, List, [], ◌∷◌, ◌++◌, length, drop, zeros, length-zeros, pos, ok,
  arith,
}
use kcpev.Ringbuf.{Ringbuf}
use kcpev.Ringbuf.Layout.{IsValid, contents, length-contents}
use kcpev.Header.{buffer_size, header_from_net}
use kcpev.Stream.{on_tcp_recv, get_tcp_buf_chunk, tcp_recv}
use kcpev.Stream.Chunk.{Holds, next_packet, get_tcp_buf_chunk_lem}
use kcpev.Stream.Store.{Allocates}
use kcpev.Stream.Grow.{on_tcp_recv_overflow}
use kcpev.Stream.Frames.{WellFormed, packets}
use kcpev.Stream.Refine.{Follows, tcp_recv_refines}
use kcpev.Stream.Segments.{log, receive, receive_stream}
use kcpev.Stream.Stall.{tcp_recv-stalls}

abbrev first : List ℕ
first = 0 ∷ 0 ∷ 0 ∷ 9 ∷ 1 ∷ 0 ∷ 0 ∷ 0 ∷ 77 ∷ []

abbrev second : List ℕ
second = 0 ∷ 0 ∷ 0 ∷ 8 ∷ 1 ∷ 0 ∷ 0 ∷ 0 ∷ []

first-WellFormed : WellFormed first
unfolding header_from_net
first-WellFormed = record {
  header = record { size = 9; command = 1 };
  reads = refl;
  sized = refl;
  long = omega arith;
}

second-WellFormed : WellFormed second
unfolding header_from_net
second-WellFormed = record {
  header = record { size = 8; command = 1 };
  reads = refl;
  sized = refl;
  long = omega arith;
}

abbrev alloc : ℕ → Option (List ℕ)
alloc n = some (zeros n)

alloc-Allocates : Allocates alloc
alloc-Allocates n = (zeros n, refl, length-zeros n)

-- The first piece ends inside the first packet.
abbrev pieces : List ((ℕ → Option (List ℕ)) × List ℕ)
pieces = (alloc, 0 ∷ 0 ∷ 0 ∷ 9 ∷ 1 ∷ []) ∷ (alloc, 0 ∷ 0 ∷ 0 ∷ 77 ∷ second) ∷ []

receive_stream_example :
    (rb : Option Ringbuf) × (receive pieces none [] ≡ ok (pos 0, rb, first ∷ second ∷ []))
    × Holds rb []
receive_stream_example =
    receive_stream 9 12 pieces (first ∷ second ∷ []) (omega arith) (omega arith)
      (alloc-Allocates, omega arith, (alloc-Allocates, omega arith, tt))
      (first-WellFormed, (second-WellFormed, tt)) (omega arith, (omega arith, tt)) refl

tcp_recv_refines_example :
    Follows (packets log (first ++ second) []) (tcp_recv log alloc none [] (first ++ second))
tcp_recv_refines_example =
    tcp_recv_refines log alloc none [] (first ++ second) [] alloc-Allocates refl (omega arith)

-- A ring of the size that connections have, with no room left.
abbrev full : Ringbuf
full = record { n = buffer_size; u = buffer_size; i = 0; o = 0; d = zeros buffer_size }

full-IsValid : IsValid full
full-IsValid = record {
  storage = length-zeros buffer_size;
  nonempty = omega arith;
  small = omega arith;
  output_in = omega arith;
  used_in = omega arith;
  input_at = omega arith;
}

get_tcp_buf_chunk_lem_example :
    (rb' : Option Ringbuf) × (get_tcp_buf_chunk buffer_size (some full)
      ≡ ok (next_packet (contents full), rb'))
    × Holds rb' (drop (length (next_packet (contents full))) (contents full))
get_tcp_buf_chunk_lem_example =
    get_tcp_buf_chunk_lem (some full) (contents full) (full-IsValid, refl, refl)

on_tcp_recv_overflow_example :
    (r' : Ringbuf) × (on_tcp_recv alloc (some full) first ≡ ok (0, some r')) × Holds (some r') []
on_tcp_recv_overflow_example =
    on_tcp_recv_overflow alloc full (contents full) first alloc-Allocates (full-IsValid, refl, refl)
      (omega arith) (omega (arith, length-contents full-IsValid))

abbrev zero_header : List ℕ
zero_header = 0 ∷ 0 ∷ 0 ∷ 0 ∷ 1 ∷ 0 ∷ 0 ∷ 0 ∷ []

abbrev stuck : Ringbuf
stuck = record { n = buffer_size; u = 8; i = 8; o = 0; d = zero_header ++ zeros 65528 }

stuck-IsValid : IsValid stuck
stuck-IsValid = record {
  storage = omega (arith, length-zeros 65528);
  nonempty = omega arith;
  small = omega arith;
  output_in = omega arith;
  used_in = omega arith;
  input_at = omega arith;
}

tcp_recv-stalls_example :
    (rb' : Option Ringbuf) × (tcp_recv log alloc (some stuck) [] first ≡ ok (pos 0, rb', []))
    × Holds rb' (zero_header ++ first)
unfolding header_from_net
tcp_recv-stalls_example =
    tcp_recv-stalls log alloc (some stuck) zero_header first (record { size = 0; command = 1 }) []
      alloc-Allocates (stuck-IsValid, refl, refl) (omega arith) refl refl (omega arith)
