-- ===== src/Stream/Frames.antt =====
-- The specification of the packet loop: the same loop over the pending bytes as one sequence.
use kcpev.Base.{
  ℕ, zero, suc, ◌+◌, ◌≤◌, ◌≡◌, true, false, some, List, [], ◌∷◌, length, drop, list_sizes, ℤ, pos,
  minus_one, int_eq, Run, ok, fault, ◌>>=◌,
}
use kcpev.Header.{Header, header_size, header_from_net}
use kcpev.Stream.Chunk.{next_packet}

module _ {S : Type 0} (handle : S → List ℕ → Run (ℤ × S)) where
  unfoldable pub packet_loop : ℕ → List ℕ → S → Run (ℤ × List ℕ × S)
  packet_loop zero q s = fault
  packet_loop (suc fuel) q s = elim (next_packet q) [
    | [] ↦ ok (pos 0, q, s)
    | x ∷ xs ↦ do
      (ret, s') ← handle s (x ∷ xs)
      elim (int_eq ret (pos 0)) [
        | true ↦ packet_loop fuel (drop (length (next_packet q)) q) s'
        | false ↦ ok (minus_one, drop (length (next_packet q)) q, s')
      ]
  ]

  -- Every packet that is whole goes to the handler, in order, until one is refused.
  unfoldable pub packets : List ℕ → S → Run (ℤ × List ℕ × S)
  unfolding packet_loop
  packets q s = packet_loop (length q + 1) q s

  -- The steps of the loop.
  pub packet_loop-done :
      (fuel : ℕ) (q : List ℕ) (s : S)
      → next_packet q ≡ []
      → packet_loop (suc fuel) q s ≡ ok (pos 0, q, s)
  unfolding packet_loop
  packet_loop-done fuel q s e = rw (e, packet_loop)

-- A packet as a sender makes it: its header gives its length.
pub record WellFormed (f : List ℕ) : Type 0 where
  pub header : Header
  pub reads : header_from_net f ≡ some header
  pub sized : header.size ≡ length f
  pub long : header_size ≤ length f

pub length-next_packet-le : (q : List ℕ) → length (next_packet q) ≤ length q
unfolding next_packet
length-next_packet-le q = grind list_sizes
