-- ===== src/Header/Parsing.antt =====
-- Reading a header off the front of a sequence of bytes.
use kcpev.Base.{ℕ, ◌≤◌, ◌≡◌, some, List, [], ◌∷◌, length, take, length-take, arith}
use kcpev.Header.{Header, header_size, of_be32, read_header, header_from_net}

-- The header is read from the first eight bytes.
pub header_from_net-take :
    (q : List ℕ) → header_size ≤ length q → header_from_net (take header_size q) ≡ header_from_net q
unfolding header_from_net read_header
header_from_net-take [] h = absurd (omega arith)
header_from_net-take (a ∷ []) h = absurd (omega arith)
header_from_net-take (a ∷ b ∷ []) h = absurd (omega arith)
header_from_net-take (a ∷ b ∷ c ∷ []) h = absurd (omega arith)
header_from_net-take (a ∷ b ∷ c ∷ d ∷ []) h = absurd (omega arith)
header_from_net-take (a ∷ b ∷ c ∷ d ∷ e ∷ rest) h = ground (arith, length-take 3 rest)

-- Eight bytes always hold a header.
pub header_from_net-some :
    (q : List ℕ) → header_size ≤ length q → (h : Header) × (header_from_net q ≡ some h)
unfolding header_from_net read_header
header_from_net-some [] h = absurd (omega arith)
header_from_net-some (a ∷ []) h = absurd (omega arith)
header_from_net-some (a ∷ b ∷ []) h = absurd (omega arith)
header_from_net-some (a ∷ b ∷ c ∷ []) h = absurd (omega arith)
header_from_net-some (a ∷ b ∷ c ∷ d ∷ []) h = absurd (omega arith)
header_from_net-some (a ∷ b ∷ c ∷ d ∷ e ∷ rest) h =
    (record { size = of_be32 a b c d; command = e }, ground arith)
