-- ===== src/Header/Packing.antt =====
-- Packing a message and reading its header back.
use kcpev.Base.{
  ℕ, ◌+◌, ◌/◌, ◌%◌, ◌^◌, ◌≤◌, ◌<◌, ◌≡◌, sym, ap, ◌∙◌, some, List, [], ◌∷◌, ◌++◌, length, take, drop,
  length-append, length-drop, split_at, take-append, drop-append, append_assoc, append-nil, ok,
  fault, arith,
}
use kcpev.Memory.{memcpy, memcpy_at}
use kcpev.Header.{header_size, be32, of_be32, header_to_net, header_from_net, pack_send_buf}

-- A packet on the wire: the header, whose padding holds any three bytes, and the message.
unfoldable pub packet : ℕ → List ℕ → List ℕ → List ℕ
packet command pad msg = be32 (length msg + header_size) ++ (command ∷ (pad ++ msg))

pub of_be32-be32 :
    (x : ℕ)
    → x < 2 ^ 32
    → of_be32 (x / 2 ^ 24 % 256) (x / 2 ^ 16 % 256) (x / 2 ^ 8 % 256) (x % 256) ≡ x
unfolding of_be32
of_be32-be32 x h = omega arith

pub length-packet :
    (command : ℕ) (pad msg : List ℕ)
    → length pad ≡ 3
    → length (packet command pad msg) ≡ length msg + header_size
unfolding packet be32
length-packet command pad msg h = omega (arith, length-append pad msg)

-- Whatever follows the packet, its header gives its length and its command.
pub header_from_net-packet :
    (command : ℕ) (pad msg rest : List ℕ)
    → length pad ≡ 3
    → length msg + header_size < 2 ^ 32
    → header_from_net (packet command pad msg ++ rest)
      ≡ some (record { size = length msg + header_size; command = command })
unfolding packet be32 header_from_net
header_from_net-packet command pad msg rest h k = ground (
  arith,
  of_be32-be32 (length msg + header_size) k,
  length-append (pad ++ msg) rest,
  length-append pad msg,
)

pub drop-packet :
    (command : ℕ) (pad msg : List ℕ)
    → length pad ≡ 3
    → drop header_size (packet command pad msg) ≡ msg
unfolding packet be32
drop-packet command pad msg h = drop-append 3 pad msg (sym h)

padding-packet :
    (command : ℕ) (pad msg rest : List ℕ)
    → length pad ≡ 3
    → take 3 (drop 5 (packet command pad msg ++ rest)) ≡ pad
unfolding packet be32
padding-packet command pad msg rest h =
    ap (take 3) (append_assoc pad msg rest) ∙ take-append 3 pad (msg ++ rest) (sym h)

-- The buffer in pieces: under the header's five bytes, under the padding, under the message, and
-- the rest.
pack_send_buf-pieces :
    (first pad old rest msg : List ℕ) (command : ℕ)
    → length first ≡ 5
    → length pad ≡ 3
    → length old ≡ length msg
    → length msg + header_size + length rest < 2 ^ 32
    → pack_send_buf (first ++ (pad ++ (old ++ rest))) command msg
      ≡ ok (length msg + header_size, packet command pad msg ++ rest)
unfolding pack_send_buf header_to_net packet be32
pack_send_buf-pieces first pad old rest msg command f g h k = ground (
  arith,
  drop-append 5 first (pad ++ (old ++ rest)),
  length-append first (pad ++ (old ++ rest)),
  length-append pad (old ++ rest),
  length-append old rest,
  append_assoc pad msg rest,
  memcpy_at {d = be32 (length msg + header_size) ++ (command ∷ (pad ++ (old ++ rest)))}
      {d' = be32 (length msg + header_size) ++ (command ∷ (pad ++ (msg ++ rest)))}
      (be32 (length msg + header_size) ++ (command ∷ pad)) old rest msg header_size,
)

-- The packing of a message that fits: the packet, padded by the bytes that the buffer held there,
-- and behind it the rest of the buffer.
pub pack_send_buf-packet :
    (buf msg : List ℕ) (command : ℕ)
    → length msg + header_size ≤ length buf
    → length buf < 2 ^ 32
    → (pad : List ℕ) × (rest : List ℕ) × (length pad ≡ 3)
      × (take 3 (drop 5 buf) ≡ pad)
      × (pack_send_buf buf command msg
          ≡ ok (length msg + header_size, packet command pad msg ++ rest))
pack_send_buf-packet buf msg command h k =
    let (first, tail, e, f, g) = split_at 5 buf (omega arith) in
    let (pad, more, e', f', g') = split_at 3 tail (omega arith) in
    let (old, rest, e'', f'', g'') = split_at (length msg) more (omega arith) in
    (
      pad,
      rest,
      f',
      ap (λ x. take 3 (drop 5 x)) e
          ∙ ap (take 3) (drop-append 5 first tail (sym f) ∙ e')
          ∙ take-append 3 pad more (sym f'),
      ap (λ x. pack_send_buf x command msg) (e ∙ ap (◌++◌ first) (e' ∙ ap (◌++◌ pad) e''))
          ∙ pack_send_buf-pieces first pad old rest msg command f f' f'' (omega arith),
    )

-- A message that fits in the buffer is packed so that the receiver reads its length, its command and
-- its bytes back; the three padding bytes on the wire are what the buffer held before the call.
pub pack_send_buf-roundtrip :
    (buf msg : List ℕ) (command : ℕ)
    → length msg + header_size ≤ length buf
    → length buf < 2 ^ 32
    → (out : List ℕ) × (pack_send_buf buf command msg ≡ ok (length msg + header_size, out))
      × (header_from_net (take (length msg + header_size) out)
          ≡ some (record { size = length msg + header_size; command = command }))
      × (drop header_size (take (length msg + header_size) out) ≡ msg)
      × (take 3 (drop 5 out) ≡ take 3 (drop 5 buf))
pack_send_buf-roundtrip buf msg command h k =
    let (pad, rest, f, e, p) = pack_send_buf-packet buf msg command h k in
    let sent : take (length msg + header_size) (packet command pad msg ++ rest)
        ≡ packet command pad msg =
      take-append (length msg + header_size) (packet command pad msg) rest
        (sym (length-packet command pad msg f)) in
    (
      packet command pad msg ++ rest,
      p,
      ap header_from_net (sent ∙ sym (append-nil (packet command pad msg)))
          ∙ header_from_net-packet command pad msg [] f (omega arith),
      ap (drop header_size) sent ∙ drop-packet command pad msg f,
      padding-packet command pad msg rest f ∙ sym e,
    )

-- A message that does not fit: below 2 ^ 32 with its header it is refused; beyond, the `uint32_t`
-- length wraps, and where the wrapped length passes the check the copy overruns the buffer.
pub pack_send_buf_too_long :
    (buf msg : List ℕ) (command : ℕ)
    → length buf < length msg + header_size
    → header_size ≤ length buf
    → length buf < 2 ^ 32
    → (length msg + header_size < 2 ^ 32 → pack_send_buf buf command msg ≡ ok (0, buf))
      × ((length msg + header_size) % 2 ^ 32 ≤ length buf
          → 2 ^ 32 ≤ length msg + header_size
          → pack_send_buf buf command msg ≡ fault)
unfolding pack_send_buf header_to_net be32 memcpy
pack_send_buf_too_long buf msg command h k l =
    (λ m. ground arith, λ m n. ground (arith, length-drop 5 buf))
