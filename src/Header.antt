-- ===== src/Header.antt =====
-- The packet header of src/kcpev.h and src/kcpev.c: `KcpevHeader`, `header_to_net`,
-- `header_from_net` and `pack_send_buf`. Bytes are numbers below 256.
pub mod Packing
pub mod Parsing
mod Tests
use kcpev.Base.{
  ℕ, ◌+◌, ◌*◌, ◌/◌, ◌%◌, ◌^◌, Option, none, some, List, [], ◌∷◌, ◌++◌, drop, length, ltb,
  if◌then◌else◌, Run, ok, ◌>>=◌,
}
use kcpev.Memory.{memcpy}

-- `sizeof(KcpevHeader)`: a `uint32_t`, a `uint8_t` and three bytes of padding
abbrev pub header_size : ℕ
header_size = 8

-- `KCPEV_BUFFER_SIZE`
abbrev pub buffer_size : ℕ
buffer_size = 65536

pub record Header : Type 0 where
  pub size : ℕ
  pub command : ℕ

-- The bytes of `htobe32(x)` in memory, and what `be32toh` reads from such bytes.
unfoldable pub be32 : ℕ → List ℕ
be32 x = (x / 2 ^ 24 % 256) ∷ (x / 2 ^ 16 % 256) ∷ (x / 2 ^ 8 % 256) ∷ (x % 256) ∷ []

unfoldable pub of_be32 : ℕ → ℕ → ℕ → ℕ → ℕ
of_be32 a b c d = a * 2 ^ 24 + b * 2 ^ 16 + c * 2 ^ 8 + d

-- `none` is the result -1. Of the padding nothing is written.
unfoldable pub header_to_net : Header → List ℕ → Option (List ℕ)
header_to_net h buf =
    if ltb (length buf) header_size then none else some (be32 h.size ++ h.command ∷ drop 5 buf)

-- The first five bytes are read, of at least eight.
read_header : List ℕ → Option Header
unfolding of_be32
read_header (a ∷ b ∷ c ∷ d ∷ e ∷ _) = some (record { size = of_be32 a b c d; command = e })
read_header _ = none

unfoldable pub header_from_net : List ℕ → Option Header
unfolding read_header
header_from_net buf = if ltb (length buf) header_size then none else read_header buf

-- `buf` is the caller's buffer with what it holds before the call, `buf_size` its length. The
-- result is `real_size`, a `uint32_t`, and the buffer; 0 is the error.
unfoldable pub pack_send_buf : List ℕ → ℕ → List ℕ → Run (ℕ × List ℕ)
pack_send_buf buf command msg =
    let real_size = (length msg + header_size) % 2 ^ 32 in
    if ltb (length buf) real_size
    then ok (0, buf)
    else elim (header_to_net (record { size = real_size; command = command }) buf) [
      | none ↦ ok (0, buf)
      | some buf' ↦ do buf'' ← memcpy buf' header_size msg; ok (real_size, buf'')
    ]
