-- ===== src/Header/Tests.antt =====
-- Packing at a buffer of twelve bytes.
use kcpev.Base.{ℕ, ◌%◌, ◌^◌, ◌≤◌, ◌<◌, ◌≡◌, some, List, [], ◌∷◌, take, drop, ok, fault, arith}
use kcpev.Header.{header_size, header_from_net, pack_send_buf}
use kcpev.Header.Packing.{pack_send_buf-roundtrip, pack_send_buf_too_long}

abbrev buffer : List ℕ
buffer = 90 ∷ 91 ∷ 92 ∷ 93 ∷ 94 ∷ 95 ∷ 96 ∷ 97 ∷ 98 ∷ 99 ∷ 100 ∷ 101 ∷ []

pack_send_buf-roundtrip_example :
    (out : List ℕ) × (pack_send_buf buffer 1 (7 ∷ 8 ∷ 9 ∷ []) ≡ ok (11, out))
    × (header_from_net (take 11 out) ≡ some (record { size = 11; command = 1 }))
    × (drop header_size (take 11 out) ≡ 7 ∷ 8 ∷ 9 ∷ [])
    × (take 3 (drop 5 out) ≡ 95 ∷ 96 ∷ 97 ∷ [])
pack_send_buf-roundtrip_example =
    pack_send_buf-roundtrip buffer (7 ∷ 8 ∷ 9 ∷ []) 1 (omega arith) (omega arith)

abbrev long : List ℕ
long = 1 ∷ 2 ∷ 3 ∷ 4 ∷ 5 ∷ []

pack_send_buf_too_long_example :
    (13 < 2 ^ 32 → pack_send_buf buffer 1 long ≡ ok (0, buffer))
    × (13 % 2 ^ 32 ≤ 12 → 2 ^ 32 ≤ 13 → pack_send_buf buffer 1 long ≡ fault)
pack_send_buf_too_long_example =
    pack_send_buf_too_long buffer long 1 (omega arith) (omega arith) (omega arith)
