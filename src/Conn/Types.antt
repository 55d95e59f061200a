-- ===== src/Conn/Types.antt =====
-- The enumerations and structures of src/kcpev.h.
use kcpev.Base.{ℕ, zero, suc, Bool, true, false, Option, none, some, List, [], ◌∷◌}
use kcpev.Ringbuf.{Ringbuf}

-- `enum Command`; a command on the wire is any byte.
abbrev pub command_data : ℕ
command_data = 1

abbrev pub command_shake_hand1 : ℕ
command_shake_hand1 = 2

abbrev pub command_shake_hand2 : ℕ
command_shake_hand2 = 3

abbrev pub command_heartbeat1 : ℕ
command_heartbeat1 = 4

abbrev pub command_heartbeat2 : ℕ
command_heartbeat2 = 5

abbrev pub command_udp_invalid : ℕ
command_udp_invalid = 6

-- `enum UdpStatus`
pub data UdpStatus : Type 0 where
  udp_invalid udp_shaking_hand udp_ready udp_heartbeat : UdpStatus

abbrev pub is_invalid : UdpStatus → Bool
is_invalid udp_invalid = true
is_invalid _ = false

abbrev pub is_ready : UdpStatus → Bool
is_ready udp_ready = true
is_ready _ = false

abbrev pub is_shaking_hand : UdpStatus → Bool
is_shaking_hand udp_shaking_hand = true
is_shaking_hand _ = false

-- `sizeof(KcpevKey)`; a key is a list of that many bytes, and `split_key.conv` is the last of them.
abbrev pub key_size : ℕ
key_size = 16

abbrev pub is_some {ℓ} : {A : Type ℓ} → Option A → Bool
is_some none = false
is_some (some _) = true

abbrev pub byte_at : ℕ → List ℕ → ℕ
byte_at i [] = 0
byte_at zero (x ∷ xs) = x
byte_at (suc i) (x ∷ xs) = byte_at i xs

abbrev pub conv_of : List ℕ → ℕ
conv_of key = byte_at 15 key

-- The callbacks that kcpev gives to libev.
pub data IoCb : Type 0 where
  client_tcp client_udp server_tcp server_udp accept_tcp server_udp_all : IoCb

pub data TimerCb : Type 0 where
  on_timer client_heartbeat server_heartbeat : TimerCb

-- `ev_io` and `ev_timer`; their `data` is the connection that owns them.
pub record EvIo : Type 0 where
  pub cb : IoCb
  pub fd : ℕ

pub record EvTimer : Type 0 where
  pub cb : TimerCb
  pub repeat_ms : ℕ

-- Of `ikcpcb` what kcpev itself writes; `user` is always the `KcpevUdp` that owns it.
pub record Kcp : Type 0 where
  pub conv : ℕ
  pub output : Bool

-- A socket of 0 is none.
pub record KcpevTcp : Type 0 where
  pub sock : ℕ
  pub evio : Option EvIo
  pub rb : Option Ringbuf

-- `heart` is the 64-bit pattern of a double.
pub record KcpevUdp : Type 0 where
  pub sock : ℕ
  pub evio : Option EvIo
  pub evt : Option EvTimer
  pub evh : Option EvTimer
  pub kcp : Option Kcp
  pub status : UdpStatus
  pub heart : ℕ

-- `self` is the address. There is one event loop, so `loop` is left out; `data`, `heartbeat` and `hh`
-- are never read.
pub record Kcpev : Type 0 where
  pub self : ℕ
  pub tcp : KcpevTcp
  pub udp : KcpevUdp
  pub key : List ℕ
  pub has_server : Bool
  pub recv_cb : Bool
