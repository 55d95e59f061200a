-- ===== src/Delivery.antt =====
-- Messages over TCP from end to end: what `kcpev_send_tcp` of one side puts on the wire, `recv_cb` of
-- the other side gets.
pub mod Sending
pub mod Receiving
pub mod EndToEnd
pub mod Udp
pub mod Polled
pub mod ServerSide
pub mod ToServer
mod Tests
use kcpev.Base.{
  ℕ, ◌+◌, ◌^◌, ◌<◌, Bool, true, false, Option, none, List, [], ◌∷◌, ◌++◌, ◌==◌, ◌≡◌, if◌then◌else◌,
  length, drop, ℤ, pos, int_eq, Run, ok, fault,
}
use kcpev.Header.{header_size, buffer_size}
use kcpev.Header.Packing.{packet}
use kcpev.Conn.{command_data, Trace, sends, delivers, exits, Env, World}
use kcpev.Client.{client_tcp_recv}

-- The bytes that went out on a socket, in order.
unfoldable pub wire : ℕ → Trace → List ℕ
wire sock [] = []
wire sock (sends s bytes ∷ t) = if s == sock then wire sock t ++ bytes else wire sock t
wire sock (_ ∷ t) = wire sock t

-- The messages that `recv_cb` of a client got, in order.
unfoldable pub delivered : Trace → List (List ℕ)
delivered [] = []
delivered (delivers _ msg ∷ t) = delivered t ++ (msg ∷ [])
delivered (_ ∷ t) = delivered t

-- Whether the program was ended.
unfoldable pub exited : Trace → Bool
exited [] = false
exited (exits ∷ t) = true
exited (_ ∷ t) = exited t

-- `kcpev_send` or `kcpev_send_tcp` of each message, each with the result 0.
unfoldable pub send_all : (List ℕ → World → Run (ℤ × World)) → List (List ℕ) → World → Run World
send_all f [] w = ok w
send_all f (msg ∷ msgs) w = elim (f msg w) [
  | fault ↦ fault
  | ok (ret, w') ↦ elim (int_eq ret (pos 0)) [ true ↦ send_all f msgs w' | false ↦ fault ]
]

-- `client_tcp_recv` for each piece that `recv` gives.
unfoldable pub client_receives : Env → List (List ℕ) → World → Run World
client_receives e [] w = ok w
client_receives e (bytes ∷ pieces) w = elim (client_tcp_recv e bytes w) [
  | fault ↦ fault
  | ok w' ↦ client_receives e pieces w'
]

-- The packet of one message of the application, short enough for the 32 bits of its length.
pub record IsData (f : List ℕ) : Type 0 where
  pub pad : List ℕ
  pub msg : List ℕ
  pub padded : length pad ≡ 3
  pub is : f ≡ packet command_data pad msg
  pub short : length msg + header_size < 2 ^ 32

-- The messages in packets.
unfoldable pub messages : List (List ℕ) → List (List ℕ)
messages [] = []
messages (f ∷ fs) = drop header_size f ∷ messages fs
