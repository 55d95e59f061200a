-- ===== src/Delivery/Tests.antt =====
-- A message in two pieces.
use kcpev.Base.{ℕ, ◌≡◌, refl, true, false, some, List, [], ◌∷◌, zeros, length-zeros, ok, arith}
use kcpev.Memory.{memcpy}
use kcpev.Header.{header_to_net, be32, pack_send_buf}
use kcpev.Stream.Chunk.{Holds}
use kcpev.Conn.{udp_invalid, sends, kcp_sends, Kcpev, Env, HasStack, World}
use kcpev.Conn.Sample.{sample_env, sample_client, ready_client}
use kcpev.Send.{
  is_usable, is_kcp_valid, sock_send_command, kcpev_send_command, kcpev_send, kcpev_send_tcp,
}
use kcpev.Delivery.{wire, delivered, exited, send_all, client_receives}
use kcpev.Client.{client_udp_recv}
use kcpev.Delivery.Udp.{kcp_sent, kcp_reads, item}
use kcpev.Delivery.Polled.{send_kcp-delivers}
use kcpev.Server.State.{Server, load}
use kcpev.Delivery.ServerSide.{delivered_from, server_receives}
use kcpev.Delivery.ToServer.{send_tcp-reaches_server}
use kcpev.Delivery.EndToEnd.{send_tcp-delivers}

abbrev stack : List ℕ
stack = 0 ∷ 0 ∷ 0 ∷ 0 ∷ 0 ∷ 0 ∷ 0 ∷ 0 ∷ 0 ∷ zeros 65527

abbrev env : Env
env = sample_env stack

env-HasStack : HasStack env
env-HasStack t = omega (arith, length-zeros 65527)

abbrev idle : World
idle = record { me = sample_client udp_invalid; calls = [] }

abbrev sent : World
sent = record idle { calls = sends 4 (0 ∷ 0 ∷ 0 ∷ 9 ∷ 1 ∷ 0 ∷ 0 ∷ 0 ∷ 42 ∷ []) ∷ [] }

packed : pack_send_buf stack 1 (42 ∷ []) ≡ ok (9, 0 ∷ 0 ∷ 0 ∷ 9 ∷ 1 ∷ 0 ∷ 0 ∷ 0 ∷ 42 ∷ zeros 65527)
unfolding pack_send_buf header_to_net be32 memcpy
packed = ground (arith, length-zeros 65527)

sent-returns : send_all (kcpev_send_tcp env) ((42 ∷ []) ∷ []) idle ≡ ok sent
unfolding send_all kcpev_send_tcp sock_send_command
sent-returns = ground (arith, packed)

abbrev pieces : List (List ℕ)
pieces = (0 ∷ 0 ∷ 0 ∷ 9 ∷ 1 ∷ []) ∷ (0 ∷ 0 ∷ 0 ∷ 42 ∷ []) ∷ []

send_tcp-delivers_example :
    (c' : World) × (client_receives env pieces idle ≡ ok c')
    × (delivered c'.calls ≡ (42 ∷ []) ∷ [])
    × (exited c'.calls ≡ false)
    × Holds c'.me.tcp.rb []
unfolding wire delivered exited
send_tcp-delivers_example =
    send_tcp-delivers env env 9 5 ((42 ∷ []) ∷ []) pieces idle sent idle env-HasStack
      (λ t n. (zeros n, refl, length-zeros n)) (omega arith) (omega arith) (omega arith)
      (omega arith, tt) sent-returns refl
      ((omega arith, omega arith), ((omega arith, omega arith), tt)) refl refl

-- The same message by kcp.
abbrev packet : List ℕ
packet = 0 ∷ 0 ∷ 0 ∷ 9 ∷ 1 ∷ 0 ∷ 0 ∷ 0 ∷ 42 ∷ []

abbrev ready : World
ready = record { me = ready_client; calls = [] }

abbrev given : World
given = record ready { calls = kcp_sends 7 packet ∷ [] }

abbrev carrying : Env
carrying = record env { kcp_recv = λ t self. item (kcp_reads self t) (packet ∷ []) }

given-returns : send_all (kcpev_send env) ((42 ∷ []) ∷ []) ready ≡ ok given
unfolding send_all kcpev_send kcpev_send_command is_kcp_valid is_usable
given-returns = ground (arith, packed)

send_kcp-delivers_example :
    (c' : World) × (client_udp_recv carrying 2 (1 ∷ []) ready ≡ ok c')
    × (delivered c'.calls ≡ (42 ∷ []) ∷ [])
    × (exited c'.calls ≡ false)
unfolding kcp_sent kcp_reads delivered exited is_kcp_valid is_usable
send_kcp-delivers_example =
    send_kcp-delivers env carrying 2 ((42 ∷ []) ∷ []) (packet ∷ []) (1 ∷ []) ready given ready
      env-HasStack (omega arith, tt) refl given-returns refl (λ t. refl) refl refl refl
      (omega arith) (omega arith)

-- The same message to a server.
abbrev client : Kcpev
client = record (sample_client udp_invalid) { has_server = true }

abbrev server : Server
server = record {
  base = record (sample_client udp_invalid) { self = 1 };
  recv_cb = true;
  port = 56 ∷ 48 ∷ [];
  hash = 7 ∷ [];
  heap = (7, client) ∷ [];
  calls = [];
}

server-client : load 7 server.heap ≡ some client
unfolding load
server-client = refl

send_tcp-reaches_server_example :
    (s' : Server) × (c' : Kcpev) × (server_receives env 7 pieces server ≡ ok s')
    × (delivered_from 7 s'.calls ≡ (42 ∷ []) ∷ [])
    × (load 7 s'.heap ≡ some c')
    × Holds c'.tcp.rb []
unfolding wire delivered_from
send_tcp-reaches_server_example =
    send_tcp-reaches_server env env 7 9 5 ((42 ∷ []) ∷ []) pieces idle sent server client
      env-HasStack (λ t n. (zeros n, refl, length-zeros n)) (λ t. refl) (omega arith) (omega arith)
      (omega arith) (omega arith, tt) sent-returns refl
      ((omega arith, omega arith), ((omega arith, omega arith), tt)) refl server-client refl
