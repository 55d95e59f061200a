-- ===== src/Server/PeerTests.antt =====
-- The server's clients at a handshake, and the end of a server.
use kcpev.Base.{
  ◌+◌, ℕ, ◌≡◌, refl, true, false, none, some, List, [], ◌∷◌, ◌++◌, bytes_eq, ℤ, pos, minus_one, ok,
  fault,
}
use kcpev.Memory.{memcpy}
use kcpev.Header.{header_from_net, header_to_net, be32, pack_send_buf}
use kcpev.Conn.{conv_of, udp_invalid, udp_shaking_hand, Kcpev, Trace, Env, World}
use kcpev.Conn.Sample.{sample_env, sample_key, sample_client, ready_client}
use kcpev.Send.{is_usable, is_kcp_valid, sock_send_command}
use kcpev.Life.{
  kcpev_create_kcp, kcpev_init_ev, kcpev_set_udp_ev, kcpev_set_ev, check_create_kcp_timer,
}
use kcpev.Life.Destroy.{rings_freed, has_ring}
use kcpev.Accounts.{Kind, given_back, has}
use kcpev.Setup.{kcpev_bind_socket, kcpev_bind_udp, connect_client_udp}
use kcpev.Server.State.{Server, load, store, hash_find, with_client}
use kcpev.Server.Recv.{shake_hand1_client, shake_hand2_client, on_server_recv}
use kcpev.Server.Callbacks.{from_peer, server_udp_recv, kcpev_server_destroy}
use kcpev.Server.Table.{is_live, is_in, is_table}
use kcpev.Server.Release.{table_sum, kcpev_server_destroy-releases}
use kcpev.Server.Status.{PeerStep}
use kcpev.Server.Machine.{on_server_recv-Moves}
use kcpev.Server.Again.{shake_hand1_client-again}
use kcpev.Server.Steps.{gets_udp, start, goes_on}
use kcpev.Server.Wired.{AllWired}
use kcpev.Server.Wired.Runs.{ServerReaches-IsWired}

abbrev env : Env
env = sample_env (sample_key ++ sample_key)

-- Two clients; the one at 7 shakes hands.
abbrev client : Kcpev
client = record (sample_client udp_shaking_hand) { has_server = true }

abbrev other : Kcpev
other = record (sample_client udp_invalid) { self = 8; key = 99 ∷ []; has_server = true }

abbrev server : Server
server = record {
  base = record (sample_client udp_invalid) { self = 1 };
  recv_cb = true;
  port = 56 ∷ 48 ∷ [];
  hash = 7 ∷ 8 ∷ [];
  heap = (7, client) ∷ (8, other) ∷ [];
  calls = [];
}

server-is_table : is_table server.hash server.heap ≡ true
unfolding is_table is_live is_in load
server-is_table = refl

kcpev_server_destroy-releases_example :
    (t : Trace) × (kcpev_server_destroy server ≡ ok t)
    × ((k : Kind)
        → given_back t k
          ≡ has server.base k + table_sum (λ c. has c k) (7 ∷ 8 ∷ []) server.heap + given_back [] k)
    × ((n : ℕ)
        → rings_freed t n
          ≡ has_ring server.base n
            + table_sum (λ c. has_ring c n) (7 ∷ 8 ∷ []) server.heap
            + rings_freed [] n)
kcpev_server_destroy-releases_example = kcpev_server_destroy-releases server server-is_table

abbrev hand2 : List ℕ
hand2 = 0 ∷ 0 ∷ 0 ∷ 24 ∷ 3 ∷ 0 ∷ 0 ∷ 0 ∷ sample_key

abbrev ended : ℤ × Server
ended = elim (on_server_recv env (some 7) server hand2) [ ok r ↦ r | fault ↦ (pos 1, server) ]

ended-returns : on_server_recv env (some 7) server hand2 ≡ ok (ended.0, ended.1)
unfolding on_server_recv header_from_net hash_find load store with_client bytes_eq
    shake_hand2_client check_create_kcp_timer
ended-returns = refl

server-client : load 7 server.heap ≡ some client
unfolding load
server-client = refl

on_server_recv-Moves_example :
    (c' : Kcpev) × (load 7 ended.1.heap ≡ some c') × PeerStep sample_key client c'
on_server_recv-Moves_example =
    on_server_recv-Moves env (some 7) server ended.1 hand2 ended.0 7 client ended-returns
      server-client

abbrev ready : World
ready = record { me = ready_client; calls = [] }

abbrev again : World
again = elim (shake_hand1_client env ready) [ ok r ↦ r.1 | fault ↦ ready ]

again-returns : shake_hand1_client env ready ≡ ok (pos 0, again)
unfolding shake_hand1_client connect_client_udp kcpev_bind_udp kcpev_bind_socket kcpev_create_kcp
    kcpev_init_ev kcpev_set_udp_ev kcpev_set_ev sock_send_command pack_send_buf header_to_net be32
    memcpy
again-returns = refl

shake_hand1_client-again_example :
    (is_kcp_valid again.me ≡ false)
    × (shake_hand2_client env (record again { calls = [] })
        ≡ ok (minus_one, record again { calls = [] }))
shake_hand1_client-again_example = shake_hand1_client-again env ready again [] refl again-returns

-- A client that shakes hands with a kcp object of its key's number, and the server once its last
-- datagram has come.
abbrev wired : Kcpev
wired = record client {
  udp = record (client.udp) { kcp = some (record { conv = 16; output = true }) };
}

abbrev before : Server
before = record server { hash = 7 ∷ []; heap = (7, wired) ∷ [] }

before-AllWired : AllWired before.heap
before-AllWired = (record { kcp = λ has. refl }, tt)

abbrev after : Server
after = elim (server_udp_recv env 1 7 hand2 before) [ ok s ↦ s | fault ↦ before ]

after-returns : server_udp_recv env 1 7 hand2 before ≡ ok after
unfolding server_udp_recv from_peer is_kcp_valid is_usable on_server_recv header_from_net hash_find
    load store with_client bytes_eq shake_hand2_client check_create_kcp_timer
after-returns = refl

abbrev usable : Kcpev
usable = elim (load 7 after.heap) [ some c ↦ c | none ↦ wired ]

usable-there : (load 7 after.heap ≡ some usable) × (is_kcp_valid usable ≡ true)
unfolding server_udp_recv from_peer is_kcp_valid is_usable on_server_recv header_from_net hash_find
    load store with_client bytes_eq shake_hand2_client check_create_kcp_timer
usable-there = (refl, refl)

ServerReaches-IsWired_example :
    usable.udp.kcp ≡ some (record { conv = conv_of usable.key; output = true })
ServerReaches-IsWired_example =
    ServerReaches-IsWired env before after 7 usable before-AllWired
      (goes_on start (gets_udp 1 7 hand2 after-returns)) usable-there.0 usable-there.1
