-- ===== src/System/Tests.antt =====
-- The client has ended its handshake; its confirmation comes to the server, and a datagram of kcp to
-- the client.
use kcpev.Base.{
  ◌≡◌, refl, true, none, some, [], ◌∷◌, List, ℕ, ◌++◌, bytes_eq, zeros, length-zeros, ok, fault,
}
use kcpev.Header.{buffer_size, header_from_net}
use kcpev.Conn.{udp_invalid, udp_shaking_hand, Kcp, Kcpev, Env, World}
use kcpev.Conn.Sample.{sample_env, sample_key, sample_client, ready_client}
use kcpev.Send.{is_usable, is_kcp_valid}
use kcpev.Life.{check_create_kcp_timer}
use kcpev.Poll.{try_kcp_recv}
use kcpev.Client.{client_udp_recv}
use kcpev.Client.Steps.{gets_udp}
use kcpev.Client.Agreed.{IsAgreed}
use kcpev.Server.State.{Server, load, store, hash_find, with_client}
use kcpev.Server.Recv.{on_server_recv, shake_hand2_client}
use kcpev.Server.Callbacks.{from_peer, server_udp_recv}
use kcpev.Server.Steps
use kcpev.Server.Wired.{AllWired}
use kcpev.System.{
  SystemReaches, client_moves, server_moves, at_start, moves_on, SystemReaches-agree,
}

abbrev client_env : Env
client_env = sample_env (zeros buffer_size)

abbrev server_env : Env
server_env = sample_env (sample_key ++ sample_key)

abbrev client : World
client = record {
  me = record ready_client {
    udp = record (ready_client.udp) { kcp = some (record { conv = 16; output = true }) };
  };
  calls = [];
}

abbrev peer : Kcpev
peer = record (sample_client udp_shaking_hand) {
  has_server = true;
  udp = record ((sample_client udp_shaking_hand).udp) {
    kcp = some (record { conv = 16; output = true });
  };
}

abbrev server : Server
server = record {
  base = record (sample_client udp_invalid) { self = 1 };
  recv_cb = true;
  port = 56 ∷ 48 ∷ [];
  hash = 7 ∷ [];
  heap = (7, peer) ∷ [];
  calls = [];
}

abbrev hand2 : List ℕ
hand2 = 0 ∷ 0 ∷ 0 ∷ 24 ∷ 3 ∷ 0 ∷ 0 ∷ 0 ∷ sample_key

abbrev served : Server
served = elim (server_udp_recv server_env 1 7 hand2 server) [ ok s ↦ s | fault ↦ server ]

served-returns : server_udp_recv server_env 1 7 hand2 server ≡ ok served
unfolding server_udp_recv from_peer is_kcp_valid is_usable on_server_recv header_from_net hash_find
    load store with_client bytes_eq shake_hand2_client check_create_kcp_timer
served-returns = refl

abbrev fed : World
fed = elim (client_udp_recv client_env 1 (1 ∷ 2 ∷ []) client) [ ok w ↦ w | fault ↦ client ]

fed-returns : client_udp_recv client_env 1 (1 ∷ 2 ∷ []) client ≡ ok fed
unfolding client_udp_recv is_kcp_valid is_usable try_kcp_recv
fed-returns = refl

abbrev usable : Kcpev
usable = elim (load 7 served.heap) [ some c ↦ c | none ↦ peer ]

usable-there :
    (load 7 served.heap ≡ some usable)
    × (usable.key ≡ fed.me.key)
    × (is_kcp_valid usable ≡ true)
    × (is_kcp_valid fed.me ≡ true)
unfolding server_udp_recv from_peer is_kcp_valid is_usable on_server_recv header_from_net hash_find
    load store with_client bytes_eq shake_hand2_client check_create_kcp_timer client_udp_recv
    try_kcp_recv
usable-there = (refl, refl, refl, refl)

client-IsAgreed : IsAgreed client.me
client-IsAgreed = record { agreed = λ u. (record { conv = 16; output = true }, refl, refl) }

server-AllWired : AllWired server.heap
server-AllWired = (record { kcp = λ has. refl }, tt)

run :
    SystemReaches client_env server_env
      (record { client = client; server = server })
      (record { client = fed; server = served })
run =
    moves_on
      (moves_on {s2 = record { client = client; server = served }} at_start
        (server_moves (Steps.gets_udp 1 7 hand2 served-returns) refl))
      (client_moves (gets_udp 1 (1 ∷ 2 ∷ []) fed-returns) refl)

SystemReaches-agree_example :
    (k l : Kcp) × (fed.me.udp.kcp ≡ some k) × (usable.udp.kcp ≡ some l) × (k.conv ≡ l.conv)
SystemReaches-agree_example =
    SystemReaches-agree client_env server_env (record { client = client; server = server })
      (record { client = fed; server = served }) 7 usable (λ t. length-zeros buffer_size)
      (λ t sock bytes. refl) client-IsAgreed server-AllWired run usable-there.0 usable-there.1
      usable-there.2 usable-there.3
