-- ===== src/Server/Tests.antt =====
-- The server with one client, and one that accepts another.
use kcpev.Base.{
  ◌+◌, length, ◌⊎◌, ℕ, ◌≡◌, ◌⊎◌, refl, true, false, none, List, [], ◌∷◌, ◌++◌, bytes_eq, zeros,
  length-zeros, arith, pos, minus_one, ok, fault,
}
use kcpev.Memory.{memcpy}
use kcpev.Header.{buffer_size, header_from_net, header_to_net, be32, pack_send_buf}
use kcpev.Conn.{World, udp_invalid, Kcpev, Env}
use kcpev.Conn.Sample.{sample_env, sample_key, ready_client, sample_client}
use kcpev.Client.{set_heart}
use kcpev.Server.Beat.{heartbeat2_client-echo}
use kcpev.Send.{is_usable, is_kcp_valid, sock_send_command}
use kcpev.Life.{kcpev_create, kcpev_init_ev, kcpev_set_tcp_ev, kcpev_set_ev}
use kcpev.Server.State.{Server, load, store, hash_find, with_client, close_client}
use kcpev.Server.Recv.{be64, heartbeat2_client, on_server_recv}
use kcpev.Server.Callbacks.{tcp_accept, welcome, enter, accept_ends}
use kcpev.Accounts.{Kind, given_back, has}
use kcpev.Server.Table.{is_live, is_in, is_table, close_client-is_table}
use kcpev.Server.Packets.{Keeps, on_server_recv-Keeps}
use kcpev.Server.Accept.{tcp_accept-is_table, tcp_accept-dangles}
use kcpev.Server.Accept.Entered.{accepted}
use kcpev.Server.Steps.{accepts_one, start, goes_on}
use kcpev.Server.Run.{ServerReaches-is_table}

abbrev env : Env
env = sample_env (sample_key ++ sample_key)

abbrev client : Kcpev
client = record (sample_client udp_invalid) { has_server = true }

abbrev server : Server
server = record {
  base = record (sample_client udp_invalid) { self = 1 };
  recv_cb = true;
  port = 56 ∷ 48 ∷ [];
  hash = 7 ∷ [];
  heap = (7, client) ∷ [];
  calls = [];
}

server-is_table : is_table server.hash server.heap ≡ true
unfolding is_table is_live is_in load
server-is_table = refl

fresh_address : is_live server.heap (accepted env server) ≡ false
unfolding is_live load
fresh_address = refl

close_client-is_table_example :
    (s' : Server) × (close_client 7 server ≡ ok s')
    × (is_in 7 s'.hash ≡ false)
    × (is_table s'.hash s'.heap ≡ true)
    × (length server.heap ≡ 1 + length s'.heap)
    × ((b : ℕ) → (load b s'.heap ≡ load b server.heap) ⊎ (7 ≡ b))
    × ((k : Kind) → given_back s'.calls k ≡ has client k + given_back server.calls k)
unfolding load
close_client-is_table_example = close_client-is_table 7 client server refl server-is_table

-- A handshake whose key is that of no client.
abbrev stray : List ℕ
stray =
    0 ∷ 0 ∷ 0 ∷ 24 ∷ 2 ∷ 0 ∷ 0 ∷ 0 ∷ 99 ∷ 2 ∷ 3 ∷ 4 ∷ 5 ∷ 6 ∷ 7 ∷ 8 ∷ 9 ∷ 10 ∷ 11 ∷ 12 ∷ 13 ∷ 14
    ∷ 15 ∷ 16 ∷ []

stray-returns : on_server_recv env none server stray ≡ ok (minus_one, server)
unfolding on_server_recv header_from_net hash_find load bytes_eq
stray-returns = refl

on_server_recv-Keeps_example : Keeps server server
on_server_recv-Keeps_example =
    on_server_recv-Keeps env none server server stray minus_one stray-returns

abbrev joined : Server
joined = elim (tcp_accept env server) [ ok s ↦ s | fault ↦ server ]

joined-returns : tcp_accept env server ≡ ok joined
unfolding tcp_accept accept_ends welcome enter kcpev_create with_client load store kcpev_init_ev
    kcpev_set_tcp_ev kcpev_set_ev sock_send_command pack_send_buf header_to_net be32 memcpy
joined-returns = refl

tcp_accept-is_table_example :
    (is_table joined.hash joined.heap ≡ true)
    ⊎ ((is_in (accepted env server) joined.hash ≡ true)
        × (is_live joined.heap (accepted env server) ≡ false))
tcp_accept-is_table_example =
    tcp_accept-is_table env server joined server-is_table fresh_address joined-returns

joined_whole : is_in (accepted env server) joined.hash ≡ is_live joined.heap (accepted env server)
unfolding is_in is_live tcp_accept accept_ends welcome enter kcpev_create with_client load store
    kcpev_init_ev kcpev_set_tcp_ev kcpev_set_ev sock_send_command pack_send_buf header_to_net be32
    memcpy
joined_whole = refl

ServerReaches-is_table_example : is_table joined.hash joined.heap ≡ true
ServerReaches-is_table_example =
    ServerReaches-is_table env server joined server-is_table
      (goes_on start (accepts_one fresh_address joined-returns joined_whole))

-- A peer that is gone before the first packet.
abbrev gone_env : Env
gone_env = record (sample_env (zeros buffer_size)) { send = λ t sock bytes. minus_one }

tcp_accept-dangles_example :
    (s' : Server) × (tcp_accept gone_env server ≡ ok s')
    × (is_in (accepted gone_env server) s'.hash ≡ true)
    × (is_live s'.heap (accepted gone_env server) ≡ false)
tcp_accept-dangles_example =
    tcp_accept-dangles gone_env server (λ t. length-zeros buffer_size) refl refl refl refl
      (λ t sock bytes. refl) fresh_address

abbrev ready : World
ready = record { me = ready_client; calls = [] }

heartbeat2_client-echo_example :
    heartbeat2_client env (sample_key ++ be64 0) ready ≡ ok (pos 0, set_heart 50 ready)
unfolding is_kcp_valid is_usable
heartbeat2_client-echo_example = heartbeat2_client-echo env ready refl refl (omega arith)
