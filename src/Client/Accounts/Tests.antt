-- ===== src/Client/Accounts/Tests.antt =====
-- A client that is made, connects, shakes hands with a server, and is destroyed.
use kcpev.Base.{◌≡◌, refl, none, some, List, ℕ, [], ◌∷◌, ◌++◌, bytes_eq, ok, fault}
use kcpev.Header.{header_from_net, header_to_net, be32, pack_send_buf}
use kcpev.Memory.{memcpy}
use kcpev.Conn.{udp_invalid, Env, Trace, World}
use kcpev.Conn.Sample.{sample_env, sample_key, sample_client}
use kcpev.Send.{is_kcp_valid, is_usable, sock_send_command, kcpev_set_cb}
use kcpev.Life.{
  kcpev_create, kcpev_create_kcp, kcpev_init_ev, kcpev_set_tcp_ev, kcpev_set_udp_ev, kcpev_set_ev,
  check_create_kcp_timer,
}
use kcpev.Setup.{
  kcpev_bind, kcpev_bind_tcp, kcpev_bind_udp, kcpev_bind_socket, kcpev_connect_socket,
  kcpev_connect, kcpev_create_client,
}
use kcpev.Client.{on_client_recv, client_udp_recv}
use kcpev.Client.Steps.{Reaches, start, goes_on, gets_udp}

abbrev env : Env
env = sample_env (sample_key ++ sample_key)

abbrev blank : World
blank = record { me = sample_client udp_invalid; calls = [] }

abbrev made : World × Trace
made = elim (kcpev_create_client env []) [
  | ok (some w, t) ↦ (w, t)
  | ok (none, t) ↦ (blank, t)
  | fault ↦ (blank, [])
]

abbrev connected : World
connected = elim (kcpev_connect env made.0) [ ok r ↦ r.1 | fault ↦ blank ]

abbrev listening : World
listening = record connected { me = kcpev_set_cb connected.me }

-- The packet with the key and the answer to the client's datagram, both as datagrams.
abbrev hand1 : List ℕ
hand1 = 0 ∷ 0 ∷ 0 ∷ 24 ∷ 2 ∷ 0 ∷ 0 ∷ 0 ∷ sample_key

abbrev hand2 : List ℕ
hand2 = 0 ∷ 0 ∷ 0 ∷ 24 ∷ 3 ∷ 0 ∷ 0 ∷ 0 ∷ sample_key

abbrev shaking : World
shaking = elim (client_udp_recv env 1 hand1 listening) [ ok w ↦ w | fault ↦ blank ]

shaking-returns : client_udp_recv env 1 hand1 listening ≡ ok shaking
unfolding kcpev_create_client kcpev_create kcpev_create_kcp kcpev_init_ev kcpev_set_tcp_ev
    kcpev_set_udp_ev kcpev_set_ev kcpev_bind kcpev_bind_tcp kcpev_bind_udp kcpev_bind_socket
    kcpev_connect kcpev_connect_socket kcpev_set_cb client_udp_recv is_kcp_valid is_usable
    on_client_recv header_from_net sock_send_command pack_send_buf header_to_net be32 memcpy
shaking-returns = refl

abbrev ready : World
ready = elim (client_udp_recv env 1 hand2 shaking) [ ok w ↦ w | fault ↦ blank ]

ready-returns : client_udp_recv env 1 hand2 shaking ≡ ok ready
unfolding kcpev_create_client kcpev_create kcpev_create_kcp kcpev_init_ev kcpev_set_tcp_ev
    kcpev_set_udp_ev kcpev_set_ev kcpev_bind kcpev_bind_tcp kcpev_bind_udp kcpev_bind_socket
    kcpev_connect kcpev_connect_socket kcpev_set_cb client_udp_recv is_kcp_valid is_usable
    on_client_recv header_from_net sock_send_command pack_send_buf header_to_net be32 memcpy
    check_create_kcp_timer bytes_eq
ready-returns = refl

run : Reaches env listening ready
run = goes_on (goes_on start (gets_udp 1 hand1 shaking-returns)) (gets_udp 1 hand2 ready-returns)
