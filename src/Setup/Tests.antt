-- ===== src/Setup/Tests.antt =====
-- The creation of a client where every call succeeds.
use kcpev.Base.{◌≡◌, refl, none, some, [], ok, fault}
use kcpev.Conn.{udp_invalid, Env, Trace, World}
use kcpev.Conn.Sample.{sample_env, sample_client}
use kcpev.Life.{
  kcpev_create, kcpev_create_kcp, kcpev_init_ev, kcpev_set_tcp_ev, kcpev_set_udp_ev, kcpev_set_ev,
}
use kcpev.Setup.{kcpev_bind, kcpev_bind_tcp, kcpev_bind_udp, kcpev_bind_socket, kcpev_create_client}

abbrev env : Env
env = sample_env []

abbrev made : World × Trace
made = elim (kcpev_create_client env []) [
  | ok (some w, t) ↦ (w, t)
  | ok (none, t) ↦ (record { me = sample_client udp_invalid; calls = [] }, t)
  | fault ↦ (record { me = sample_client udp_invalid; calls = [] }, [])
]

made-returns : kcpev_create_client env [] ≡ ok (some made.0, made.1)
unfolding kcpev_create_client kcpev_create kcpev_create_kcp kcpev_init_ev kcpev_set_tcp_ev
    kcpev_set_udp_ev kcpev_set_ev kcpev_bind kcpev_bind_tcp kcpev_bind_udp kcpev_bind_socket
made-returns = refl
