-- ===== src/Setup/Accounts/Tests.antt =====
-- A UDP side connected for the first time and once more, and the creation of a client.
use kcpev.Base.{◌≡◌, refl, none, true, false, [], pos, ok, fault}
use kcpev.Conn.{udp_invalid, Env, Trace, World}
use kcpev.Conn.Sample.{sample_env, sample_client}
use kcpev.Life.{
  kcpev_create, kcpev_create_kcp, kcpev_init_ev, kcpev_set_tcp_ev, kcpev_set_udp_ev, kcpev_set_ev,
  kcpev_destroy, kcpev_udp_destroy, kcpev_tcp_destroy,
}
use kcpev.Setup.{
  kcpev_bind, kcpev_bind_tcp, kcpev_bind_udp, kcpev_bind_socket, connect_client_udp,
  kcpev_create_client,
}
use kcpev.Accounts.{Loses, Conserves}
use kcpev.Setup.Accounts.{Plain}
use kcpev.Setup.Accounts.Made.{Settled, create_client-Settled}
use kcpev.Setup.Accounts.Peer.{connect_client_udp-Conserves}
use kcpev.Setup.Accounts.Again.{udp_parts, connect_client_udp-Loses}

abbrev env : Env
env = sample_env []

env-Plain : Plain env true
env-Plain = record { socket = λ t h. refl; reused = λ t. refl }

-- A client of a server: nothing on its UDP side.
abbrev accepted : World
accepted = record {
  me = record (sample_client udp_invalid) {
    udp = record ((sample_client udp_invalid).udp) { sock = 0; kcp = none };
  };
  calls = [];
}

abbrev once : World
once = elim (connect_client_udp env accepted) [ ok r ↦ r.1 | fault ↦ accepted ]

once-returns : connect_client_udp env accepted ≡ ok (pos 0, once)
unfolding connect_client_udp kcpev_bind_udp kcpev_bind_socket kcpev_create_kcp kcpev_init_ev
    kcpev_set_udp_ev kcpev_set_ev
once-returns = refl

connect_client_udp-Conserves_example : Conserves env accepted once
connect_client_udp-Conserves_example =
    connect_client_udp-Conserves env accepted once (pos 0) env-Plain refl refl refl once-returns

abbrev twice : World
twice = elim (connect_client_udp env once) [ ok r ↦ r.1 | fault ↦ once ]

twice-returns : connect_client_udp env once ≡ ok (pos 0, twice)
unfolding connect_client_udp kcpev_bind_udp kcpev_bind_socket kcpev_create_kcp kcpev_init_ev
    kcpev_set_udp_ev kcpev_set_ev
twice-returns = refl

connect_client_udp-Loses_example : Loses env (udp_parts once.me) once twice
connect_client_udp-Loses_example =
    connect_client_udp-Loses env once twice (pos 0) env-Plain (λ t. refl) twice-returns refl

-- No kcp object can be had: the client is destroyed.
abbrev poor_env : Env
poor_env = record env { kcp_create = λ t. false }

poor_env-Plain : Plain poor_env false
poor_env-Plain = record { socket = λ t h. refl; reused = λ t. refl }

abbrev left : Trace
left = elim (kcpev_create_client poor_env []) [ ok r ↦ r.1 | fault ↦ [] ]

none-returns : kcpev_create_client poor_env [] ≡ ok (none, left)
unfolding kcpev_create_client kcpev_create kcpev_create_kcp kcpev_init_ev kcpev_set_tcp_ev
    kcpev_set_udp_ev kcpev_set_ev kcpev_bind kcpev_bind_tcp kcpev_bind_udp kcpev_bind_socket
    kcpev_destroy kcpev_udp_destroy kcpev_tcp_destroy
none-returns = refl

create_client-Settled_example : Settled poor_env [] none left
create_client-Settled_example =
    create_client-Settled poor_env [] left none poor_env-Plain none-returns
