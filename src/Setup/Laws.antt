-- ===== src/Setup/Laws.antt =====
-- What the set-up of a client leaves.
use kcpev.Base.{ℕ, ◌≡◌, Bool, false, Option, none, some, ℤ, is_nonneg, ok, arith}
use kcpev.Conn.{
  udp_invalid, client_tcp, client_udp, IoCb, Kcpev, conv_of, Trace, Env, World, ◌>>=◌, ◌>>◌, check,
  call, pure,
}
use kcpev.Conn.Triples.{
  Triple, Triple-pure, Triple-bind, Triple-call, Triple-tested, Triple-then, always,
  returns_code-Triple,
}
use kcpev.Life.{
  kcpev_create, kcpev_set_ev, kcpev_set_tcp_ev, kcpev_set_udp_ev, kcpev_init_ev, kcpev_create_kcp,
}
use kcpev.Setup.{kcpev_bind_tcp, kcpev_bind_udp, kcpev_bind, kcp_mode, kcpev_create_client}
use kcpev.Setup.Created.{created, equips, create_client-ends}

-- The handshake has not begun: the status is invalid, and there is no kcp timer.
abbrev Unbegun : World → Type 0
Unbegun w = (w.me.udp.status ≡ udp_invalid) × (w.me.udp.evt ≡ none)

bind-Unbegun :
    (e : Env) (s t : World) (r : ℤ) → Unbegun s → kcpev_bind e false s ≡ ok (r, t) → Unbegun t
unfolding kcpev_bind kcpev_bind_tcp kcpev_bind_udp
bind-Unbegun e s t r p h = (ground (arith, p), ground (arith, p))

create_kcp-Unbegun :
    (e : Env) (conv : ℕ) (s t : World) (r : ℤ)
    → Unbegun s
    → kcpev_create_kcp e conv kcp_mode s ≡ ok (r, t)
    → Unbegun t
unfolding kcpev_create_kcp
create_kcp-Unbegun e conv s t r p h = (ground (arith, p), ground (arith, p))

set_tcp_ev-Unbegun :
    (e : Env) (cb : IoCb) (s t : World) (r : ℤ)
    → Unbegun s
    → kcpev_set_tcp_ev e cb s ≡ ok (r, t)
    → Unbegun t
unfolding kcpev_set_tcp_ev kcpev_set_ev
set_tcp_ev-Unbegun e cb s t r p h = (ground (arith, p), ground (arith, p))

set_udp_ev-Unbegun :
    (e : Env) (cb : IoCb) (s t : World) (r : ℤ)
    → Unbegun s
    → kcpev_set_udp_ev e cb s ≡ ok (r, t)
    → Unbegun t
unfolding kcpev_set_udp_ev kcpev_set_ev
set_udp_ev-Unbegun e cb s t r p h = (ground (arith, p), ground (arith, p))

init_ev-Unbegun :
    (e : Env) (s t : World) (r : ℤ)
    → Unbegun s
    → kcpev_init_ev e (some client_tcp) (some client_udp) s ≡ ok (r, t)
    → Unbegun t
unfolding kcpev_init_ev
init_ev-Unbegun e s t r p h =
    returns_code-Triple
      (do
        (do ret ← call (kcpev_set_tcp_ev e client_tcp); check (is_nonneg ret))
        ret ← call (kcpev_set_udp_ev e client_udp)
        pure tt)
      (Triple-bind (λ _. Unbegun)
        (do ret ← call (kcpev_set_tcp_ev e client_tcp); check (is_nonneg ret))
        (λ _. do ret ← call (kcpev_set_udp_ev e client_udp); pure tt)
        (Triple-tested (kcpev_set_tcp_ev e client_tcp)
          (always (kcpev_set_tcp_ev e client_tcp) (set_tcp_ev-Unbegun e client_tcp) (λ s q. q)))
        (λ _.
          Triple-bind (λ _. Unbegun) (call (kcpev_set_udp_ev e client_udp)) (λ ret. pure tt)
            (Triple-call (kcpev_set_udp_ev e client_udp) (set_udp_ev-Unbegun e client_udp))
            (λ ret. Triple-pure tt (λ s q. q))))
      s t r p h

equips-Unbegun : (e : Env) (conv : ℕ) → Triple Unbegun (equips e conv) (λ _. Unbegun) Unbegun
equips-Unbegun e conv =
    Triple-then (kcpev_bind e false) (always (kcpev_bind e false) (bind-Unbegun e) (λ s q. q))
      (do
        ret2 ← call (kcpev_create_kcp e conv kcp_mode)
        check (is_nonneg ret2)
        ret3 ← call (kcpev_init_ev e (some client_tcp) (some client_udp))
        check (is_nonneg ret3))
      (Triple-then (kcpev_create_kcp e conv kcp_mode)
        (always (kcpev_create_kcp e conv kcp_mode) (create_kcp-Unbegun e conv) (λ s q. q))
        (do
          ret3 ← call (kcpev_init_ev e (some client_tcp) (some client_udp))
          check (is_nonneg ret3))
        (Triple-tested (kcpev_init_ev e (some client_tcp) (some client_udp)) (
          always (kcpev_init_ev e (some client_tcp) (some client_udp)) (init_ev-Unbegun e)
            (λ s q. q))))

created-Unbegun :
    (b : Bool) (self : ℕ) (t : Trace) (c : Kcpev)
    → kcpev_create b self ≡ some c
    → Unbegun (created t c)
unfolding kcpev_create
created-Unbegun b self t c made = (ground (arith, made), ground (arith, made))

abbrev OfNew : Option World → Trace → Type 0
OfNew none t = Unit
OfNew (some w) t = Unbegun w

-- A client that `kcpev_create_client` returns has not begun the handshake: its status is invalid and
-- it has no kcp timer.
pub kcpev_create_client-invalid :
    (e : Env) (t t' : Trace) (w : World)
    → kcpev_create_client e t ≡ ok (some w, t')
    → (w.me.udp.status ≡ udp_invalid) × (w.me.udp.evt ≡ none)
kcpev_create_client-invalid e t t' w =
    create_client-ends {P = λ _. Unbegun} {Q = λ _. Unbegun} {E = λ _. Unbegun} OfNew e t t'
      (some w) tt (created-Unbegun (e.calloc t) (e.fresh t) t)
      (λ c. equips-Unbegun e (conv_of c.key)) (λ c w made q. q) (λ c w made q. tt)
