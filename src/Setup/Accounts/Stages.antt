-- ===== src/Setup/Accounts/Stages.antt =====
-- A client as `kcpev_create_client` makes it, stage by stage.
use kcpev.Base.{ℕ, ◌≡◌, false, none, some, ℤ, is_nonneg, ok, arith}
use kcpev.Conn.{client_tcp, client_udp, IoCb, Env, World, ◌>>=◌, ◌>>◌, check, call, pure}
use kcpev.Conn.Triples.{
  Triple, Triple-pure, Triple-bind, Triple-call, Triple-tested, Triple-then, returns_code-Triple,
  always,
}
use kcpev.Life.{kcpev_set_ev, kcpev_set_tcp_ev, kcpev_set_udp_ev, kcpev_init_ev, kcpev_create_kcp}
use kcpev.Setup.{kcpev_bind_tcp, kcpev_bind_udp, kcpev_bind, kcp_mode}
use kcpev.Setup.Created.{equips}
use kcpev.Accounts.{Conserves, Conserves-trans}
use kcpev.Setup.Accounts.{
  Plain, bind-Conserves, create_kcp-Conserves, set_tcp_ev-Conserves, set_udp_ev-Conserves,
}

-- The stages of a client, from a `calloc` on: what it does not have yet.
module _ (e : Env) (plain : Plain e false) (w0 : World) where
  abbrev pub Watched : World → Type 0
  Watched s = Conserves e w0 s × (s.me.udp.evt ≡ none) × (s.me.udp.evh ≡ none)

  abbrev pub WatchedTcp : World → Type 0
  WatchedTcp s = Watched s × (s.me.udp.evio ≡ none)

  abbrev pub Kcped : World → Type 0
  Kcped s = WatchedTcp s × (s.me.tcp.evio ≡ none)

  abbrev pub Bound : World → Type 0
  Bound s = Kcped s × (s.me.udp.kcp ≡ none)

  abbrev pub New : World → Type 0
  New s = Bound s × (s.me.tcp.sock ≡ 0) × (s.me.udp.sock ≡ 0)

  bind-Bound : (s t : World) (ret : ℤ) → New s → kcpev_bind e false s ≡ ok (ret, t) → Bound t
  unfolding kcpev_bind kcpev_bind_tcp kcpev_bind_udp
  bind-Bound s t ret p h = (
    (
      (
        (
          Conserves-trans e w0 s t p.0.0.0.0.0 (bind-Conserves e false plain s t ret p.1 p.2 h),
          ground (arith, p),
          ground (arith, p),
        ),
        ground (arith, p),
      ),
      ground (arith, p),
    ),
    ground (arith, p),
  )

  create_kcp-Kcped :
      (conv : ℕ) (s t : World) (ret : ℤ)
      → Bound s
      → kcpev_create_kcp e conv kcp_mode s ≡ ok (ret, t)
      → Kcped t
  unfolding kcpev_create_kcp
  create_kcp-Kcped conv s t ret p h = (
    (
      (
        Conserves-trans e w0 s t p.0.0.0.0 (create_kcp-Conserves e s t ret conv kcp_mode p.1 h),
        ground (arith, p),
        ground (arith, p),
      ),
      ground (arith, p),
    ),
    ground (arith, p),
  )

  set_tcp_ev-WatchedTcp :
      (cb : IoCb) (s t : World) (ret : ℤ)
      → Kcped s
      → kcpev_set_tcp_ev e cb s ≡ ok (ret, t)
      → WatchedTcp t
  unfolding kcpev_set_tcp_ev kcpev_set_ev
  set_tcp_ev-WatchedTcp cb s t ret p h = (
    (
      Conserves-trans e w0 s t p.0.0.0 (set_tcp_ev-Conserves e s t ret cb p.1 h),
      ground (arith, p),
      ground (arith, p),
    ),
    ground (arith, p),
  )

  set_udp_ev-Watched :
      (cb : IoCb) (s t : World) (ret : ℤ)
      → WatchedTcp s
      → kcpev_set_udp_ev e cb s ≡ ok (ret, t)
      → Watched t
  unfolding kcpev_set_udp_ev kcpev_set_ev
  set_udp_ev-Watched cb s t ret p h = (
    Conserves-trans e w0 s t p.0.0 (set_udp_ev-Conserves e s t ret cb p.1 h),
    ground (arith, p),
    ground (arith, p),
  )

  init_ev-Watched :
      (tcp_cb udp_cb : IoCb) (s t : World) (ret : ℤ)
      → Kcped s
      → kcpev_init_ev e (some tcp_cb) (some udp_cb) s ≡ ok (ret, t)
      → Watched t
  unfolding kcpev_init_ev
  init_ev-Watched tcp_cb udp_cb s t ret p h =
      returns_code-Triple
        (do
          (do ret ← call (kcpev_set_tcp_ev e tcp_cb); check (is_nonneg ret))
          ret ← call (kcpev_set_udp_ev e udp_cb)
          pure tt)
        (Triple-bind (λ _. WatchedTcp)
          (do ret ← call (kcpev_set_tcp_ev e tcp_cb); check (is_nonneg ret))
          (λ _. do ret ← call (kcpev_set_udp_ev e udp_cb); pure tt)
          (Triple-tested (kcpev_set_tcp_ev e tcp_cb)
            (always (kcpev_set_tcp_ev e tcp_cb) (set_tcp_ev-WatchedTcp tcp_cb) (λ s q. q.0)))
          (λ _.
            Triple-bind (λ _. Watched) (call (kcpev_set_udp_ev e udp_cb)) (λ ret. pure tt)
              (Triple-call (kcpev_set_udp_ev e udp_cb) (λ s t a. set_udp_ev-Watched udp_cb s t a))
              (λ ret. Triple-pure tt (λ s q. q))))
        s t ret p h

  pub made-Watched : (conv : ℕ) → Triple New (equips e conv) (λ _. Watched) Watched
  made-Watched conv =
      Triple-then (kcpev_bind e false) (always (kcpev_bind e false) bind-Bound (λ s q. q.0.0.0))
        (do
          ret2 ← call (kcpev_create_kcp e conv kcp_mode)
          check (is_nonneg ret2)
          ret3 ← call (kcpev_init_ev e (some client_tcp) (some client_udp))
          check (is_nonneg ret3))
        (Triple-then (kcpev_create_kcp e conv kcp_mode)
          (always (kcpev_create_kcp e conv kcp_mode) (create_kcp-Kcped conv) (λ s q. q.0.0))
          (do
            ret3 ← call (kcpev_init_ev e (some client_tcp) (some client_udp))
            check (is_nonneg ret3))
          (Triple-tested (kcpev_init_ev e (some client_tcp) (some client_udp)) (
            always (kcpev_init_ev e (some client_tcp) (some client_udp))
              (init_ev-Watched client_tcp client_udp) (λ s q. q))))
