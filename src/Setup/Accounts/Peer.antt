-- ===== src/Setup/Accounts/Peer.antt =====
-- What `connect_client_udp` takes, gives back and loses.
use kcpev.Base.{ℕ, ◌≡◌, subst, Bool-cases, inl, inr, true, none, some, ℤ, is_nonneg, ok, arith}
use kcpev.Conn.{server_udp, conv_of, Env, World, ◌>>=◌, check, call, pure}
use kcpev.Conn.Triples.{
  Triple, Triple-pure, Triple-bind, Triple-call, Triple-tested, Triple-then, always,
  returns_code-Triple,
}
use kcpev.Life.{kcpev_udp_destroy, kcpev_set_udp_ev, kcpev_init_ev, kcpev_create_kcp}
use kcpev.Setup.{kcpev_bind_udp, kcp_mode, connect_client_udp}
use kcpev.Accounts.{taken, given_back, has, Conserves, Conserves-refl, Conserves-trans}
use kcpev.Setup.Reach.{connected, wired_up, connect_client_udp-ends}
use kcpev.Setup.Accounts.{Plain, bound_udp-Conserves, create_kcp-Conserves, set_udp_ev-Conserves}

udp_destroy-Conserves : (e : Env) (w : World) → Conserves e w (kcpev_udp_destroy w)
unfolding kcpev_udp_destroy Conserves has taken given_back
udp_destroy-Conserves e w k = ground arith

module _ (e : Env) (plain : Plain e true) (w0 : World) where
  abbrev Done : World → Type 0
  Done s = Conserves e w0 s

  abbrev Unwatched : World → Type 0
  Unwatched s = Done s × (s.me.udp.evio ≡ none)

  abbrev Bound : World → Type 0
  Bound s = Unwatched s × (s.me.udp.kcp ≡ none)

  abbrev New : World → Type 0
  New s = Bound s × (s.me.udp.sock ≡ 0)

  bind-Bound : (s t : World) (ret : ℤ) → New s → kcpev_bind_udp e true s ≡ ok (ret, t) → Bound t
  unfolding kcpev_bind_udp
  bind-Bound s t ret p h =
      let b = bound_udp-Conserves e true plain s p.1 in
      (
        (
          Conserves-trans e w0 s t p.0.0.0 (subst (Conserves e s) (ground arith) b),
          ground (arith, p),
        ),
        ground (arith, p),
      )

  create_kcp-Unwatched :
      (conv : ℕ) (s t : World) (ret : ℤ)
      → Bound s
      → kcpev_create_kcp e conv kcp_mode s ≡ ok (ret, t)
      → Unwatched t
  unfolding kcpev_create_kcp
  create_kcp-Unwatched conv s t ret p h = (
    Conserves-trans e w0 s t p.0.0 (create_kcp-Conserves e s t ret conv kcp_mode p.1 h),
    ground (arith, p),
  )

  init_ev-Done :
      (s t : World) (ret : ℤ)
      → Unwatched s
      → kcpev_init_ev e none (some server_udp) s ≡ ok (ret, t)
      → Done t
  unfolding kcpev_init_ev
  init_ev-Done s t ret p h =
      returns_code-Triple {P = Unwatched} (do ret ← call (kcpev_set_udp_ev e server_udp); pure tt)
        (Triple-bind (λ _. Done) (call (kcpev_set_udp_ev e server_udp)) (λ ret. pure tt)
          (Triple-call (kcpev_set_udp_ev e server_udp) (λ s t a q g.
            Conserves-trans e w0 s t q.0 (set_udp_ev-Conserves e s t a server_udp q.1 g)))
          (λ ret. Triple-pure tt (λ s q. q)))
        s t ret p h

  connected-Bound : (s : World) → Bound s → Bound (connected s)
  unfolding Conserves taken given_back has
  connected-Bound s p = (((λ k. ground (arith, p.0.0 k)), p.0.1), p.1)

  wired_up-Done : (conv : ℕ) → Triple Bound (wired_up e conv) (λ _. Done) Done
  wired_up-Done conv =
      Triple-then (kcpev_create_kcp e conv kcp_mode)
        (always (kcpev_create_kcp e conv kcp_mode) (create_kcp-Unwatched conv) (λ s q. q.0))
        (do ret3 ← call (kcpev_init_ev e none (some server_udp)); check (is_nonneg ret3))
        (Triple-tested (kcpev_init_ev e none (some server_udp))
          (always (kcpev_init_ev e none (some server_udp)) init_ev-Done (λ s q. q)))

-- Where the UDP side of a client has no socket, watcher or kcp object, `connect_client_udp` loses
-- nothing, whether it succeeds or fails on the way: each socket that it took is closed by its
-- descriptor, or is the one that the client has, and so for watchers, kcp objects and memory. No
-- `socket` gives the descriptor 0, and no `setsockopt` fails.
pub connect_client_udp-Conserves :
    (e : Env) (w w' : World) (ret : ℤ)
    → Plain e true
    → w.me.udp.sock ≡ 0
    → w.me.udp.evio ≡ none
    → w.me.udp.kcp ≡ none
    → connect_client_udp e w ≡ ok (ret, w')
    → Conserves e w w'
connect_client_udp-Conserves e w w' ret plain sock evio kcp h =
    let ends =
      connect_client_udp-ends {P = New e plain w} {B = Bound e plain w} {Q = Conserves e w}
        {E = Conserves e w} (Conserves e w) e w w' ret
        (always (kcpev_bind_udp e true) (bind-Bound e plain w) (λ s q. q.0.0))
        (connected-Bound e plain w) (λ s q. q.0.0) (wired_up-Done e plain w (conv_of w.me.key))
        (λ s q. Conserves-trans e w s (kcpev_udp_destroy s) q (udp_destroy-Conserves e s))
        (((Conserves-refl e w, evio), kcp), sock) h in
    elim (Bool-cases (is_nonneg ret)) [ inl good ↦ ends.0 good | inr bad ↦ ends.1 bad ]
