-- ===== src/Setup/Accounts/Again.antt =====
-- A UDP side that is connected once more: what was there before is lost.
use kcpev.Base.{
  ℕ, ◌+◌, ◌≡◌, refl, true, false, none, some, ◌==◌, ℤ, is_nonneg, inl, inr, Option-cases, ok, arith,
}
use kcpev.Conn.{server_udp, Kcpev, conv_of, is_some, Trace, Env, World, ◌>>=◌, check, call}
use kcpev.Conn.Triples.{Triple, Triple-then, Triple-tested, when_good}
use kcpev.Life.{kcpev_set_ev, kcpev_set_udp_ev, kcpev_init_ev, kcpev_create_kcp}
use kcpev.Setup.{kcpev_bind_socket, kcpev_bind_udp, kcp_mode, connect_client_udp}
use kcpev.Setup.Peer.{bind_socket-kept}
use kcpev.Accounts.{Kind, kcps, one_watcher, one_socket, one_if, taken, given_back, has, Loses}
use kcpev.Setup.Reach.{connected, wired_up, connect_client_udp-ends}
use kcpev.Setup.Accounts.{Plain, bind_socket-taken}

-- The socket, the watcher and the kcp object of the UDP side.
unfoldable pub udp_parts : Kcpev → Kind → ℕ
udp_parts c k =
    one_socket c.udp.sock k
    + one_watcher c.self c.udp.evio k
    + one_if (is_some c.udp.kcp) (kcps c.self) k

module _ (e : Env) (plain : Plain e true) (memory : (t : Trace) → e.calloc t ≡ true)
    (w0 : World) where
  abbrev lost_socket : Kind → ℕ
  lost_socket k = one_socket w0.me.udp.sock k

  abbrev lost_kcp : Kind → ℕ
  lost_kcp k = lost_socket k + one_if (is_some w0.me.udp.kcp) (kcps w0.me.self) k

  abbrev Bound : World → Type 0
  Bound s =
      Loses e lost_socket w0 s
      × (s.me.self ≡ w0.me.self)
      × (s.me.udp.kcp ≡ w0.me.udp.kcp)
      × (s.me.udp.evio ≡ w0.me.udp.evio)
      × ((s.me.udp.sock == 0) ≡ false)

  abbrev Kcped : World → Type 0
  Kcped s =
      Loses e lost_kcp w0 s
      × (s.me.self ≡ w0.me.self)
      × (s.me.udp.evio ≡ w0.me.udp.evio)
      × ((s.me.udp.sock == 0) ≡ false)

  bind-Loses :
      (t : World) (ret : ℤ)
      → kcpev_bind_udp e true w0 ≡ ok (ret, t)
      → is_nonneg ret ≡ true
      → Loses e lost_socket w0 t
  unfolding kcpev_bind_udp kcpev_bind_socket Loses has
  bind-Loses t ret h good k = elim (Option-cases (e.getaddrinfo w0.calls)) [
    | inl unknown ↦ absurd (ground (arith, unknown))
    | inr (as_, found) ↦
        let b = bind_socket-taken e true plain w0.me.udp.sock w0.calls k in ground (arith, found, b)
  ]

  bind-Bound :
      (s t : World) (ret : ℤ)
      → s ≡ w0
      → kcpev_bind_udp e true s ≡ ok (ret, t)
      → is_nonneg ret ≡ true
      → Bound t
  unfolding kcpev_bind_udp
  bind-Bound s t ret same h good =
      let h0 : kcpev_bind_udp e true w0 ≡ ok (ret, t) = rw same at h in
      (
        bind-Loses t ret h0 good,
        ground (arith, h0),
        ground (arith, h0),
        ground (arith, h0),
        ground (arith, h0, bind_socket-kept e true w0.me.udp.sock w0.calls),
      )

  create_kcp-Kcped :
      (conv : ℕ) (s t : World) (ret : ℤ)
      → Bound s
      → kcpev_create_kcp e conv kcp_mode s ≡ ok (ret, t)
      → is_nonneg ret ≡ true
      → Kcped t
  unfolding kcpev_create_kcp Loses taken given_back has
  create_kcp-Kcped conv s t ret (l, self, kcp, evio, sock) h good =
      (λ k. ground (arith, l k), ground arith, ground arith, ground arith)

  init_ev-Done :
      (s t : World) (ret : ℤ)
      → Kcped s
      → kcpev_init_ev e none (some server_udp) s ≡ ok (ret, t)
      → is_nonneg ret ≡ true
      → Loses e (udp_parts w0.me) w0 t
  unfolding kcpev_init_ev kcpev_set_udp_ev kcpev_set_ev Loses taken given_back has udp_parts
  init_ev-Done s t ret (l, self, evio, sock) h good k = ground (arith, l k, memory s.calls)

  connected-Bound : (s : World) → Bound s → Bound (connected s)
  unfolding Loses taken given_back
  connected-Bound s (l, self, kcp, evio, sock) = ((λ k. omega (arith, l k)), self, kcp, evio, sock)

  wired_up-Done :
      (conv : ℕ) → Triple Bound (wired_up e conv) (λ _. Loses e (udp_parts w0.me) w0) (λ _. Unit)
  wired_up-Done conv =
      Triple-then (kcpev_create_kcp e conv kcp_mode)
        (when_good (kcpev_create_kcp e conv kcp_mode) (create_kcp-Kcped conv))
        (do ret3 ← call (kcpev_init_ev e none (some server_udp)); check (is_nonneg ret3))
        (Triple-tested (kcpev_init_ev e none (some server_udp))
          (when_good (kcpev_init_ev e none (some server_udp)) init_ev-Done))

-- A call of `connect_client_udp` that succeeds loses exactly the socket, the watcher, with its
-- memory, and the kcp object that the UDP side had before, as many as there were: they are neither
-- given back nor kept. No `socket` gives the descriptor 0, and no `setsockopt` or `kcpev_malloc`
-- fails.
pub connect_client_udp-Loses :
    (e : Env) (w w' : World) (ret : ℤ)
    → Plain e true
    → ((t : Trace) → e.calloc t ≡ true)
    → connect_client_udp e w ≡ ok (ret, w')
    → is_nonneg ret ≡ true
    → Loses e (udp_parts w.me) w w'
connect_client_udp-Loses e w w' ret plain memory h good =
    (connect_client_udp-ends {P = λ s. s ≡ w} {B = Bound e plain memory w}
        {Q = Loses e (udp_parts w.me) w} {E = λ _. Unit {0}} (λ _. Unit {0}) e w w' ret
        (when_good (kcpev_bind_udp e true) (bind-Bound e plain memory w))
        (connected-Bound e plain memory w) (λ s q. tt)
        (wired_up-Done e plain memory w (conv_of w.me.key)) (λ s q. tt) refl h).0
      good
