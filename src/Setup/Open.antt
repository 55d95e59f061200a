-- ===== src/Setup/Open.antt =====
-- `connect_client_udp` where the calls that it makes succeed.
use kcpev.Base.{
  ℕ, ◌≡◌, refl, true, false, none, some, List, ◌∷◌, ◌==◌, pos, is_nonneg, to_nat, ok, arith,
}
use kcpev.Conn.{
  conv_of, server_udp, EvIo, Trace, connects, opens, kcp_creates, kcp_configures, io_starts,
  allocates, Env, World,
}
use kcpev.Life.{set_udp, kcpev_set_ev, kcpev_set_udp_ev, kcpev_init_ev, kcpev_create_kcp}
use kcpev.Setup.{bind_loop, kcpev_bind_socket, kcpev_bind_udp, kcp_mode, connect_client_udp}
use kcpev.Setup.Peer.{Connected, connect_client_udp_lem}

-- There are addresses, sockets other than 0, and memory, and no call is refused.
pub record Opens (e : Env) : Type 0 where
  pub addresses : (t : Trace) → (a : ℕ) × (as_ : List ℕ) × (e.getaddrinfo t ≡ some (a ∷ as_))
  pub sockets : (t : Trace) → is_nonneg (e.socket t) ≡ true
  pub positive : (t : Trace) → (to_nat (e.socket t) == 0) ≡ false
  pub options : (t : Trace) → is_nonneg (e.setsockopt t) ≡ true
  pub binds_all : (t : Trace) (sock : ℕ) → is_nonneg (e.bind t sock) ≡ true
  pub connects_all : (t : Trace) (sock : ℕ) → is_nonneg (e.connect t sock) ≡ true
  pub memory : (t : Trace) → e.calloc t ≡ true
  pub kcps : (t : Trace) → e.kcp_create t ≡ true

bind_socket-made :
    (e : Env)
    → Opens e
    → (sock : ℕ) (t : Trace)
    → ((kcpev_bind_socket e true sock t).0 ≡ pos 0)
      × (((kcpev_bind_socket e true sock t).1 == 0) ≡ false)
unfolding kcpev_bind_socket bind_loop
bind_socket-made e good sock t =
    let (a, as_, found) = good.addresses t in
    let t1 : Trace = opens a ∷ t in
    let opened = good.sockets t in
    let real = good.positive t in
    let set = good.options t1 in
    let bound = good.binds_all t1 (to_nat (e.socket t)) in
    (
      ground (arith, found, opened, real, set, bound),
      ground (arith, found, opened, real, set, bound),
    )

abbrev kcped : ℕ → World → World
kcped conv w =
    record (set_udp w (record (w.me.udp) { kcp = some (record { conv = conv; output = true }) })) {
      calls = kcp_configures w.me.self kcp_mode ∷ kcp_creates w.me.self conv ∷ w.calls;
    }

abbrev watched : World → World
watched w =
    let io : EvIo = record { cb = server_udp; fd = w.me.udp.sock } in
    record (set_udp w (record (w.me.udp) { evio = some io })) {
      calls = io_starts w.me.self io ∷ allocates w.me.self ∷ w.calls;
    }

module _ (e : Env) (good : Opens e) (w : World) where
  kcp-made : (conv : ℕ) → kcpev_create_kcp e conv kcp_mode w ≡ ok (pos 0, kcped conv w)
  unfolding kcpev_create_kcp
  kcp-made conv = ground (arith, good.kcps w.calls)

  init_ev-made :
      (w.me.udp.sock == 0) ≡ false
      → kcpev_init_ev e none (some server_udp) w ≡ ok (pos 0, watched w)
  unfolding kcpev_init_ev kcpev_set_udp_ev kcpev_set_ev
  init_ev-made has = ground (arith, has, good.memory w.calls)

-- Where its calls succeed, `connect_client_udp` returns 0, with the UDP side connected.
pub connect_client_udp-made :
    (e : Env)
    → Opens e
    → (w : World) → (w' : World) × (connect_client_udp e w ≡ ok (pos 0, w')) × Connected w.me w'.me
unfolding connect_client_udp kcpev_bind_udp
connect_client_udp-made e good w =
    let r = kcpev_bind_socket e true w.me.udp.sock w.calls in
    let (bound, has) = bind_socket-made e good w.me.udp.sock w.calls in
    let w1 = record (set_udp w (record (w.me.udp) { sock = r.1 })) { calls = connects r.1 ∷ r.2 } in
    let w2 = kcped (conv_of w.me.key) w1 in
    let p : connect_client_udp e w ≡ ok (pos 0, watched w2) = ground (
      arith,
      bound,
      good.connects_all r.2 r.1,
      kcp-made e good w1 (conv_of w.me.key),
      init_ev-made e good w2 has,
    ) in
    (watched w2, p, (connect_client_udp_lem e w (watched w2) (pos 0) p).0 refl)
