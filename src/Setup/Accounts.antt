-- ===== src/Setup/Accounts.antt =====
-- What the set-up of a connection takes.
pub mod Again
pub mod Connect
pub mod Made
pub mod Peer
mod Stages
mod Tests
use kcpev.Base.{
  ℕ, ◌+◌, ◌≡◌, refl, Bool, true, false, ◌==◌, if◌then◌else◌, Option, none, some, List, [], ◌∷◌, ℤ,
  pos, is_nonneg, to_nat, inl, inr, Option-cases, Bool-cases, ◌⊎◌, ◌&&◌, subst, sym, Run, ok, fault,
  arith,
}
use kcpev.Conn.Triples.{Triple, Outcome}
use kcpev.Conn.Keeps.{keeps_rules, Keeps-call, Keeps-modify, returns_code-Keeps}
use kcpev.Conn.{
  Body, server_udp, is_some, connects, get, call, check, pure, modify, ◌>>=◌, ◌>>◌, opens, closes,
  binds, IoCb, Kcpev, Trace, Env, World,
}
use kcpev.Life.{
  set_tcp, set_udp, kcpev_create, kcpev_destroy, kcpev_udp_destroy, kcpev_tcp_destroy, kcpev_set_ev,
  kcpev_set_tcp_ev, kcpev_set_udp_ev, kcpev_init_ev, kcpev_create_kcp,
}
use kcpev.Setup.{
  kcp_mode, connect_loop, close_udp, bind_loop, kcpev_bind_socket, kcpev_bind_tcp, kcpev_bind_udp,
  kcpev_bind, kcpev_connect_socket, kcpev_connect,
}
use kcpev.Accounts.{
  one, one_socket, one_if, taken, given_back, has, Loses, Conserves, Conserves-trans, Careful,
  Careful-of_Conserves, Careful-IsPreorder, Kind,
}

-- `socket` gives no descriptor 0, which the code takes for none; and no `setsockopt` fails where it is
-- called.
pub record Plain (e : Env) (reuse : Bool) : Type 0 where
  pub socket : (t : Trace) → is_nonneg (e.socket t) ≡ true → (to_nat (e.socket t) == 0) ≡ false
  pub reused : (t : Trace) → (if reuse then is_nonneg (e.setsockopt t) else true) ≡ true

module _ (e : Env) (reuse : Bool) (plain : Plain e reuse) where
  bind_loop-taken :
      (as_ : List ℕ) (t : Trace) (k : Kind)
      → taken e (bind_loop e reuse as_ t).2 k + given_back t k
        ≡ taken e t k
          + given_back (bind_loop e reuse as_ t).2 k
          + one_socket (bind_loop e reuse as_ t).1 k
  unfolding kcpev_bind_socket taken given_back
  bind_loop-taken [] t k = ground arith
  bind_loop-taken (a ∷ as_) t k =
      let s = e.socket t in
      ground (
        arith,
        plain.socket t,
        plain.reused (opens a ∷ t),
        bind_loop-taken as_ (opens a ∷ t) k,
        bind_loop-taken as_ (closes (to_nat s) ∷ binds (to_nat s) ∷ opens a ∷ t) k,
      )

  -- Where an address is found, the socket that was there before is overwritten.
  pub bind_socket-taken :
      (sock : ℕ) (t : Trace) (k : Kind)
      → taken e (kcpev_bind_socket e reuse sock t).2 k + given_back t k + one_socket sock k
        ≡ taken e t k
          + given_back (kcpev_bind_socket e reuse sock t).2 k
          + one_socket (kcpev_bind_socket e reuse sock t).1 k
          + (if is_some (e.getaddrinfo t) then one_socket sock k else 0)
  unfolding kcpev_bind_socket
  bind_socket-taken sock t k = elim (Option-cases (e.getaddrinfo t)) [
    | inl unknown ↦ ground (arith, unknown)
    | inr (as_, found) ↦ ground (arith, found, bind_loop-taken as_ t k)
  ]

  abbrev bound_tcp : World → World
  bound_tcp w =
      let (ret, s, t) = kcpev_bind_socket e reuse w.me.tcp.sock w.calls in
      record (set_tcp w (record (w.me.tcp) { sock = s })) { calls = t }

  abbrev bound_udp : World → World
  bound_udp w =
      let (ret, s, t) = kcpev_bind_socket e reuse w.me.udp.sock w.calls in
      record (set_udp w (record (w.me.udp) { sock = s })) { calls = t }

  bound_tcp-Conserves : (w : World) → w.me.tcp.sock ≡ 0 → Conserves e w (bound_tcp w)
  unfolding Conserves has
  bound_tcp-Conserves w free k =
      let b = bind_socket-taken w.me.tcp.sock w.calls k in ground (arith, b)

  pub bound_udp-Conserves : (w : World) → w.me.udp.sock ≡ 0 → Conserves e w (bound_udp w)
  unfolding Conserves has
  bound_udp-Conserves w free k =
      let b = bind_socket-taken w.me.udp.sock w.calls k in ground (arith, b)

  -- It ends behind the TCP side or behind both.
  pub bind-ends :
      (w w' : World) (ret : ℤ)
      → kcpev_bind e reuse w ≡ ok (ret, w')
      → (w' ≡ bound_tcp w) ⊎ (w' ≡ bound_udp (bound_tcp w))
  unfolding kcpev_bind kcpev_bind_tcp kcpev_bind_udp
  bind-ends w w' ret h =
      let (r, s, t) = kcpev_bind_socket e reuse w.me.tcp.sock w.calls in
      elim (Bool-cases (is_nonneg r && e.getsockname t && e.getnameinfo t)) [
        | inl good ↦ inr (ground (arith, good))
        | inr bad ↦ inl (ground (arith, bad))
      ]

  pub bind-Conserves :
      (w w' : World) (ret : ℤ)
      → w.me.tcp.sock ≡ 0
      → w.me.udp.sock ≡ 0
      → kcpev_bind e reuse w ≡ ok (ret, w')
      → Conserves e w w'
  bind-Conserves w w' ret tcp udp h = elim (bind-ends w w' ret h) [
    | inl one ↦ subst (Conserves e w) (sym one) (bound_tcp-Conserves w tcp)
    | inr both ↦ subst (Conserves e w) (sym both) (
        Conserves-trans e w (bound_tcp w) (bound_udp (bound_tcp w)) (bound_tcp-Conserves w tcp)
          (bound_udp-Conserves (bound_tcp w) udp))
  ]

module _ (e : Env) (w w' : World) (ret : ℤ) where
  pub create_kcp-Conserves :
      (conv mode : ℕ)
      → w.me.udp.kcp ≡ none
      → kcpev_create_kcp e conv mode w ≡ ok (ret, w')
      → Conserves e w w'
  unfolding kcpev_create_kcp Conserves has taken given_back
  create_kcp-Conserves conv mode free h k = ground arith

  pub set_tcp_ev-Conserves :
      (cb : IoCb) → w.me.tcp.evio ≡ none → kcpev_set_tcp_ev e cb w ≡ ok (ret, w') → Conserves e w w'
  unfolding kcpev_set_tcp_ev kcpev_set_ev Conserves has taken given_back
  set_tcp_ev-Conserves cb free h k = ground arith

  pub set_udp_ev-Conserves :
      (cb : IoCb) → w.me.udp.evio ≡ none → kcpev_set_udp_ev e cb w ≡ ok (ret, w') → Conserves e w w'
  unfolding kcpev_set_udp_ev kcpev_set_ev Conserves has taken given_back
  set_udp_ev-Conserves cb free h k = ground arith

-- `kcpev_destroy` gives back all that the connection has.
pub destroy-gives_back :
    (e : Env) (w : World) (k : Kind)
    → taken e (kcpev_destroy w) k + given_back w.calls k + has w.me k
      ≡ taken e w.calls k + given_back (kcpev_destroy w) k
unfolding kcpev_destroy kcpev_udp_destroy kcpev_tcp_destroy has taken given_back
destroy-gives_back e w k = ground arith
