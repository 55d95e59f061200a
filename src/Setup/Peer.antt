-- ===== src/Setup/Peer.antt =====
-- What `connect_client_udp` leaves.
use kcpev.Base.{
  ◌⊎◌, Bool-cases, ℕ, ◌≡◌, refl, ◌∙◌, inl, inr, Option-cases, Bool, true, false, none, some, List,
  [], ◌∷◌, ◌==◌, ℤ, is_nonneg, to_nat, ok, arith,
}
use kcpev.Conn.{
  conv_of, server_udp, Kcpev, Trace, opens, closes, binds, Env, World, ◌>>=◌, check, call,
}
use kcpev.Conn.Triples.{Triple-tested, Triple-then}
use kcpev.Life.{kcpev_udp_destroy, kcpev_set_ev, kcpev_set_udp_ev, kcpev_init_ev, kcpev_create_kcp}
use kcpev.Setup.{bind_loop, kcpev_bind_socket, kcpev_bind_udp, kcp_mode, connect_client_udp}
use kcpev.Setup.Reach.{connect_client_udp-ends}

-- A socket that is kept is not 0.
bind_loop-kept :
    (e : Env) (reuse : Bool) (as_ : List ℕ) (t : Trace)
    → is_nonneg (bind_loop e reuse as_ t).0 ≡ true
    → ((bind_loop e reuse as_ t).1 == 0) ≡ false
unfolding bind_loop
bind_loop-kept e reuse [] t h = ground arith
bind_loop-kept e reuse (a ∷ as_) t h =
    let next = bind_loop-kept e reuse as_ (opens a ∷ t) in
    let closed =
      bind_loop-kept e reuse as_
        (closes (to_nat (e.socket t)) ∷ binds (to_nat (e.socket t)) ∷ opens a ∷ t) in
    ground (arith, next, closed)

pub bind_socket-kept :
    (e : Env) (reuse : Bool) (sock : ℕ) (t : Trace)
    → is_nonneg (kcpev_bind_socket e reuse sock t).0 ≡ true
    → ((kcpev_bind_socket e reuse sock t).1 == 0) ≡ false
unfolding kcpev_bind_socket
bind_socket-kept e reuse sock t h = elim (Option-cases (e.getaddrinfo t)) [
  | inl unknown ↦ absurd (ground (arith, unknown))
  | inr (as_, found) ↦ ground (arith, found, bind_loop-kept e reuse as_ t)
]

-- The UDP side is connected, with a socket and a new kcp object of the key's number.
pub record Connected (c c' : Kcpev) : Type 0 where
  pub key : c'.key ≡ c.key
  pub tcp : c'.tcp ≡ c.tcp
  pub status : c'.udp.status ≡ c.udp.status
  pub evt : c'.udp.evt ≡ c.udp.evt
  pub evh : c'.udp.evh ≡ c.udp.evh
  pub evio :
      (c'.udp.evio ≡ c.udp.evio)
      ⊎ (c'.udp.evio ≡ some (record { cb = server_udp; fd = c'.udp.sock }))
  pub sock : (c'.udp.sock == 0) ≡ false
  pub kcp : c'.udp.kcp ≡ some (record { conv = conv_of c.key; output = true })

-- Or all of it is released but its status.
pub record CutOff (c c' : Kcpev) : Type 0 where
  pub key : c'.key ≡ c.key
  pub tcp : c'.tcp ≡ c.tcp
  pub status : c'.udp.status ≡ c.udp.status
  pub evt : c'.udp.evt ≡ none
  pub evh : c'.udp.evh ≡ none
  pub evio : c'.udp.evio ≡ none
  pub sock : c'.udp.sock ≡ 0
  pub kcp : c'.udp.kcp ≡ none

-- What the steps of a handshake read is the same.
record SameHand (c c' : Kcpev) : Type 0 where
  key : c'.key ≡ c.key
  tcp : c'.tcp ≡ c.tcp
  status : c'.udp.status ≡ c.udp.status
  evt : c'.udp.evt ≡ c.udp.evt
  evh : c'.udp.evh ≡ c.udp.evh
  evio : c'.udp.evio ≡ c.udp.evio

SameHand-refl : (c : Kcpev) → SameHand c c
SameHand-refl c = record {
  key = refl;
  tcp = refl;
  status = refl;
  evt = refl;
  evh = refl;
  evio = refl;
}

SameHand-trans : {a b c : Kcpev} → SameHand a b → SameHand b c → SameHand a c
SameHand-trans k l = record {
  key = l.key ∙ k.key;
  tcp = l.tcp ∙ k.tcp;
  status = l.status ∙ k.status;
  evt = l.evt ∙ k.evt;
  evh = l.evh ∙ k.evh;
  evio = l.evio ∙ k.evio;
}

udp_destroy-CutOff :
    (w : World) (c : Kcpev) → SameHand c w.me → CutOff c (World.me (kcpev_udp_destroy w))
unfolding kcpev_udp_destroy
udp_destroy-CutOff w c k = record {
  key = k.key;
  tcp = k.tcp;
  status = k.status;
  evt = refl;
  evh = refl;
  evio = refl;
  sock = refl;
  kcp = refl;
}

-- The steps from a state with the same hand: what each one leaves.
module _ (e : Env) (w0 : World) where
  abbrev Same : World → Type 0
  Same s = SameHand w0.me s.me

  abbrev Bound : World → Type 0
  Bound s = Same s × ((s.me.udp.sock == 0) ≡ false)

  abbrev Kcped : World → Type 0
  Kcped s = Bound s × (s.me.udp.kcp ≡ some (record { conv = conv_of w0.me.key; output = true }))

  bind_udp-Bound :
      (s t : World) (ret : ℤ)
      → Same s
      → kcpev_bind_udp e true s ≡ ok (ret, t)
      → (is_nonneg ret ≡ true → Bound t) × (is_nonneg ret ≡ false → Same t)
  unfolding kcpev_bind_udp
  bind_udp-Bound s t ret p h =
      let same : SameHand s.me t.me = record {
        key = ground arith;
        tcp = ground arith;
        status = ground arith;
        evt = ground arith;
        evh = ground arith;
        evio = ground arith;
      } in
      (
        λ good.
            (SameHand-trans p same, ground (arith, bind_socket-kept e true s.me.udp.sock s.calls)),
        λ bad. SameHand-trans p same,
      )

  create_kcp-Kcped :
      (s t : World) (ret : ℤ)
      → Bound s
      → kcpev_create_kcp e (conv_of w0.me.key) kcp_mode s ≡ ok (ret, t)
      → (is_nonneg ret ≡ true → Kcped t) × (is_nonneg ret ≡ false → Same t)
  unfolding kcpev_create_kcp
  create_kcp-Kcped s t ret (p, sock) h =
      let same : SameHand s.me t.me = record {
        key = ground arith;
        tcp = ground arith;
        status = ground arith;
        evt = ground arith;
        evh = ground arith;
        evio = ground arith;
      } in
      (
        λ good. ((SameHand-trans p same, ground (arith, sock)), ground arith),
        λ bad. SameHand-trans p same,
      )

  init_ev-Connected :
      (s t : World) (ret : ℤ)
      → Kcped s
      → kcpev_init_ev e none (some server_udp) s ≡ ok (ret, t)
      → (is_nonneg ret ≡ true → Connected w0.me t.me) × (is_nonneg ret ≡ false → Same t)
  unfolding kcpev_init_ev kcpev_set_udp_ev kcpev_set_ev
  init_ev-Connected s t ret ((p, sock), kcp) h = (
    λ good. record {
      key = ground (arith, p);
      tcp = ground (arith, p);
      status = ground (arith, p);
      evt = ground (arith, p);
      evh = ground (arith, p);
      evio = elim (Bool-cases (e.calloc s.calls)) [
        | inl got ↦ inr (ground (arith, sock, got))
        | inr full ↦ inl (ground (arith, p, sock, full))
      ];
      sock = ground (arith, sock);
      kcp = ground (arith, kcp);
    },
    λ bad. absurd (ground (arith, sock, bad)),
  )

-- A call of `connect_client_udp` that returns keeps the key, the status and the TCP side; with a
-- result of 0 the UDP side has a socket and a kcp object of the key's number, with -1 it has nothing.
pub connect_client_udp_lem :
    (e : Env) (w w' : World) (ret : ℤ)
    → connect_client_udp e w ≡ ok (ret, w')
    → (is_nonneg ret ≡ true → Connected w.me w'.me) × (is_nonneg ret ≡ false → CutOff w.me w'.me)
connect_client_udp_lem e w w' ret =
    connect_client_udp-ends (λ s. CutOff w.me s.me) e w w' ret (bind_udp-Bound e w) (λ s p. p)
      (λ s p. p.0)
      (Triple-then (kcpev_create_kcp e (conv_of w.me.key) kcp_mode) (create_kcp-Kcped e w)
        (do ret3 ← call (kcpev_init_ev e none (some server_udp)); check (is_nonneg ret3))
        (Triple-tested (kcpev_init_ev e none (some server_udp)) (init_ev-Connected e w)))
      (λ s. udp_destroy-CutOff s w.me) (SameHand-refl w.me)
