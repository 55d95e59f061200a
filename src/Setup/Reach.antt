-- ===== src/Setup/Reach.antt =====
-- `connect_client_udp` step by step: what holds behind it, from what its steps keep.
use kcpev.Base.{ℕ, ◌≡◌, refl, subst, Bool, true, false, none, some, ◌∷◌, ℤ, is_nonneg, ok, arith}
use kcpev.Conn.{
  server_udp, conv_of, connects, Env, World, Exit, next, error, crash, Body, ◌>>=◌, ◌>>◌, get,
  modify, check, call,
}
use kcpev.Conn.Triples.{Triple, Outcome, Triple-then}
use kcpev.Life.{kcpev_udp_destroy, kcpev_init_ev, kcpev_create_kcp}
use kcpev.Setup.{kcpev_bind_udp, kcp_mode, connect_client_udp}

-- The rest of `connect_client_udp` behind its socket: `connect`, then the kcp object and the watcher.
abbrev pub connected : World → World
connected w = record w { calls = connects w.me.udp.sock ∷ w.calls }

abbrev pub wired_up : Env → ℕ → Body World (Unit {0})
wired_up e conv = do
  ret2 ← call (kcpev_create_kcp e conv kcp_mode)
  check (is_nonneg ret2)
  ret3 ← call (kcpev_init_ev e none (some server_udp))
  check (is_nonneg ret3)

abbrev reaches : Env → Body World (Unit {0}) → Body World (Unit {0})
reaches e rest = do
  w1 ← get
  modify (λ w2. record w2 { calls = connects w1.me.udp.sock ∷ w2.calls })
  check (is_nonneg (e.connect w1.calls w1.me.udp.sock))
  rest

reaches-Triple :
    {P E : World → Type 0} {R : Unit {0} → World → Type 0} (e : Env) (rest : Body World (Unit {0}))
    → ((s : World) → P s → P (connected s))
    → ((s : World) → P s → E s)
    → Triple P rest R E
    → Triple P (reaches e rest) R E
reaches-Triple {P} {E} {R} e rest logged fails tr = record {
  at = λ s p. tried s p (is_nonneg (e.connect s.calls s.me.udp.sock));
}
  where
    tried : (s : World) → P s → (b : Bool) → Outcome R E ((check b >> rest) (connected s))
    tried s p true = tr.at (connected s) (logged s p)
    tried s p false = fails (connected s) (logged s p)

-- What holds behind its steps where they succeed, and behind the release where one fails.
pub connect_client_udp-ends :
    {P B Q E : World → Type 0} (F : World → Type 0) (e : Env) (w w' : World) (ret : ℤ)
    → ((s t : World) (r : ℤ)
        → P s
        → kcpev_bind_udp e true s ≡ ok (r, t)
        → (is_nonneg r ≡ true → B t) × (is_nonneg r ≡ false → E t))
    → ((s : World) → B s → B (connected s))
    → ((s : World) → B s → E s)
    → Triple B (wired_up e (conv_of w.me.key)) (λ _. Q) E
    → ((s : World) → E s → F (kcpev_udp_destroy s))
    → P w
    → connect_client_udp e w ≡ ok (ret, w')
    → (is_nonneg ret ≡ true → Q w') × (is_nonneg ret ≡ false → F w')
unfolding connect_client_udp
connect_client_udp-ends {Q} {E} F e w w' ret binds_ logged fails wires released p h =
    ended (body w) refl (
      (Triple-then (kcpev_bind_udp e true) binds_ (reaches e (wired_up e (conv_of w.me.key)))
          (reaches-Triple e (wired_up e (conv_of w.me.key)) logged fails wires)).at
        w p)
  where
    body : Body World (Unit {0})
    body = do
      ret ← call (kcpev_bind_udp e true)
      check (is_nonneg ret)
      reaches e (wired_up e (conv_of w.me.key))

    ended :
        (x : Exit World (Unit {0}))
        → body w ≡ x
        → Outcome (λ _. Q) E x
        → (is_nonneg ret ≡ true → Q w') × (is_nonneg ret ≡ false → F w')
    ended crash g q = absurd (ground (arith, g))
    ended (next a s) g q =
        (λ good. subst Q (ground (arith, g)) q, λ bad. absurd (ground (arith, g, bad)))
    ended (error s) g q = (
      λ good. absurd (ground (arith, g, good)),
      λ bad. subst F (ground (arith, g)) (released s q),
    )
