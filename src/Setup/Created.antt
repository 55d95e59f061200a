-- ===== src/Setup/Created.antt =====
-- `kcpev_create_client` step by step: what holds behind it, from what its steps keep.
use kcpev.Base.{
  ℕ, ◌≡◌, refl, subst, false, Option, none, some, ◌∷◌, is_nonneg, Option-cases, inl, inr, ok, arith,
}
use kcpev.Conn.{
  client_tcp, client_udp, Kcpev, conv_of, allocates, Trace, Env, World, Exit, next, error, crash,
  Body, ◌>>=◌, ◌>>◌, check, call,
}
use kcpev.Conn.Triples.{Triple, Outcome}
use kcpev.Life.{kcpev_create, kcpev_init_ev, kcpev_create_kcp, kcpev_destroy}
use kcpev.Setup.{kcpev_bind, kcp_mode, kcpev_create_client}

-- The new object, and what is done with it.
abbrev pub created : Trace → Kcpev → World
created t c = record { me = c; calls = allocates c.self ∷ t }

abbrev pub equips : Env → ℕ → Body World (Unit {0})
equips e conv = do
  ret ← call (kcpev_bind e false)
  check (is_nonneg ret)
  ret2 ← call (kcpev_create_kcp e conv kcp_mode)
  check (is_nonneg ret2)
  ret3 ← call (kcpev_init_ev e (some client_tcp) (some client_udp))
  check (is_nonneg ret3)

-- A new client, or none where there is no memory or a step fails.
pub create_client-ends :
    {P Q E : Kcpev → World → Type 0} (R : Option World → Trace → Type 0) (e : Env) (t t' : Trace)
    (o : Option World)
    → R none t
    → ((c : Kcpev) → kcpev_create (e.calloc t) (e.fresh t) ≡ some c → P c (created t c))
    → ((c : Kcpev) → Triple (P c) (equips e (conv_of c.key)) (λ _. Q c) (E c))
    → ((c : Kcpev) (w : World)
        → kcpev_create (e.calloc t) (e.fresh t) ≡ some c
        → Q c w
        → R (some w) w.calls)
    → ((c : Kcpev) (w : World)
        → kcpev_create (e.calloc t) (e.fresh t) ≡ some c
        → E c w
        → R none (kcpev_destroy w))
    → kcpev_create_client e t ≡ ok (o, t')
    → R o t'
unfolding kcpev_create_client
create_client-ends {P} {Q} {E} R e t t' o full new steps good bad h =
    elim (Option-cases (kcpev_create (e.calloc t) (e.fresh t))) [
      | inl none_made ↦ moved none t (ground (arith, none_made)) full
      | inr (c, made) ↦
          ended c made (equips e (conv_of c.key) (created t c)) refl
            ((steps c).at (created t c) (new c made))
    ]
  where
    moved :
        (o1 : Option World) (t1 : Trace) → kcpev_create_client e t ≡ ok (o1, t1) → R o1 t1 → R o t'
    moved o1 t1 f r =
        let same : o1 ≡ o = ground (arith, f) in
        let same_calls : t1 ≡ t' = ground (arith, f) in
        subst (λ (x : Option World). R x t') same (subst (λ (x : Trace). R o1 x) same_calls r)

    ended :
        (c : Kcpev)
        → kcpev_create (e.calloc t) (e.fresh t) ≡ some c
        → (x : Exit World (Unit {0})) → equips e (conv_of c.key) (created t c) ≡ x
        → Outcome (λ _. Q c) (E c) x
        → R o t'
    ended c made crash g q = absurd (ground (arith, made, g))
    ended c made (next a w) g q = moved (some w) w.calls (ground (arith, made, g)) (good c w made q)
    ended c made (error w) g q =
        moved none (kcpev_destroy w) (ground (arith, made, g)) (bad c w made q)
