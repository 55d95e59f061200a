-- ===== src/Setup/Accounts/Made.antt =====
-- What a new client takes, and what it gives back when it cannot be made.
use kcpev.Base.{true, ℕ, ◌+◌, ◌≡◌, refl, Bool, false, Option, none, some, ◌∷◌, ok, arith}
use kcpev.Conn.{Kcpev, conv_of, allocates, Trace, Env, World}
use kcpev.Life.{kcpev_create}
use kcpev.Setup.{kcpev_create_client}
use kcpev.Setup.Created.{created, create_client-ends}
use kcpev.Accounts.{one, memory, taken, given_back, has, Conserves, Conserves-refl, Kind}
use kcpev.Setup.Accounts.Stages.{New, Watched, made-Watched}
use kcpev.Setup.Accounts.{Plain, destroy-gives_back}

-- All that was taken since `t` was given back, but what the result has.
unfoldable pub Settled : Env → Trace → Option World → Trace → Type 0
Settled e t none t' = (k : Kind) → taken e t' k + given_back t k ≡ taken e t k + given_back t' k
Settled e t (some w) t' =
    ((k : Kind) → taken e t' k + given_back t k ≡ taken e t k + given_back t' k + has w.me k)
    × (w.calls ≡ t')
    × (w.me.udp.evt ≡ none)
    × (w.me.udp.evh ≡ none)

-- A `Kcpev` from `calloc` has nothing but its memory.
from_new :
    (e : Env) (self : ℕ) (c : Kcpev) (t : Trace) (w : World) (k : Kind)
    → kcpev_create (e.calloc t) self ≡ some c
    → Conserves e (record { me = c; calls = allocates c.self ∷ t }) w
    → taken e w.calls k + given_back t k ≡ taken e t k + given_back w.calls k + has w.me k
unfolding kcpev_create Conserves taken given_back
from_new e self c t w k made h =
    let only : has c k ≡ one (memory c.self) k = unfold has in ground (arith, made) in
    let got : e.calloc t ≡ true = ground (arith, made) in ground (arith, h k, only, got)

created-New :
    (e : Env) (plain : Plain e false) (b : Bool) (self : ℕ) (t : Trace) (c : Kcpev)
    → kcpev_create b self ≡ some c
    → New e plain (created t c) (created t c)
unfolding kcpev_create
created-New e plain b self t c made = (
  (
    (
      (
        (Conserves-refl e (created t c), ground (arith, made), ground (arith, made)),
        ground (arith, made),
      ),
      ground (arith, made),
    ),
    ground (arith, made),
  ),
  ground (arith, made),
  ground (arith, made),
)

-- A call of `kcpev_create_client` that returns no client has given back all that it took, each socket
-- by its descriptor and the memory of the client included; one that returns a client has the rest in
-- it, and the client has no timers. No `socket` gives the descriptor 0.
pub create_client-Settled :
    (e : Env) (t t' : Trace) (o : Option World)
    → Plain e false
    → kcpev_create_client e t ≡ ok (o, t')
    → Settled e t o t'
unfolding Settled
create_client-Settled e t t' o plain =
    create_client-ends {P = λ c. New e plain (created t c)} {Q = λ c. Watched e plain (created t c)}
      {E = λ c. Watched e plain (created t c)} (Settled e t) e t t' o (λ k. refl)
      (created-New e plain (e.calloc t) (e.fresh t) t)
      (λ c. made-Watched e plain (created t c) (conv_of c.key))
      (λ c w made q. ((λ k. from_new e (e.fresh t) c t w k made q.0), refl, q.1, q.2))
      (λ c w made q k.
        omega (arith, destroy-gives_back e w k, from_new e (e.fresh t) c t w k made q.0))
