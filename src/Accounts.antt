-- ===== src/Accounts.antt =====
-- What a connection takes from the system, libev and kcp, and gives back.
pub mod Calls
use kcpev.Base.{
  none, ap, arith, ℕ, ◌+◌, ◌≡◌, ◌==◌, if◌then◌else◌, Bool, true, false, [], ◌∷◌, is_nonneg, to_nat,
  Option, some,
}
use kcpev.Conn.Keeps.{IsPreorder}
use kcpev.Conn.{
  Call, opens, closes, io_starts, io_stops, timer_starts, timer_stops, frees_timer, kcp_creates,
  kcp_releases, allocates, frees, EvIo, EvTimer, Kcpev, is_some, Trace, Env, World,
}

-- A socket by its descriptor; a watcher that libev has by the descriptor it looks at; the timers that
-- libev runs, the kcp objects and the pieces of memory by the connection that owns them. The memory of
-- a ring, which `on_tcp_recv` allocates, is not counted.
pub data Kind : Type 0 where
  sockets watchers timers kcps memory : ℕ → Kind

-- One thing of the first kind counts for one of the second, if they are the same.
unfoldable pub one : Kind → Kind → ℕ
one (sockets a) (sockets b) = if a == b then 1 else 0
one (watchers a) (watchers b) = if a == b then 1 else 0
one (timers a) (timers b) = if a == b then 1 else 0
one (kcps a) (kcps b) = if a == b then 1 else 0
one (memory a) (memory b) = if a == b then 1 else 0
one _ _ = 0

abbrev pub one_if : Bool → Kind → Kind → ℕ
one_if b j k = if b then one j k else 0

-- What a call takes, by the answer that it gets behind the calls `t`. A watcher is stopped and its
-- memory freed by `io_stops`; a timer that is freed and not stopped is still one that libev runs.
unfoldable pub takes : Env → Call → Trace → Kind → ℕ
takes e (opens _) t k = one_if (is_nonneg (e.socket t)) (sockets (to_nat (e.socket t))) k
takes e (io_starts _ io) t k = one (watchers io.fd) k
takes e (timer_starts self _) t k = one (timers self) k
takes e (kcp_creates self _) t k = one_if (e.kcp_create t) (kcps self) k
takes e (allocates self) t k = one_if (e.calloc t) (memory self) k
takes e _ t k = 0

unfoldable pub gives_back : Call → Kind → ℕ
gives_back (closes sock) k = one (sockets sock) k
gives_back (io_stops self io) k = one (watchers io.fd) k + one (memory self) k
gives_back (timer_stops self _) k = one (timers self) k
gives_back (frees_timer self _) k = one (memory self) k
gives_back (kcp_releases self) k = one (kcps self) k
gives_back (frees self) k = one (memory self) k
gives_back _ k = 0

unfoldable pub taken : Env → Trace → Kind → ℕ
unfolding takes
taken e [] k = 0
taken e (c ∷ t) k = takes e c t k + taken e t k

unfoldable pub given_back : Trace → Kind → ℕ
unfolding gives_back
given_back [] k = 0
given_back (c ∷ t) k = gives_back c k + given_back t k

-- A socket of 0 is none.
abbrev pub one_socket : ℕ → Kind → ℕ
one_socket s k = if s == 0 then 0 else one (sockets s) k

-- A watcher with its memory, and a timer that runs with its memory.
abbrev pub one_watcher : ℕ → Option EvIo → Kind → ℕ
one_watcher self none k = 0
one_watcher self (some io) k = one (watchers io.fd) k + one (memory self) k

abbrev pub one_timer : ℕ → Option EvTimer → Kind → ℕ
one_timer self none k = 0
one_timer self (some _) k = one (timers self) k + one (memory self) k

-- What a connection has, its own memory included.
unfoldable pub has : Kcpev → Kind → ℕ
has c k =
    one (memory c.self) k
    + one_socket c.tcp.sock k
    + one_socket c.udp.sock k
    + one_watcher c.self c.tcp.evio k
    + one_watcher c.self c.udp.evio k
    + one_timer c.self c.udp.evt k
    + one_timer c.self c.udp.evh k
    + one_if (is_some c.udp.kcp) (kcps c.self) k

-- From `w` to `w'` it loses `lost` of each kind: takes, and neither gives back nor still has.
unfoldable pub Loses : Env → (Kind → ℕ) → World → World → Type 0
Loses e lost w w' =
    (k : Kind)
    → taken e w'.calls k + given_back w.calls k + has w.me k
      ≡ taken e w.calls k + given_back w'.calls k + has w'.me k + lost k

-- Nothing is lost.
unfoldable pub Conserves : Env → World → World → Type 0
unfolding Loses
Conserves e w w' = Loses e (λ _. 0) w w'

module _ (e : Env) where
  pub Conserves-refl : (w : World) → Conserves e w w
  unfolding Conserves
  Conserves-refl w k = omega arith

  pub Conserves-trans : (w w1 w2 : World) → Conserves e w w1 → Conserves e w1 w2 → Conserves e w w2
  unfolding Conserves
  Conserves-trans w w1 w2 h g k = omega (arith, h k, g k)

-- `kcpev_malloc` always succeeds.
pub record HasMemory (e : Env) : Type 0 where
  pub memory : (t : Trace) → e.calloc t ≡ true

-- No second timer runs without the first.
pub record IsPaired (c : Kcpev) : Type 0 where
  pub paired : c.udp.evt ≡ none → c.udp.evh ≡ none

-- Where the timers are paired they stay so, and nothing is lost.
pub record Careful (e : Env) (w w' : World) : Type 0 where
  pub paired : IsPaired w.me → IsPaired w'.me
  pub conserves : IsPaired w.me → Conserves e w w'

pub Careful-IsPreorder : (e : Env) → IsPreorder (Careful e)
Careful-IsPreorder e = record {
  same = λ w. record { paired = λ p. p; conserves = λ p. Conserves-refl e w };
  trans = λ s t u h g. record {
    paired = λ p. g.paired (h.paired p);
    conserves = λ p. Conserves-trans e s t u (h.conserves p) (g.conserves (h.paired p));
  };
}

-- What leaves the timers alone.
pub Careful-of_Conserves :
    {e : Env} {w w' : World}
    → w'.me.udp.evt ≡ w.me.udp.evt
    → w'.me.udp.evh ≡ w.me.udp.evh
    → Conserves e w w'
    → Careful e w w'
Careful-of_Conserves evt evh c = record {
  paired = λ p. record { paired = λ n. ground (arith, p, evt, evh) };
  conserves = λ p. c;
}

-- The same sockets, watchers, timers and kcp object.
pub record SameParts (c c' : Kcpev) : Type 0 where
  pub self : c'.self ≡ c.self
  pub tcp_sock : c'.tcp.sock ≡ c.tcp.sock
  pub tcp_evio : c'.tcp.evio ≡ c.tcp.evio
  pub udp_sock : c'.udp.sock ≡ c.udp.sock
  pub udp_evio : c'.udp.evio ≡ c.udp.evio
  pub evt : c'.udp.evt ≡ c.udp.evt
  pub evh : c'.udp.evh ≡ c.udp.evh
  pub kcp : is_some c'.udp.kcp ≡ is_some c.udp.kcp

pub has-SameParts : {c c' : Kcpev} → SameParts c c' → (k : Kind) → has c' k ≡ has c k
unfolding has
has-SameParts s k = ground (arith, s)

pub Careful-quiet :
    {e : Env} (w w' : World) → w'.calls ≡ w.calls → SameParts w.me w'.me → Careful e w w'
unfolding Conserves
Careful-quiet {e} w w' calls s = Careful-of_Conserves s.evt s.evh (λ k. omega (
  arith,
  ap (λ (t : Trace). taken e t k) calls,
  ap (λ (t : Trace). given_back t k) calls,
  has-SameParts s k,
))
