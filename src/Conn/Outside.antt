-- ===== src/Conn/Outside.antt =====
-- What lies outside src/: the calls that kcpev makes, and the answers, which may depend on all calls
-- made before.
use kcpev.Base.{ℕ, ◌≡◌, Bool, Option, List, length, ℤ}
use kcpev.Header.{buffer_size}
use kcpev.Conn.Types.{Kcpev, EvIo, EvTimer}

-- The first number names the connection, or a socket for `sends`, `closes`, `binds` and `connects`.
pub data Call : Type 0 where
  sends : ℕ → List ℕ → Call
  closes : ℕ → Call
  -- `close` of a negative number
  closes_none : Call
  io_starts io_stops : ℕ → EvIo → Call
  timer_starts timer_stops timer_agains : ℕ → EvTimer → Call
  kcp_creates : ℕ → ℕ → Call
  kcp_configures : ℕ → (mode : ℕ) → Call
  kcp_sends kcp_inputs : ℕ → List ℕ → Call
  kcp_receives kcp_releases : ℕ → Call
  kcp_checks kcp_updates : ℕ → (now : ℕ) → Call
  delivers : ℕ → List ℕ → Call
  delivers_server : Option ℕ → List ℕ → Call
  receives : ℕ → List ℕ → Call
  opens binds connects listens : ℕ → Call
  accepts : Call
  allocates : ℕ → Call
  frees_ring frees : ℕ → Call
  frees_timer : ℕ → EvTimer → Call
  exits : Call

-- The calls so far, the latest first.
abbrev pub Trace : Type 0
Trace = List Call

pub record Env : Type 0 where
  -- the result of `send`, and of `ikcp_send`
  pub send : Trace → ℕ → List ℕ → ℤ
  pub kcp_send : Trace → ℕ → List ℕ → ℤ
  -- the message that `ikcp_recv` has next, without regard to the buffer; nothing where there is none
  pub kcp_recv : Trace → ℕ → List ℕ
  pub kcp_check : Trace → ℕ → ℕ → ℕ
  -- whether `ikcp_create`, `kcpev_malloc`, `getnameinfo` and `getpeername` succeed
  pub kcp_create : Trace → Bool
  pub calloc : Trace → Bool
  pub getnameinfo : Trace → Bool
  pub getpeername : Trace → Bool
  -- the addresses that `getaddrinfo` finds, and the results of the socket calls
  pub getaddrinfo : Trace → Option (List ℕ)
  pub socket : Trace → ℤ
  pub setsockopt : Trace → ℤ
  pub bind : Trace → ℕ → ℤ
  pub connect : Trace → ℕ → ℤ
  pub listen : Trace → ℕ → ℤ
  pub accept : Trace → ℤ
  pub getsockname : Trace → Bool
  -- the bytes of `uuid_generate`, and the address of a new `Kcpev`
  pub uuid : Trace → List ℕ
  pub fresh : Trace → ℕ
  -- `malloc` for the memory of a ring
  pub malloc : Trace → ℕ → Option (List ℕ)
  -- the bytes of an uninitialised buffer on the stack
  pub stack : Trace → List ℕ
  -- `ev_now` as a bit pattern; whether one is more than 30 seconds after another; in milliseconds
  pub now : Trace → ℕ
  pub overdue : ℕ → ℕ → Bool
  pub millis : ℕ → ℕ

-- A local `char buf[KCPEV_BUFFER_SIZE]` has its size.
abbrev pub HasStack : Env → Type 0
HasStack e = (t : Trace) → length (e.stack t) ≡ buffer_size

pub record World : Type 0 where
  pub me : Kcpev
  pub calls : Trace
