-- ===== src/Life.antt =====
-- Making and releasing the parts of a connection in src/kcpev.c: watchers, timers, kcp objects and
-- the ring.
pub mod Destroy
pub mod Timers
use kcpev.Base.{
  ℕ, zero, Bool, true, false, Option, none, some, List, [], ◌∷◌, ◌==◌, leb, if◌then◌else◌, ℤ, pos,
  minus_one, is_nonneg, Run, ok, fault,
}
use kcpev.Conn.{
  UdpStatus, udp_invalid, TimerCb, on_timer, IoCb, EvIo, EvTimer, Kcp, Kcpev, KcpevTcp, KcpevUdp,
  Call, closes, io_starts, io_stops, timer_starts, timer_stops, kcp_creates, kcp_configures,
  kcp_releases, allocates, frees_ring, frees_timer, frees, Trace, Env, World, Body, ◌>>=◌, ◌>>◌,
  pure, get, modify, check, call, next, error, crash, returns_code, is_some,
}

abbrev pub logs : Call → Body World (Unit {0})
logs c w = next tt (record w { calls = c ∷ w.calls })

abbrev pub set_tcp : World → KcpevTcp → World
set_tcp w t = record w { me = record (w.me) { tcp = t } }

abbrev pub set_udp : World → KcpevUdp → World
set_udp w u = record w { me = record (w.me) { udp = u } }

-- `calloc(1, sizeof(Kcpev))`: all fields are zero, at a fresh address.
unfoldable pub kcpev_create : Bool → (self : ℕ) → Option Kcpev
kcpev_create false self = none
kcpev_create true self = some (record {
  self = self;
  tcp = record { sock = 0; evio = none; rb = none };
  udp = record {
    sock = 0;
    evio = none;
    evt = none;
    evh = none;
    kcp = none;
    status = udp_invalid;
    heart = 0;
  };
  key = 0 ∷ 0 ∷ 0 ∷ 0 ∷ 0 ∷ 0 ∷ 0 ∷ 0 ∷ 0 ∷ 0 ∷ 0 ∷ 0 ∷ 0 ∷ 0 ∷ 0 ∷ 0 ∷ [];
  has_server = false;
  recv_cb = false;
})

-- The calls of `KcpevSock_destroy`; it leaves no socket and no watcher.
kcpev_sock_destroy : (self sock : ℕ) → Option EvIo → Trace → Trace
kcpev_sock_destroy self sock evio t =
    let closed = if sock == 0 then t else closes sock ∷ t in
    elim evio [ none ↦ closed | some io ↦ io_stops self io ∷ closed ]

stop_timer : (self : ℕ) → Option EvTimer → Trace → Trace
stop_timer self none t = t
stop_timer self (some timer) t = frees_timer self timer ∷ timer_stops self timer ∷ t

release_kcp : (self : ℕ) → Option Kcp → Trace → Trace
release_kcp self none t = t
release_kcp self (some _) t = kcp_releases self ∷ t

free_ring : (self : ℕ) → Bool → Trace → Trace
free_ring self false t = t
free_ring self true t = frees_ring self ∷ t

unfoldable pub kcpev_tcp_destroy : World → World
unfolding kcpev_sock_destroy free_ring
kcpev_tcp_destroy w = record w {
  me = record (w.me) { tcp = record { sock = 0; evio = none; rb = none } };
  calls =
      free_ring w.me.self (is_some w.me.tcp.rb)
        (kcpev_sock_destroy w.me.self w.me.tcp.sock w.me.tcp.evio w.calls);
}

-- `status` and `heart` stay.
unfoldable pub kcpev_udp_destroy : World → World
unfolding kcpev_sock_destroy stop_timer release_kcp
kcpev_udp_destroy w = record w {
  me = record (w.me) {
    udp = record (w.me.udp) { sock = 0; evio = none; evt = none; evh = none; kcp = none };
  };
  calls = release_kcp w.me.self w.me.udp.kcp (
      stop_timer w.me.self w.me.udp.evh (
        stop_timer w.me.self w.me.udp.evt
          (kcpev_sock_destroy w.me.self w.me.udp.sock w.me.udp.evio w.calls)));
}

-- The connection is gone; the calls remain.
unfoldable pub kcpev_destroy : World → Trace
kcpev_destroy w = let w' = kcpev_udp_destroy (kcpev_tcp_destroy w) in frees w.me.self ∷ w'.calls

-- `kcpev_malloc`
abbrev pub calloc : Env → Body World Bool
calloc e w = next (e.calloc w.calls) (record w { calls = allocates w.me.self ∷ w.calls })

-- `put` stores the watcher in the `KcpevSock`.
unfoldable pub kcpev_set_ev :
    Env → IoCb → (sock : ℕ) → (EvIo → World → World) → World → Run (ℤ × World)
kcpev_set_ev e cb sock put w =
    let io : EvIo = record { cb = cb; fd = sock } in
    if sock == 0
    then ok (pos 0, w)
    else returns_code
        (do made ← calloc e; check made; modify (put io); logs (io_starts w.me.self io)) w

unfoldable pub kcpev_set_tcp_ev : Env → IoCb → World → Run (ℤ × World)
unfolding kcpev_set_ev
kcpev_set_tcp_ev e cb w =
    kcpev_set_ev e cb w.me.tcp.sock (λ io w'. set_tcp w' (record (w'.me.tcp) { evio = some io })) w

unfoldable pub kcpev_set_udp_ev : Env → IoCb → World → Run (ℤ × World)
unfolding kcpev_set_ev
kcpev_set_udp_ev e cb w =
    kcpev_set_ev e cb w.me.udp.sock (λ io w'. set_udp w' (record (w'.me.udp) { evio = some io })) w

-- A failure for TCP is an error, one for UDP is only logged.
unfoldable pub kcpev_init_ev : Env → Option IoCb → Option IoCb → World → Run (ℤ × World)
kcpev_init_ev e tcp_cb udp_cb = returns_code (do
  elim tcp_cb [
    | none ↦ pure tt
    | some cb ↦ do ret ← call (kcpev_set_tcp_ev e cb); check (is_nonneg ret)
  ]
  elim udp_cb [ none ↦ pure tt | some cb ↦ do ret ← call (kcpev_set_udp_ev e cb); pure tt ])

-- The mode settings go to kcp; a mode above 2 releases the new object.
unfoldable pub kcpev_create_kcp : Env → (conv mode : ℕ) → World → Run (ℤ × World)
kcpev_create_kcp e conv mode w =
    let w' = record w { calls = kcp_creates w.me.self conv ∷ w.calls } in
    if e.kcp_create w.calls
    then if leb mode 2
      then ok (
        pos 0,
        record (set_udp w'
            (record (w.me.udp) { kcp = some (record { conv = conv; output = true }) })) {
              calls = kcp_configures w.me.self mode ∷ w'.calls;
            },
      )
      else ok (minus_one, record w' { calls = kcp_releases w.me.self ∷ w'.calls })
    else ok (minus_one, w')

-- 0.01 and 10 seconds
abbrev kcp_timer : EvTimer
kcp_timer = record { cb = on_timer; repeat_ms = 10 }

abbrev heartbeat_timer : TimerCb → EvTimer
heartbeat_timer hcb = record { cb = hcb; repeat_ms = 10000 }

-- The heartbeat timer cannot be had: the kcp timer, which libev still runs, is freed.
no_heartbeat_timer : World → Run (ℤ × World)
no_heartbeat_timer w = ok (
  minus_one,
  record (set_udp w (record (w.me.udp) { evt = none; evh = none })) {
    calls = frees_timer w.me.self kcp_timer ∷ w.calls;
  },
)

-- With no memory for the kcp timer the error path reads `evh` before it is set.
unfoldable pub check_create_kcp_timer : Env → TimerCb → World → Run (ℤ × World)
unfolding no_heartbeat_timer
check_create_kcp_timer e hcb w =
    let self = w.me.self in
    let t = timer_starts self kcp_timer ∷ allocates self ∷ w.calls in
    let t' = timer_starts self (heartbeat_timer hcb) ∷ allocates self ∷ t in
    if is_some w.me.udp.evt
    then ok (minus_one, w)
    else if e.calloc w.calls
    then if e.calloc t
      then ok (
        pos 0,
        record (set_udp w (record (w.me.udp) {
          evt = some kcp_timer;
          evh = some (heartbeat_timer hcb);
          heart = e.now t';
        })) { calls = t' },
      )
      else no_heartbeat_timer (record w { calls = allocates self ∷ t })
    else fault
