-- ===== src/Server/Callbacks.antt =====
-- The server's callbacks of src/kcpev.c: accepted connections, TCP and UDP bytes, timers; its creation
-- and its end.
use kcpev.Base.{
  ℕ, Bool, true, false, Option, none, some, List, [], ◌∷◌, ◌++◌, if◌then◌else◌, take, ℤ, pos,
  minus_one, int_eq, is_nonneg, is_positive, to_nat, Run, ok, fault,
}
use kcpev.Ringbuf.{Ringbuf}
use kcpev.Stream.{tcp_recv}
use kcpev.Conn.{
  Exit, command_shake_hand1, command_udp_invalid, allocates, closes_none, accept_tcp, server_tcp,
  server_udp_all, Kcpev, closes, receives, accepts, kcp_inputs, frees, Trace, Env, World, Body,
  ◌>>=◌, ◌>>◌, pure, modify, check, call, next, error, crash, returns_void,
}
use kcpev.Send.{is_kcp_valid, set_kcp_invalid, sock_send_command}
use kcpev.Life.{kcpev_create, kcpev_tcp_destroy, kcpev_udp_destroy, kcpev_destroy, kcpev_init_ev}
use kcpev.Poll.{try_kcp_recv, timer_with_kcp}
use kcpev.Setup.{kcpev_bind, kcpev_listen}
use kcpev.Server.State.{Server, load, store, free, logs_to, with_client, close_client, delete_hash}
use kcpev.Server.Recv.{on_server_recv}

-- The new ring of a client that is still there.
unfoldable pub store_rb : ℕ → Option Ringbuf → Server → Run Server
store_rb a rb s = elim (load a s.heap) [
  | none ↦ fault
  | some c ↦ ok (record s { heap = store a (record c { tcp = record (c.tcp) { rb = rb } }) s.heap })
]

unfoldable pub server_tcp_recv : Env → ℕ → List ℕ → Server → Run Server
unfolding store_rb
server_tcp_recv e a [] s = close_client a s
server_tcp_recv e a (x ∷ xs) s = elim (load a s.heap) [
  | none ↦ fault
  | some c ↦
      elim (tcp_recv (on_server_recv e (some a)) (e.malloc (receives a (x ∷ xs) ∷ s.calls)) c.tcp.rb
        (logs_to (receives a (x ∷ xs)) s) (x ∷ xs)) [
          | fault ↦ fault
          | ok (ret, rb, s') ↦ elim (store_rb a rb s') [
            | fault ↦ fault
            | ok s'' ↦ if int_eq ret (pos 0) then ok s'' else close_client a s''
          ]
        ]
]

-- The packet handler behind `getpeername`, which only looks.
unfoldable pub from_peer : Env → ℕ → Server → List ℕ → Run (ℤ × Server)
from_peer e a s buf =
    if e.getpeername s.calls then on_server_recv e (some a) s buf else ok (minus_one, s)

abbrev pub server_poll : Env → (fuel : ℕ) → ℕ → Server → Run (ℤ × Server)
server_poll e fuel a s = try_kcp_recv (λ s'. s'.calls) logs_to a (from_peer e a) e fuel minus_one s

unfoldable pub server_udp_recv : Env → (fuel : ℕ) → ℕ → List ℕ → Server → Run Server
unfolding from_peer
server_udp_recv e fuel a [] s = ok s
server_udp_recv e fuel a (x ∷ xs) s = elim (load a s.heap) [
  | none ↦ fault
  | some c ↦
      returns_void
        (if is_kcp_valid c
          then (do
            modify (logs_to (kcp_inputs a (x ∷ xs)))
            ret ← call (server_poll e fuel a)
            pure tt)
          else (do
            modify (logs_to (receives a (x ∷ xs)))
            ret ← call (λ s'. from_peer e a s' (x ∷ xs))
            check (int_eq ret (pos 0))))
        s
]

-- A datagram to the server's own port: no client is known. One byte of the buffer stays free.
unfoldable pub server_udp_recv_all : Env → List ℕ → Server → Run Server
server_udp_recv_all e [] s = ok s
server_udp_recv_all e (x ∷ xs) s =
    returns_void
      (do
        modify (λ s'. logs_to (receives s'.base.self (x ∷ xs)) s')
        ret ← call (λ s'. on_server_recv e none s' (x ∷ xs))
        check (int_eq ret (pos 0)))
      s

-- `kcpev_on_timer` for a client of the server.
unfoldable pub server_on_timer : Env → (fuel : ℕ) → ℕ → Server → Run Server
unfolding from_peer
server_on_timer e fuel a = returns_void (do
  unit ← call (
      with_client {A = Unit {0}} a
        (λ w. elim (timer_with_kcp e w) [ ok w' ↦ ok (tt, w') | fault ↦ fault ]))
  ret ← call (server_poll e fuel a)
  pure tt)

-- The result of the message to the client is not used.
unfoldable pub on_server_heartbeat_timer : Env → World → Run World
on_server_heartbeat_timer e w =
    if is_kcp_valid w.me
    then if e.overdue (e.now w.calls) w.me.udp.heart
      then returns_void
          (do
            modify (λ w'. record w' { me = set_kcp_invalid w'.me })
            ret ← call (sock_send_command e w.me.tcp.sock command_udp_invalid w.me.key)
            pure tt)
          w
      else ok w
    else ok w

-- The error label of `tcp_accept`: the object goes, its entry in the table stays.
unfoldable pub drop_client : ℕ → Server → Run Server
drop_client a s = elim (load a s.heap) [
  | none ↦ fault
  | some c ↦ ok (record s {
    heap = free a s.heap;
    calls = kcpev_destroy (record { me = c; calls = s.calls });
  })
]

-- What `tcp_accept` does once the client is in the table.
unfoldable pub welcome : Env → (sock a : ℕ) → (key : List ℕ) → Body Server (Unit {0})
welcome e sock a key = do
  ret ← call (with_client a (kcpev_init_ev e (some server_tcp) none))
  check (is_nonneg ret)
  ret' ← call (with_client a (sock_send_command e sock command_shake_hand1 key))
  check (int_eq ret' (pos 0))

-- HASH_ADD of uthash; its write through the handle of the last client is left out.
unfoldable pub enter : ℕ → Kcpev → Server → Server
enter a c s = record s { hash = s.hash ++ (a ∷ []); heap = (a, c) ∷ s.heap }

unfoldable pub accept_ends : ℕ → Exit Server (Unit {0}) → Run Server
unfolding drop_client
accept_ends a (next _ s) = ok s
accept_ends a (error s) = drop_client a s
accept_ends a crash = fault

unfoldable pub tcp_accept : Env → Server → Run Server
unfolding accept_ends welcome enter
tcp_accept e s =
    let sock = e.accept s.calls in
    let t = accepts ∷ s.calls in
    let a = e.fresh t in
    let refused = record s { calls = closes (to_nat sock) ∷ t } in
    if is_positive sock
    then if e.getnameinfo t
      then elim (kcpev_create (e.calloc t) a) [
        | none ↦ ok refused
        | some c ↦
            let c' = record c {
              has_server = true;
              tcp = record (c.tcp) { sock = to_nat sock };
              key = e.uuid t;
            } in
            let s' = enter a c' (record s { calls = allocates a ∷ t }) in
            accept_ends a (welcome e (to_nat sock) a (e.uuid t) s')
      ]
      else ok refused
    else if int_eq sock (pos 0)
    then ok (record s { calls = t })
    else ok (record s { calls = closes_none ∷ t })

unfoldable pub kcpev_server_destroy : Server → Run Trace
kcpev_server_destroy s =
    let w = kcpev_udp_destroy (kcpev_tcp_destroy (record { me = s.base; calls = s.calls })) in
    elim (delete_hash s.hash s.heap w.calls) [ fault ↦ fault | ok t ↦ ok (frees s.base.self ∷ t) ]

-- The server's `KCPEV_BASE` in a function on `Kcpev`.
abbrev on_base : (World → Run (ℤ × World)) → Server → Run (ℤ × Server)
on_base f s = elim (f (record { me = s.base; calls = s.calls })) [
  | fault ↦ fault
  | ok (ret, w) ↦ ok (ret, record s { base = w.me; calls = w.calls })
]

-- `calloc(1, sizeof(KcpevServer))`: all fields are zero, at a fresh address.
unfoldable pub kcpev_server_create : Bool → (self : ℕ) → Trace → Option Server
kcpev_server_create made self t = elim (kcpev_create made self) [
  | none ↦ none
  | some c ↦ some (record {
    base = c;
    recv_cb = false;
    port = [];
    hash = [];
    heap = [];
    calls = allocates self ∷ t;
  })
]

-- `strncpy` keeps ten bytes of the port.
unfoldable pub kcpev_create_server : Env → (port : List ℕ) → Trace → Run (Option Server × Trace)
kcpev_create_server e port t = elim (kcpev_server_create (e.calloc t) (e.fresh t) t) [
  | none ↦ ok (none, t)
  | some created ↦
      let start : Server = record created { port = take 10 port } in
      elim ((do
        ret ← call (on_base (kcpev_bind e true))
        check (is_nonneg ret)
        ret2 ← call (on_base (kcpev_init_ev e (some accept_tcp) (some server_udp_all)))
        check (is_nonneg ret2)
        ret3 ← call (on_base (kcpev_listen e))
        check (is_nonneg ret3))
        start) [
          | next _ s ↦ ok (some s, s.calls)
          | error s ↦ elim (kcpev_server_destroy s) [ fault ↦ fault | ok t' ↦ ok (none, t') ]
          | crash ↦ fault
        ]
]

-- The disconnect callback is not used.
pub kcpev_server_set_cb : Server → Server
kcpev_server_set_cb s = record s { recv_cb = true }
