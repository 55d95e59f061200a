-- ===== src/Setup.antt =====
-- Sockets and set-up in src/kcpev.c: binding, connecting, listening, and the creation of a client.
pub mod Accounts
pub mod Laws
mod Reach
mod Created
pub mod Peer
pub mod Open
mod Tests
use kcpev.Base.{
  ℕ, zero, suc, Bool, true, false, Option, none, some, List, [], ◌∷◌, ◌==◌, if◌then◌else◌, ℤ, pos,
  negsuc, minus_one, is_nonneg, to_nat, int_eq, Run, ok, fault,
}
use kcpev.Conn.{
  conv_of, client_tcp, client_udp, server_udp, IoCb, Kcp, Kcpev, KcpevTcp, KcpevUdp, Call, closes,
  allocates, opens, binds, connects, listens, Trace, Env, World, Body, ◌>>=◌, ◌>>◌, pure, get,
  modify, check, call, next, error, crash, returns_code, is_some,
}
use kcpev.Life.{
  set_tcp, set_udp, kcpev_create, kcpev_udp_destroy, kcpev_destroy, kcpev_init_ev, kcpev_create_kcp,
}

-- The loop of `kcpev_bind_socket` over the addresses: the result, the socket kept, and the calls.
-- A failing `setsockopt` ends it with the new socket open.
bind_loop : Env → (reuse : Bool) → List ℕ → Trace → ℤ × ℕ × Trace
bind_loop e reuse [] t = (minus_one, 0, t)
bind_loop e reuse (a ∷ as_) t =
    let s = e.socket t in
    let t1 = opens a ∷ t in
    let t2 = binds (to_nat s) ∷ t1 in
    elim (is_nonneg s) [
      | false ↦ bind_loop e reuse as_ t1
      | true ↦ elim (if reuse then is_nonneg (e.setsockopt t1) else true) [
        | false ↦ (minus_one, 0, t1)
        | true ↦ elim (is_nonneg (e.bind t1 (to_nat s))) [
          | true ↦ (if to_nat s == 0 then minus_one else pos 0, to_nat s, t2)
          | false ↦ bind_loop e reuse as_ (closes (to_nat s) ∷ t2)
        ]
      ]
    ]

-- The socket field keeps its value when `getaddrinfo` fails.
unfoldable pub kcpev_bind_socket : Env → (reuse : Bool) → (sock : ℕ) → Trace → ℤ × ℕ × Trace
unfolding bind_loop
kcpev_bind_socket e reuse sock t = elim (e.getaddrinfo t) [
  | none ↦ (minus_one, sock, t)
  | some as_ ↦ bind_loop e reuse as_ t
]

unfoldable pub kcpev_bind_tcp : Env → (reuse : Bool) → World → Run (ℤ × World)
kcpev_bind_tcp e reuse w =
    let (ret, s, t) = kcpev_bind_socket e reuse w.me.tcp.sock w.calls in
    ok (ret, record (set_tcp w (record (w.me.tcp) { sock = s })) { calls = t })

unfoldable pub kcpev_bind_udp : Env → (reuse : Bool) → World → Run (ℤ × World)
kcpev_bind_udp e reuse w =
    let (ret, s, t) = kcpev_bind_socket e reuse w.me.udp.sock w.calls in
    ok (ret, record (set_udp w (record (w.me.udp) { sock = s })) { calls = t })

-- TCP is needed; without UDP the connection falls back to TCP.
unfoldable pub kcpev_bind : Env → (reuse : Bool) → World → Run (ℤ × World)
kcpev_bind e reuse = returns_code (do
  ret ← call (kcpev_bind_tcp e reuse)
  check (is_nonneg ret)
  w ← get
  check (e.getsockname w.calls)
  check (e.getnameinfo w.calls)
  ret' ← call (kcpev_bind_udp e reuse)
  pure tt)

connect_loop : Env → (sock : ℕ) → List ℕ → Trace → ℤ × Trace
connect_loop e sock [] t = (minus_one, t)
connect_loop e sock (a ∷ as_) t = elim (is_nonneg (e.connect t sock)) [
  | true ↦ (pos 0, connects sock ∷ t)
  | false ↦ connect_loop e sock as_ (connects sock ∷ t)
]

unfoldable pub kcpev_connect_socket : Env → (sock : ℕ) → World → Run (ℤ × World)
unfolding connect_loop
kcpev_connect_socket e sock w =
    if sock == 0 then ok (minus_one, w) else elim (e.getaddrinfo w.calls) [
      | none ↦ ok (minus_one, w)
      | some as_ ↦
          let (ret, t) = connect_loop e sock as_ w.calls in ok (ret, record w { calls = t })
    ]

-- `close(kcpev->udp.sock)`, if there is one
close_udp : World → World
close_udp w =
    if w.me.udp.sock == 0 then w else record (set_udp w (record (w.me.udp) { sock = 0 })) {
      calls = closes w.me.udp.sock ∷ w.calls;
    }

unfoldable pub kcpev_connect : Env → World → Run (ℤ × World)
unfolding close_udp
kcpev_connect e = returns_code (do
  w ← get
  ret ← call (kcpev_connect_socket e w.me.tcp.sock)
  check (is_nonneg ret)
  ret' ← call (kcpev_connect_socket e w.me.udp.sock)
  if is_nonneg ret' then pure tt else modify close_udp)

unfoldable pub kcpev_listen : Env → World → Run (ℤ × World)
kcpev_listen e w = ok (
  if is_nonneg (e.listen w.calls w.me.tcp.sock) then pos 0 else minus_one,
  record w { calls = listens w.me.tcp.sock ∷ w.calls },
)

-- KCPEV_KCP_MODE
abbrev pub kcp_mode : ℕ
kcp_mode = 2

-- The UDP side of an accepted client, connected to the address that its packet came from; on an
-- error it is released.
unfoldable pub connect_client_udp : Env → World → Run (ℤ × World)
connect_client_udp e w =
    elim ((do
      ret ← call (kcpev_bind_udp e true)
      check (is_nonneg ret)
      w1 ← get
      modify (λ w2. record w2 { calls = connects w1.me.udp.sock ∷ w2.calls })
      check (is_nonneg (e.connect w1.calls w1.me.udp.sock))
      ret2 ← call (kcpev_create_kcp e (conv_of w.me.key) kcp_mode)
      check (is_nonneg ret2)
      ret3 ← call (kcpev_init_ev e none (some server_udp))
      check (is_nonneg ret3))
      w) [
        | next _ w' ↦ ok (pos 0, w')
        | error w' ↦ ok (minus_one, kcpev_udp_destroy w')
        | crash ↦ fault
      ]

-- The new client, or NULL, and the calls. A startup is needed on Windows only.
unfoldable pub kcpev_create_client : Env → Trace → Run (Option World × Trace)
kcpev_create_client e t = elim (kcpev_create (e.calloc t) (e.fresh t)) [
  | none ↦ ok (none, t)
  | some c ↦
      elim ((do
        ret ← call (kcpev_bind e false)
        check (is_nonneg ret)
        ret2 ← call (kcpev_create_kcp e (conv_of c.key) kcp_mode)
        check (is_nonneg ret2)
        ret3 ← call (kcpev_init_ev e (some client_tcp) (some client_udp))
        check (is_nonneg ret3))
        (record { me = c; calls = allocates c.self ∷ t })) [
          | next _ w ↦ ok (some w, w.calls)
          | error w ↦ ok (none, kcpev_destroy w)
          | crash ↦ fault
        ]
]
