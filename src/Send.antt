-- ===== src/Send.antt =====
-- The sending functions of src/kcpev.c, and the test that chooses between UDP and TCP.
pub mod Choice
pub mod Frame
mod Tests
use kcpev.Base.{
  ℕ, zero, ◌+◌, Bool, true, false, not, ◌&&◌, ◌||◌, Option, none, some, List, [], ◌∷◌, ltb, ◌==◌,
  if◌then◌else◌, length, take, ℤ, pos, minus_one, int_eq, is_positive, to_int, Run, ok, fault,
}
use kcpev.Header.{pack_send_buf}
use kcpev.Conn.{
  command_data, UdpStatus, is_invalid, udp_invalid, udp_shaking_hand, udp_ready, udp_heartbeat,
  Kcpev, KcpevTcp, KcpevUdp, is_some, Call, sends, kcp_sends, Env, World, Body, ◌>>=◌, ◌>>◌, pure,
  get, modify, check, call, lift, next, error, crash, returns_code, returns_int,
}

-- UDP_READY or UDP_HEARTBEAT
unfoldable pub is_usable : UdpStatus → Bool
is_usable udp_ready = true
is_usable udp_heartbeat = true
is_usable _ = false

unfoldable pub is_kcp_valid : Kcpev → Bool
is_kcp_valid c =
    if c.udp.sock == 0
    then false
    else if not (is_some c.udp.kcp)
    then false
    else if not (is_usable c.udp.status)
    then false
    else if not (is_some c.udp.evt)
    then false
    else true

unfoldable pub set_kcp_invalid : Kcpev → Kcpev
set_kcp_invalid c =
    if is_invalid c.udp.status
    then c
    else record c { udp = record (c.udp) { status = udp_invalid } }

-- `send` and `ikcp_send`
abbrev pub send : Env → ℕ → List ℕ → Body World ℤ
send e sock bytes w =
    next (e.send w.calls sock bytes) (record w { calls = sends sock bytes ∷ w.calls })

abbrev pub ikcp_send : Env → List ℕ → Body World ℤ
ikcp_send e bytes w =
    next (e.kcp_send w.calls w.me.self bytes)
      (record w { calls = kcp_sends w.me.self bytes ∷ w.calls })

-- The packet in a local buffer: the bytes that it holds, and their number.
abbrev pub pack : Env → ℕ → List ℕ → Body World (ℕ × List ℕ)
pack e command msg w = lift (pack_send_buf (e.stack w.calls) command msg) w

unfoldable pub sock_send_command : Env → ℕ → ℕ → List ℕ → World → Run (ℤ × World)
sock_send_command e sock command msg = returns_code (do
  (real_size, buf) ← pack e command msg
  check (is_positive (to_int real_size))
  ret ← send e sock (take real_size buf)
  check (int_eq ret (to_int real_size)))

unfoldable pub kcp_send_command : Env → ℕ → List ℕ → World → Run (ℤ × World)
kcp_send_command e command msg = returns_int (do
  (real_size, buf) ← pack e command msg
  check (ltb 0 real_size)
  w ← get
  if is_kcp_valid w.me then ikcp_send e (take real_size buf) else pure minus_one)

-- kcp if it can be used, TCP if not
unfoldable pub kcpev_send_command : Env → ℕ → List ℕ → World → Run (ℤ × World)
kcpev_send_command e command msg = returns_int (do
  (real_size, buf) ← pack e command msg
  check (ltb 0 real_size)
  w ← get
  if is_kcp_valid w.me then ikcp_send e (take real_size buf) else do
    ret ← send e w.me.tcp.sock (take real_size buf)
    check (int_eq ret (pos real_size))
    pure (pos 0))

unfoldable pub kcpev_send : Env → List ℕ → World → Run (ℤ × World)
kcpev_send e msg = kcpev_send_command e command_data msg

unfoldable pub kcpev_send_tcp : Env → List ℕ → World → Run (ℤ × World)
kcpev_send_tcp e msg w = sock_send_command e w.me.tcp.sock command_data msg w

-- The disconnect callback is not used.
unfoldable pub kcpev_set_cb : Kcpev → Kcpev
kcpev_set_cb c = record c { recv_cb = true }

-- kcp's output callback, which kcp alone calls: the result is 0 also where `send` fails.
unfoldable pub udp_output : Env → List ℕ → World → Run (ℤ × World)
udp_output e bytes w =
    elim ((do ret ← send e w.me.udp.sock bytes; check (int_eq ret (pos (length bytes)))) w) [
      | next _ w' ↦ ok (pos 0, w')
      | error w' ↦ ok (pos 0, w')
      | crash ↦ fault
    ]
