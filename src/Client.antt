-- ===== src/Client.antt =====
-- The client's packet handler in src/kcpev.c, its heartbeat timer, and its socket callbacks.
pub mod Accounts
pub mod Agreed
pub mod Callbacks
pub mod Data
pub mod Packets
pub mod Shake
pub mod Handshake
pub mod Heartbeat
pub mod Status
pub mod Steps
mod Tests
use kcpev.Base.{
  ℕ, zero, suc, ◌+◌, Bool, true, false, ◌&&◌, Option, none, some, List, [], ◌∷◌, ◌==◌, leb,
  if◌then◌else◌, length, take, drop, bytes_eq, ℤ, pos, minus_one, int_eq, is_nonneg, Run, ok, fault,
}
use kcpev.Ringbuf.{Ringbuf}
use kcpev.Header.{Header, header_size, header_from_net}
use kcpev.Stream.{tcp_recv}
use kcpev.Conn.{
  command_data, command_shake_hand1, command_shake_hand2, command_heartbeat1, command_heartbeat2,
  command_udp_invalid, UdpStatus, udp_shaking_hand, udp_ready, is_shaking_hand, is_ready, key_size,
  conv_of, client_heartbeat, Kcp, Kcpev, KcpevTcp, KcpevUdp, Call, delivers, receives, exits,
  kcp_inputs, Env, World, Body, ◌>>=◌, ◌>>◌, pure, get, modify, check, fail, crashes, call,
  call_void, next, error, crash, returns_code, returns_void,
}
use kcpev.Send.{
  is_kcp_valid, set_kcp_invalid, sock_send_command, kcp_send_command, kcpev_send_command,
}
use kcpev.Life.{logs, set_udp, check_create_kcp_timer}
use kcpev.Poll.{try_kcp_recv, kcpev_timer_repeat, timer_with_kcp, timer_with_kcp-returns}

abbrev pub set_status : UdpStatus → World → World
set_status s w = set_udp w (record (w.me.udp) { status = s })

abbrev pub set_heart : ℕ → World → World
set_heart t w = set_udp w (record (w.me.udp) { heart = t })

-- `recv_cb`, which the user may have left NULL
client_data : List ℕ → Body World (Unit {0})
client_data msg = do w ← get; if w.me.recv_cb then logs (delivers w.me.self msg) else crashes

pub client_shake_hand1 : Env → List ℕ → Body World (Unit {0})
client_shake_hand1 e msg = do
  w ← get
  if w.me.udp.sock == 0 then pure tt else do
    check (length msg == key_size)
    modify (λ w'. record w' { me = record (w'.me) { key = msg } })
    ret ← call (sock_send_command e w.me.udp.sock command_shake_hand1 msg)
    check (int_eq ret (pos 0))
    modify (set_status udp_shaking_hand)

-- `client->udp.kcp->conv = client->key.split_key.conv`
set_conv : Body World (Unit {0})
set_conv = do
  w ← get
  elim w.me.udp.kcp [
    | none ↦ crashes
    | some k ↦ modify (λ w'.
        set_udp w' (record (w'.me.udp) { kcp = some (record k { conv = conv_of w'.me.key }) }))
  ]

pub client_shake_hand2 : Env → List ℕ → Body World (Unit {0})
unfolding set_conv
client_shake_hand2 e msg = do
  w ← get
  if w.me.udp.sock == 0 then pure tt else do
    check (length msg == key_size)
    check (is_shaking_hand w.me.udp.status)
    check (bytes_eq msg w.me.key)
    ret ← call (sock_send_command e w.me.udp.sock command_shake_hand2 msg)
    check (int_eq ret (pos 0))
    made ← call (check_create_kcp_timer e client_heartbeat)
    check (is_nonneg made)
    set_conv
    modify (set_status udp_ready)

-- The key, then the server's `heart` in eight bytes, which goes back as it came.
client_heartbeat1 : Env → List ℕ → Body World (Unit {0})
client_heartbeat1 e msg = do
  w ← get
  if is_kcp_valid w.me
      then (do
        check (length msg == key_size + 8)
        check (is_ready w.me.udp.status)
        check (bytes_eq (take key_size msg) w.me.key)
        ret ← call (kcpev_send_command e command_heartbeat2 msg)
        check (int_eq ret (pos 0))
        modify (λ w'. set_heart (e.now w'.calls) w'))
      else pure tt

client_udp_invalid : List ℕ → Body World (Unit {0})
client_udp_invalid msg = do
  w ← get
  if is_kcp_valid w.me
      then (do
        check (length msg == key_size)
        check (bytes_eq msg w.me.key)
        modify (λ w'. record w' { me = set_kcp_invalid w'.me }))
      else pure tt

-- The `switch` on the command.
unfoldable pub client_command : Env → (command : ℕ) → List ℕ → Body World (Unit {0})
unfolding client_data client_shake_hand1 client_shake_hand2 client_heartbeat1 client_udp_invalid
client_command e command msg =
    if command == command_data
    then client_data msg
    else if command == command_shake_hand1
    then client_shake_hand1 e msg
    else if command == command_shake_hand2
    then client_shake_hand2 e msg
    else if command == command_heartbeat1
    then client_heartbeat1 e msg
    else if command == command_udp_invalid
    then client_udp_invalid msg
    else fail

unfoldable pub on_client_recv : Env → World → List ℕ → Run (ℤ × World)
unfolding client_command
on_client_recv e w buf =
    returns_code
      (do
        check (leb header_size (length buf))
        elim (header_from_net buf) [
          | none ↦ fail
          | some h ↦ do
            check (h.size == length buf)
            client_command e h.command (drop header_size buf)
        ])
      w

unfoldable pub on_client_heartbeat_timer : Env → World → Run World
on_client_heartbeat_timer e w =
    if is_kcp_valid w.me
    then if e.overdue (e.now w.calls) w.me.udp.heart
      then ok (record w { me = set_kcp_invalid w.me })
      else returns_void
          (do
            ret ← call (kcp_send_command e command_heartbeat1 w.me.key)
            check (int_eq ret (pos 0)))
          w
    else ok w

-- `recv` gave `bytes`, or no positive length. An error ends the program.
unfoldable pub client_tcp_recv : Env → List ℕ → World → Run World
client_tcp_recv e [] w = ok (record w { calls = exits ∷ w.calls })
client_tcp_recv e (x ∷ xs) w =
    let got = record w { calls = receives w.me.self (x ∷ xs) ∷ w.calls } in
    elim (tcp_recv (on_client_recv e) (e.malloc got.calls) w.me.tcp.rb got (x ∷ xs)) [
      | fault ↦ fault
      | ok (ret, rb, w') ↦
          let w'' = record w' { me = record (w'.me) { tcp = record (w'.me.tcp) { rb = rb } } } in
          if int_eq ret (pos 0) then ok w'' else ok (record w'' { calls = exits ∷ w''.calls })
    ]

-- The calls of `try_kcp_recv` by the client.
abbrev pub client_poll : Env → (fuel : ℕ) → World → Run (ℤ × World)
client_poll e fuel w =
    try_kcp_recv (λ w'. w'.calls) (λ c w'. record w' { calls = c ∷ w'.calls }) w.me.self
      (on_client_recv e) e fuel minus_one w

-- `kcpev_on_timer` of a client; the result of `try_kcp_recv` is not used.
unfoldable pub client_on_timer : Env → (fuel : ℕ) → World → Run World
client_on_timer e fuel w =
    returns_void (do call_void (timer_with_kcp e); ret ← call (client_poll e fuel); pure tt) w

-- Before the handshake the bytes are a packet, after it they are kcp's.
unfoldable pub client_udp_recv : Env → (fuel : ℕ) → List ℕ → World → Run World
client_udp_recv e fuel [] w = ok w
client_udp_recv e fuel (x ∷ xs) w =
    returns_void
      (if is_kcp_valid w.me
        then (do logs (kcp_inputs w.me.self (x ∷ xs)); ret ← call (client_poll e fuel); pure tt)
        else (do ret ← call (λ w'. on_client_recv e w' (x ∷ xs)); check (int_eq ret (pos 0))))
      w
