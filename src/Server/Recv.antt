-- ===== src/Server/Recv.antt =====
-- `on_server_recv` of src/kcpev.c.
use kcpev.Base.{
  ℕ, ◌+◌, ◌*◌, ◌/◌, ◌^◌, Option, none, some, List, ◌++◌, ◌==◌, leb, if◌then◌else◌, length, take,
  drop, bytes_eq, ℤ, pos, int_eq, is_nonneg, Run,
}
use kcpev.Header.{header_size, header_from_net, be32, of_be32}
use kcpev.Conn.{
  command_data, command_shake_hand1, command_shake_hand2, command_heartbeat1, command_heartbeat2,
  udp_shaking_hand, udp_ready, is_shaking_hand, key_size, byte_at, server_heartbeat,
  delivers_server, Env, World, Body, ◌>>=◌, ◌>>◌, pure, get, modify, check, fail, crashes, call,
  lift, returns_code,
}
use kcpev.Send.{is_kcp_valid, sock_send_command, kcp_send_command}
use kcpev.Life.{check_create_kcp_timer}
use kcpev.Setup.{connect_client_udp}
use kcpev.Client.{set_status, set_heart}
use kcpev.Server.State.{Server, logs_to, hash_find, with_client}

-- `htobe64` and `be64toh`
unfoldable pub be64 : ℕ → List ℕ
be64 x = be32 (x / 2 ^ 32) ++ be32 x

unfoldable pub of_be64 : List ℕ → ℕ
of_be64 b =
    of_be32 (byte_at 0 b) (byte_at 1 b) (byte_at 2 b) (byte_at 3 b) * 2 ^ 32
    + of_be32 (byte_at 4 b) (byte_at 5 b) (byte_at 6 b) (byte_at 7 b)

-- `client` may be NULL here.
unfoldable pub server_data : Option ℕ → List ℕ → Body Server (Unit {0})
server_data client msg = do
  s ← get
  if s.recv_cb then modify (logs_to (delivers_server client msg)) else crashes

-- The client of a handshake packet, by the key that the packet holds.
unfoldable pub find_client : List ℕ → Body Server ℕ
find_client msg = do
  check (length msg == key_size)
  s ← get
  found ← lift (hash_find s.heap s.hash msg)
  elim found [ none ↦ (do fail; pure 0) | some a ↦ pure a ]

-- The answer may fail to be sent; that is only logged.
unfoldable pub shake_hand1_client : Env → World → Run (ℤ × World)
shake_hand1_client e = returns_code (do
  ret ← call (connect_client_udp e)
  check (is_nonneg ret)
  modify (set_status udp_shaking_hand)
  w ← get
  ret' ← call (sock_send_command e w.me.udp.sock command_shake_hand2 w.me.key)
  pure tt)

unfoldable pub shake_hand2_client : Env → World → Run (ℤ × World)
shake_hand2_client e = returns_code (do
  w ← get
  check (is_shaking_hand w.me.udp.status)
  ret ← call (check_create_kcp_timer e server_heartbeat)
  check (is_nonneg ret)
  modify (set_status udp_ready))

-- The answer is the key and the time of the last heartbeat.
unfoldable pub heartbeat1_client : Env → List ℕ → World → Run (ℤ × World)
heartbeat1_client e msg = returns_code (do
  w ← get
  if is_kcp_valid w.me
      then (do
        check (length msg == key_size)
        check (bytes_eq msg w.me.key)
        ret ← call (kcp_send_command e command_heartbeat1 (w.me.key ++ be64 w.me.udp.heart))
        check (int_eq ret (pos 0)))
      else pure tt)

-- A time that is not the last one is only logged.
unfoldable pub heartbeat2_client : Env → List ℕ → World → Run (ℤ × World)
heartbeat2_client e msg = returns_code (do
  w ← get
  if is_kcp_valid w.me
      then (do
        check (length msg == key_size + 8)
        check (bytes_eq (take key_size msg) w.me.key)
        if of_be64 (drop key_size msg) == w.me.udp.heart
            then modify (λ w'. set_heart (e.now w'.calls) w')
            else pure tt)
      else pure tt)

-- A call for one client, whose result is checked.
unfoldable pub on_client : ℕ → (World → Run (ℤ × World)) → Body Server (Unit {0})
on_client a f = do ret ← call (with_client a f); check (is_nonneg ret)

unfoldable pub on_given_client : Option ℕ → (World → Run (ℤ × World)) → Body Server (Unit {0})
unfolding on_client
on_given_client none f = fail
on_given_client (some a) f = on_client a f

-- The `switch` on the command.
unfoldable pub server_command : Env → Option ℕ → (command : ℕ) → List ℕ → Body Server (Unit {0})
unfolding server_data find_client shake_hand1_client shake_hand2_client heartbeat1_client
    heartbeat2_client on_client on_given_client
server_command e client command msg =
    if command == command_data
    then server_data client msg
    else if command == command_shake_hand1
    then (do a ← find_client msg; on_client a (shake_hand1_client e))
    else if command == command_shake_hand2
    then (do a ← find_client msg; on_client a (shake_hand2_client e))
    else if command == command_heartbeat1
    then on_given_client client (heartbeat1_client e msg)
    else if command == command_heartbeat2
    then on_given_client client (heartbeat2_client e msg)
    else fail

unfoldable pub on_server_recv : Env → Option ℕ → Server → List ℕ → Run (ℤ × Server)
unfolding server_command
on_server_recv e client s buf =
    returns_code
      (do
        check (leb header_size (length buf))
        elim (header_from_net buf) [
          | none ↦ fail
          | some h ↦ do
            check (h.size == length buf)
            s' ← get
            check (e.getnameinfo s'.calls)
            server_command e client h.command (drop header_size buf)
        ])
      s
