-- ===== src/Client/Shake.antt =====
-- The client's two steps of a handshake where its calls succeed.
use kcpev.Base.{
  ℕ, ◌≡◌, refl, sym, ◌++◌, ◌==◌, true, false, none, some, List, ◌∷◌, length, bytes_eq_iff, pos, ok,
  arith,
}
use kcpev.Header.Packing.{packet, length-packet}
use kcpev.Conn.{
  command_shake_hand1, command_shake_hand2, udp_shaking_hand, udp_ready, key_size, conv_of, sends,
  Kcp, Trace, Env, HasStack, World, client_heartbeat,
}
use kcpev.Send.{is_usable, is_kcp_valid}
use kcpev.Send.Choice.{sock_send_command_lem, after_send}
use kcpev.Life.{set_udp}
use kcpev.Life.Timers.{timer_calls, with_timers, check_create_kcp_timer-made}
use kcpev.Client.{
  set_status, client_shake_hand1, client_shake_hand2, set_conv, client_command, on_client_recv,
}
use kcpev.Client.Data.{on_client_recv-packet}

-- `send` sends all of it, there is memory, and a buffer has its size.
pub record Succeeds (e : Env) : Type 0 where
  pub stack : HasStack e
  pub sends_all : (t : Trace) (sock : ℕ) (bytes : List ℕ) → e.send t sock bytes ≡ pos (length bytes)
  pub memory : (t : Trace) → e.calloc t ≡ true

module _ (e : Env) (good : Succeeds e) (key : List ℕ) (sized : length key ≡ key_size) (w : World)
    (has : (w.me.udp.sock == 0) ≡ false) (pad : List ℕ) (padded : length pad ≡ 3) where
  -- The key in the packet becomes the client's, and goes out over UDP.
  pub begins_handshake :
      (pad' : List ℕ) × (length pad' ≡ 3)
      × (on_client_recv e w (packet command_shake_hand1 pad key)
          ≡ ok (
            pos 0,
            set_status udp_shaking_hand (
                after_send
                  (record w { me = record (w.me) { key = key } })
                  w.me.udp.sock
                  (packet command_shake_hand1 pad' key)),
          ))
  unfolding client_command client_shake_hand1
  begins_handshake =
      let keyed = record w { me = record (w.me) { key = key } } in
      let (pad', f, p) =
        sock_send_command_lem e good.stack keyed command_shake_hand1 key (omega arith)
          w.me.udp.sock in
      let whole = good.sends_all w.calls w.me.udp.sock (packet command_shake_hand1 pad' key) in
      let n = length-packet command_shake_hand1 pad' key f in
      let q = on_client_recv-packet e w command_shake_hand1 pad key padded (omega arith) in
      (pad', f, ground (arith, p, whole, n, q))

  -- The answer with the key ends the handshake, and goes out over UDP in turn.
  pub ends_handshake :
      (k : Kcp)
      → w.me.udp.status ≡ udp_shaking_hand
      → w.me.key ≡ key
      → w.me.udp.evt ≡ none
      → w.me.udp.kcp ≡ some k
      → (pad' : List ℕ) × (length pad' ≡ 3)
        × (w' : World) × (on_client_recv e w (packet command_shake_hand2 pad key) ≡ ok (pos 0, w'))
        × (later : Trace) × (w'.calls
            ≡ later ++ (sends w.me.udp.sock (packet command_shake_hand2 pad' key) ∷ w.calls))
        × (w'.me.udp.status ≡ udp_ready)
        × (is_kcp_valid w'.me ≡ true)
        × (w'.me.udp.kcp ≡ some (record k { conv = conv_of key }))
  unfolding client_command client_shake_hand2 set_conv is_kcp_valid is_usable
  ends_handshake k shaking same no_timer kcp =
      let (pad', f, p) =
        sock_send_command_lem e good.stack w command_shake_hand2 key (omega arith) w.me.udp.sock in
      let whole = good.sends_all w.calls w.me.udp.sock (packet command_shake_hand2 pad' key) in
      let n = length-packet command_shake_hand2 pad' key f in
      let q = on_client_recv-packet e w command_shake_hand2 pad key padded (omega arith) in
      let sent = after_send w w.me.udp.sock (packet command_shake_hand2 pad' key) in
      let timed = check_create_kcp_timer-made e client_heartbeat sent good.memory no_timer in
      let eq = (bytes_eq_iff key w.me.key).1 (sym same) in
      let w2 = with_timers e client_heartbeat sent in
      (
        pad',
        f,
        set_status udp_ready
            (set_udp w2 (record (w2.me.udp) { kcp = some (record k { conv = conv_of key }) })),
        ground (arith, p, whole, n, q, eq, timed),
        timer_calls client_heartbeat w.me.self,
        refl,
        refl,
        ground arith,
        refl,
      )
