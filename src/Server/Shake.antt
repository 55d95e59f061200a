-- ===== src/Server/Shake.antt =====
-- The server's two steps of a handshake where its calls succeed.
use kcpev.Base.{
  ℕ, ◌+◌, ◌^◌, ◌<◌, ◌≡◌, refl, ap, ◌∙◌, ◌==◌, true, false, Option, none, some, List, ◌∷◌, leb,
  length, drop, ℤ, pos, Run, ok, arith,
}
use kcpev.Header.{Header, header_size, header_from_net}
use kcpev.Header.Packing.{packet, length-packet, drop-packet}
use kcpev.Conn.{
  command_shake_hand1, command_shake_hand2, udp_shaking_hand, udp_ready, key_size, conv_of, sends,
  is_some, Kcpev, Trace, Env, World, server_heartbeat, returns_code, ◌>>=◌, ◌>>◌, check,
}
use kcpev.Send.{is_usable, is_kcp_valid}
use kcpev.Send.Choice.{sock_send_command_lem, after_send}
use kcpev.Life.Timers.{with_timers, check_create_kcp_timer-made}
use kcpev.Setup.Open.{Opens, connect_client_udp-made}
use kcpev.Client.{set_status}
use kcpev.Client.Data.{header_from_net-alone}
use kcpev.Client.Shake.{Succeeds}
use kcpev.Server.State.{Server, load, store, hash_find, with_client}
use kcpev.Server.Recv.{
  find_client, shake_hand1_client, shake_hand2_client, on_client, server_command, on_server_recv,
}

on_server_recv-header :
    (e : Env) (client : Option ℕ) (s : Server) (buf : List ℕ) (h : Header)
    → header_from_net buf ≡ some h
    → leb header_size (length buf) ≡ true
    → (h.size == length buf) ≡ true
    → e.getnameinfo s.calls ≡ true
    → on_server_recv e client s buf
      ≡ returns_code (server_command e client h.command (drop header_size buf)) s
unfolding on_server_recv
on_server_recv-header e client s buf h is long sized named =
    rw (long, is, sized, on_server_recv)
      (ap
        (λ b. returns_code (do check b; server_command e client h.command (drop header_size buf)) s)
        named)

-- A packet goes to the case of its command.
pub on_server_recv-packet :
    (e : Env) (client : Option ℕ) (s : Server) (command : ℕ) (pad msg : List ℕ)
    → length pad ≡ 3
    → length msg + header_size < 2 ^ 32
    → e.getnameinfo s.calls ≡ true
    → on_server_recv e client s (packet command pad msg)
      ≡ returns_code (server_command e client command msg) s
on_server_recv-packet e client s command pad msg f h named =
    let n = length-packet command pad msg f in
    on_server_recv-header e client s (packet command pad msg)
      (record { size = length msg + header_size; command = command })
      (header_from_net-alone command pad msg f h) (ground (arith, n)) (ground (arith, n)) named
    ∙ ap (λ m. returns_code (server_command e client command m) s) (drop-packet command pad msg f)

module _ (e : Env) (good : Succeeds e) (w : World) where
  shake_hand1_client-made :
      Opens e
      → length w.me.key ≡ key_size
      → (pad : List ℕ) × (length pad ≡ 3)
        × (w' : World) × (shake_hand1_client e w ≡ ok (pos 0, w'))
        × (before : Trace) × (w'.calls
            ≡ sends w'.me.udp.sock (packet command_shake_hand2 pad w.me.key) ∷ before)
        × (w'.me.key ≡ w.me.key)
        × (w'.me.udp.status ≡ udp_shaking_hand)
        × ((w'.me.udp.sock == 0) ≡ false)
        × (w'.me.udp.evt ≡ w.me.udp.evt)
        × (w'.me.udp.kcp ≡ some (record { conv = conv_of w.me.key; output = true }))
  unfolding shake_hand1_client
  shake_hand1_client-made opens sized =
      let (w1, p, c) = connect_client_udp-made e opens w in
      let w2 = set_status udp_shaking_hand w1 in
      let long = ap length c.key in
      let (pad, f, q) =
        sock_send_command_lem e good.stack w2 command_shake_hand2 w2.me.key (omega (arith, long))
          w2.me.udp.sock in
      let sent = ap (packet command_shake_hand2 pad) c.key in
      (
        pad,
        f,
        after_send w2 w2.me.udp.sock (packet command_shake_hand2 pad w2.me.key),
        ground (arith, p, q),
        w2.calls,
        ap (λ b. sends w1.me.udp.sock b ∷ w1.calls) sent,
        c.key,
        refl,
        c.sock,
        c.evt,
        c.kcp,
      )

  shake_hand2_client-made :
      w.me.udp.status ≡ udp_shaking_hand
      → w.me.udp.evt ≡ none
      → shake_hand2_client e w ≡ ok (pos 0, set_status udp_ready (with_timers e server_heartbeat w))
  unfolding shake_hand2_client
  shake_hand2_client-made shaking no_timer =
      ground (arith, check_create_kcp_timer-made e server_heartbeat w good.memory no_timer)

abbrev pub updated : ℕ → World → Server → Server
updated a w s = record s { heap = store a w.me s.heap; calls = w.calls }

found_client :
    (s : Server) (key : List ℕ) (a : ℕ) (c : Kcpev) (f : World → Run (ℤ × World)) (w' : World)
    → length key ≡ key_size
    → hash_find s.heap s.hash key ≡ ok (some a)
    → load a s.heap ≡ some c
    → f (record { me = c; calls = s.calls }) ≡ ok (pos 0, w')
    → returns_code (do b ← find_client key; on_client b f) s ≡ ok (pos 0, updated a w' s)
unfolding find_client on_client with_client
found_client s key a c f w' sized found there p = ground (arith, found, there, p)

module _ (e : Env) (good : Succeeds e) (opens : Opens e) (s : Server) (key : List ℕ) (a : ℕ)
    (c : Kcpev) (sized : length key ≡ key_size) (named : (t : Trace) → e.getnameinfo t ≡ true)
    (found : hash_find s.heap s.hash key ≡ ok (some a)) (there : load a s.heap ≡ some c)
    (has_key : c.key ≡ key) (client : Option ℕ) (pad : List ℕ) (padded : length pad ≡ 3) where
  -- A packet with the client's key connects its UDP side, and the key goes back over it.
  pub answers_handshake :
      (pad' : List ℕ) × (length pad' ≡ 3)
      × (w' : World) × (on_server_recv e client s (packet command_shake_hand1 pad key)
          ≡ ok (pos 0, updated a w' s))
      × (before : Trace) × (w'.calls
          ≡ sends w'.me.udp.sock (packet command_shake_hand2 pad' key) ∷ before)
      × (w'.me.key ≡ key)
      × (w'.me.udp.status ≡ udp_shaking_hand)
      × ((w'.me.udp.sock == 0) ≡ false)
      × (w'.me.udp.evt ≡ c.udp.evt)
      × (w'.me.udp.kcp ≡ some (record { conv = conv_of key; output = true }))
  unfolding server_command
  answers_handshake =
      let w : World = record { me = c; calls = s.calls } in
      let (pad', f, w', p, before, calls, same, shaking, sock, evt, kcp) =
        shake_hand1_client-made e good w opens (ap length has_key ∙ sized) in
      (
        pad',
        f,
        w',
        on_server_recv-packet e client s command_shake_hand1 pad key padded (omega arith)
              (named s.calls)
            ∙ found_client s key a c (shake_hand1_client e) w' sized found there p,
        before,
        calls ∙ ap (λ k. sends w'.me.udp.sock (packet command_shake_hand2 pad' k) ∷ before) has_key,
        same ∙ has_key,
        shaking,
        sock,
        evt,
        kcp ∙ ap (λ k. some (record { conv = conv_of k; output = true })) has_key,
      )

  -- From a client that shakes hands it ends the handshake.
  pub accepts_handshake :
      c.udp.status ≡ udp_shaking_hand
      → c.udp.evt ≡ none
      → (c.udp.sock == 0) ≡ false
      → is_some c.udp.kcp ≡ true
      → (w' : World) × (on_server_recv e client s (packet command_shake_hand2 pad key)
          ≡ ok (pos 0, updated a w' s))
        × (w'.me.udp.status ≡ udp_ready)
        × (is_kcp_valid w'.me ≡ true)
        × (w'.me.udp.kcp ≡ c.udp.kcp)
  unfolding server_command is_kcp_valid is_usable
  accepts_handshake shaking no_timer sock kcp =
      let w : World = record { me = c; calls = s.calls } in
      let w' = set_status udp_ready (with_timers e server_heartbeat w) in
      (
        w',
        on_server_recv-packet e client s command_shake_hand2 pad key padded (omega arith)
              (named s.calls)
            ∙ found_client s key a c (shake_hand2_client e) w' sized found there
                (shake_hand2_client-made e good w shaking no_timer),
        refl,
        ground (arith, sock, kcp),
        refl,
      )
