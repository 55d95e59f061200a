-- ===== src/Client/Handshake.antt =====
-- The client's UDP status as a state machine: what one packet can do to it.
use kcpev.Base.{
  ℕ, ◌≡◌, refl, inl, inr, true, false, Bool-cases, Option-cases, none, some, List, ◌==◌, length,
  drop, bytes_eq, bytes_eq_iff, ℤ, pos, int_eq, is_nonneg, Run, ok, fault, arith,
}
use kcpev.Header.{header_size}
use kcpev.Conn.{
  command_shake_hand1, command_shake_hand2, udp_invalid, udp_shaking_hand, udp_ready,
  is_shaking_hand, key_size, conv_of, Kcp, Kcpev, is_some, client_heartbeat, Env, World, ◌>>=◌,
  ◌>>◌, modify, check, call, returns_code,
}
use kcpev.Send.{is_usable, is_kcp_valid, sock_send_command}
use kcpev.Send.Frame.{me-sock_send_command}
use kcpev.Life.{set_udp, check_create_kcp_timer}
use kcpev.Life.Timers.{SameBut, check_create_kcp_timer_lem}
use kcpev.Client.{set_status, client_shake_hand1, client_shake_hand2, set_conv}

-- What one packet does to the UDP side: nothing to the status, a start of the handshake with a new
-- key, its end, by the packet that holds the key, or the end of UDP.
pub data UdpStep (packet : List ℕ) (c c' : Kcpev) : Type 0 where
  stays :
      c'.udp.status ≡ c.udp.status
      → (is_usable c.udp.status ≡ true → is_kcp_valid c' ≡ is_kcp_valid c)
      → UdpStep packet c c'
  shakes : c'.udp.status ≡ udp_shaking_hand → c'.key ≡ drop header_size packet → UdpStep packet c c'
  gets_ready :
      (k : Kcp)
      → c.udp.status ≡ udp_shaking_hand
      → drop header_size packet ≡ c.key
      → c.udp.evt ≡ none
      → is_kcp_valid c' ≡ true
      → c'.udp.kcp ≡ some k
      → k.conv ≡ conv_of c.key
      → UdpStep packet c c'
  falls : is_kcp_valid c ≡ true → c'.udp.status ≡ udp_invalid → UdpStep packet c c'

module _ (e : Env) (packet : List ℕ) (w w' : World) (ret : ℤ) where
  abbrev pub msg : List ℕ
  msg = drop header_size packet

  pub shake_hand1-UdpStep :
      returns_code (client_shake_hand1 e msg) w ≡ ok (ret, w') → UdpStep packet w.me w'.me
  unfolding client_shake_hand1
  shake_hand1-UdpStep h = elim (Bool-cases (w.me.udp.sock == 0)) [
    | inl z ↦ stays (ground arith) (λ u. ground arith)
    | inr nz ↦ elim (Bool-cases (length msg == key_size)) [
      | inl sized ↦
          go nz sized (sock_send_command e w.me.udp.sock command_shake_hand1 msg keyed) refl
      | inr bad ↦ stays (ground arith) (λ u. ground arith)
    ]
  ]
    where
      keyed : World
      keyed = record w { me = record (w.me) { key = msg } }

      go :
          (w.me.udp.sock == 0) ≡ false
          → (length msg == key_size) ≡ true
          → (m : Run (ℤ × World))
          → sock_send_command e w.me.udp.sock command_shake_hand1 msg keyed ≡ m
          → UdpStep packet w.me w'.me
      go nz sized fault g = stays (ground arith) (λ u. ground arith)
      go nz sized (ok (r, w1)) g =
          let same = me-sock_send_command e command_shake_hand1 msg keyed w.me.udp.sock g in
          elim (Bool-cases (int_eq r (pos 0))) [
            | inl sent ↦ shakes (ground (arith, same)) (ground (arith, same))
            | inr unsent ↦
                stays (ground (arith, same)) (λ u. unfold is_kcp_valid in ground (arith, same))
          ]

  -- The connection of a client whose timers were made, with the key's number in its kcp object.
  shake_hand2-ready :
      (w1 w2 : World) (k : Kcp)
      → w1.me ≡ w.me
      → SameBut w1.me w2.me
      → is_some w2.me.udp.evt ≡ true
      → w2.me.udp.kcp ≡ some k
      → (w.me.udp.sock == 0) ≡ false
      → w'
        ≡ set_status udp_ready
            (set_udp w2 (record (w2.me.udp) { kcp = some (record k { conv = conv_of w2.me.key }) }))
      → is_shaking_hand w.me.udp.status ≡ true
      → bytes_eq msg w.me.key ≡ true
      → w.me.udp.evt ≡ none
      → UdpStep packet w.me w'.me
  unfolding is_kcp_valid is_usable
  shake_hand2-ready w1 w2 k same but made has nz end shaking eq none_yet =
      gets_ready (record k { conv = conv_of w2.me.key }) (ground arith)
        ((bytes_eq_iff msg w.me.key).0 eq) none_yet (ground (arith, end, same, but, made))
        (ground (arith, end)) (ground (arith, same, but))

  pub shake_hand2-UdpStep :
      returns_code (client_shake_hand2 e msg) w ≡ ok (ret, w') → UdpStep packet w.me w'.me
  unfolding client_shake_hand2 set_conv is_usable
  shake_hand2-UdpStep h = elim (Bool-cases (w.me.udp.sock == 0)) [
    | inl z ↦ stays (ground arith) (λ u. ground arith)
    | inr nz ↦ elim (Bool-cases (length msg == key_size)) [
      | inr bad ↦ stays (ground arith) (λ u. ground arith)
      | inl sized ↦ elim (Bool-cases (is_shaking_hand w.me.udp.status)) [
        | inr idle ↦ stays (ground arith) (λ u. ground arith)
        | inl shaking ↦ elim (Bool-cases (bytes_eq msg w.me.key)) [
          | inr other ↦ stays (ground arith) (λ u. ground arith)
          | inl eq ↦
              go nz sized shaking eq (sock_send_command e w.me.udp.sock command_shake_hand2 msg w)
                refl
        ]
      ]
    ]
  ]
    where
      timed :
          (w.me.udp.sock == 0) ≡ false
          → is_shaking_hand w.me.udp.status ≡ true
          → bytes_eq msg w.me.key ≡ true
          → (w1 : World) → w1.me ≡ w.me
          → (m : Run (ℤ × World)) → check_create_kcp_timer e client_heartbeat w1 ≡ m
          → returns_code
              (do
                made ← (call (λ _. m))
                check (is_nonneg made)
                set_conv
                modify (set_status udp_ready))
              w1
            ≡ ok (ret, w')
          → UdpStep packet w.me w'.me
      timed nz shaking eq w1 same fault g h' = stays (ground arith) (λ u. ground arith)
      timed nz shaking eq w1 same (ok (r, w2)) g h' =
          let (but, good, bad) = check_create_kcp_timer_lem e client_heartbeat w1 w2 r g in
          elim (Bool-cases (is_nonneg r)) [
            | inr no_timer ↦ stays (ground (arith, same, but)) (λ u. ground arith)
            | inl timer ↦ elim (Option-cases w2.me.udp.kcp) [
              | inl no_kcp ↦ stays (ground arith) (λ u. ground arith)
              | inr (k, has) ↦
                  shake_hand2-ready w1 w2 k same but (good timer).1 has nz (ground arith) shaking eq
                    (ground (arith, same, good timer))
            ]
          ]

      go :
          (w.me.udp.sock == 0) ≡ false
          → (length msg == key_size) ≡ true
          → is_shaking_hand w.me.udp.status ≡ true
          → bytes_eq msg w.me.key ≡ true
          → (m : Run (ℤ × World)) → sock_send_command e w.me.udp.sock command_shake_hand2 msg w ≡ m
          → UdpStep packet w.me w'.me
      go nz sized shaking eq fault g = stays (ground arith) (λ u. ground arith)
      go nz sized shaking eq (ok (r, w1)) g =
          let same = me-sock_send_command e command_shake_hand2 msg w w.me.udp.sock g in
          elim (Bool-cases (int_eq r (pos 0))) [
            | inr unsent ↦ stays (ground (arith, same)) (λ u. ground (arith, same))
            | inl sent ↦
                timed nz shaking eq w1 same (check_create_kcp_timer e client_heartbeat w1) refl
                  (ground arith)
          ]
