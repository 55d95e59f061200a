-- ===== src/Server/Status.antt =====
-- The UDP side of one of the server's clients as a state machine: what one packet can do to it.
use kcpev.Base.{
  ◌⊎◌, ℕ, ◌≡◌, refl, subst, inl, inr, Bool-cases, true, false, none, some, List, ◌++◌, ◌==◌, ℤ,
  is_nonneg, Run, ok, fault, arith,
}
use kcpev.Conn.{
  server_udp, command_shake_hand2, command_heartbeat1, udp_shaking_hand, udp_ready, is_shaking_hand,
  conv_of, Kcpev, is_some, server_heartbeat, Env, World,
}
use kcpev.Send.{sock_send_command, kcp_send_command}
use kcpev.Send.Frame.{me-sock_send_command, me-kcp_send_command}
use kcpev.Life.{check_create_kcp_timer}
use kcpev.Life.Timers.{check_create_kcp_timer_lem, check_create_kcp_timer-evh}
use kcpev.Setup.{connect_client_udp}
use kcpev.Setup.Peer.{CutOff, connect_client_udp_lem}
use kcpev.Client.{set_status}
use kcpev.Server.Recv.{
  be64, shake_hand1_client, shake_hand2_client, heartbeat1_client, heartbeat2_client,
}

-- A handshake has begun, with a socket and a kcp object of the key's number.
pub record Shaken (c c' : Kcpev) : Type 0 where
  pub key : c'.key ≡ c.key
  pub tcp : c'.tcp ≡ c.tcp
  pub status : c'.udp.status ≡ udp_shaking_hand
  pub sock : (c'.udp.sock == 0) ≡ false
  pub evio :
      (c'.udp.evio ≡ c.udp.evio)
      ⊎ (c'.udp.evio ≡ some (record { cb = server_udp; fd = c'.udp.sock }))
  pub evt : c'.udp.evt ≡ c.udp.evt
  pub evh : c'.udp.evh ≡ c.udp.evh
  pub kcp : c'.udp.kcp ≡ some (record { conv = conv_of c.key; output = true })

-- Nothing has changed but the time of the heartbeat; where there were no timers, none is left.
pub record Stays (c c' : Kcpev) : Type 0 where
  pub key : c'.key ≡ c.key
  pub tcp : c'.tcp ≡ c.tcp
  pub status : c'.udp.status ≡ c.udp.status
  pub sock : c'.udp.sock ≡ c.udp.sock
  pub evio : c'.udp.evio ≡ c.udp.evio
  pub evt : c'.udp.evt ≡ c.udp.evt
  pub evh : (c'.udp.evh ≡ c.udp.evh) ⊎ ((c'.udp.evt ≡ none) × (c'.udp.evh ≡ none))
  pub kcp : c'.udp.kcp ≡ c.udp.kcp

-- A handshake has ended: UDP is ready, with timers where there was none.
pub record Readied (c c' : Kcpev) : Type 0 where
  pub key : c'.key ≡ c.key
  pub tcp : c'.tcp ≡ c.tcp
  pub before : c.udp.status ≡ udp_shaking_hand
  pub status : c'.udp.status ≡ udp_ready
  pub sock : c'.udp.sock ≡ c.udp.sock
  pub evio : c'.udp.evio ≡ c.udp.evio
  pub untimed : c.udp.evt ≡ none
  pub evt : is_some c'.udp.evt ≡ true
  pub evh : is_some c'.udp.evh ≡ true
  pub kcp : c'.udp.kcp ≡ c.udp.kcp

-- What one message of a packet does to a client: nothing but to the time of its heartbeat; or it opens
-- a connection over UDP to the peer and begins a handshake; or it fails to, and releases what UDP had;
-- or it ends the handshake.
pub data PeerStep (msg : List ℕ) (c c' : Kcpev) : Type 0 where
  stays : Stays c c' → PeerStep msg c c'
  shakes : msg ≡ c.key → Shaken c c' → PeerStep msg c c'
  loses : msg ≡ c.key → CutOff c c' → PeerStep msg c c'
  gets_ready : msg ≡ c.key → Readied c c' → PeerStep msg c c'

pub PeerStep-same : {msg : List ℕ} {c c' : Kcpev} → c' ≡ c → PeerStep msg c c'
PeerStep-same same = stays (record {
  key = ground (arith, same);
  tcp = ground (arith, same);
  status = ground (arith, same);
  sock = ground (arith, same);
  evio = ground (arith, same);
  evt = ground (arith, same);
  evh = inl (ground (arith, same));
  kcp = ground (arith, same);
})

module _ (e : Env) (msg : List ℕ) (w w' : World) (ret : ℤ) where
  -- The handler begins a handshake or releases the UDP side, as its result says.
  pub shake_hand1-Shaken :
      shake_hand1_client e w ≡ ok (ret, w')
      → (is_nonneg ret ≡ true → Shaken w.me w'.me) × (is_nonneg ret ≡ false → CutOff w.me w'.me)
  unfolding shake_hand1_client
  shake_hand1-Shaken h = go (connect_client_udp e w) refl
    where
      sent :
          (r : ℤ) (w1 : World)
          → connect_client_udp e w ≡ ok (r, w1)
          → is_nonneg r ≡ true
          → (m : Run (ℤ × World))
          → sock_send_command e w1.me.udp.sock command_shake_hand2 w1.me.key
              (set_status udp_shaking_hand w1)
            ≡ m
          → (is_nonneg ret ≡ true → Shaken w.me w'.me) × (is_nonneg ret ≡ false → CutOff w.me w'.me)
      sent r w1 f good fault g = absurd (ground (arith, f, good, g))
      sent r w1 f good (ok (r2, w2)) g =
          let k = (connect_client_udp_lem e w w1 r f).0 good in
          let same =
            me-sock_send_command e command_shake_hand2 w1.me.key (set_status udp_shaking_hand w1)
              w1.me.udp.sock g in
          let end : w2 ≡ w' = ground (arith, f, good, g) in
          (
            λ _. record {
              key = ground (arith, same, end, k);
              tcp = ground (arith, same, end, k);
              status = ground (arith, same, end);
              sock = ground (arith, same, end, k);
              evio = elim k.evio [
                | inl kept ↦ inl (ground (arith, same, end, kept))
                | inr new ↦ inr (ground (arith, same, end, new))
              ];
              evt = ground (arith, same, end, k);
              evh = ground (arith, same, end, k);
              kcp = ground (arith, same, end, k);
            },
            λ bad. absurd (ground (arith, f, good, g)),
          )

      go :
          (m : Run (ℤ × World))
          → connect_client_udp e w ≡ m
          → (is_nonneg ret ≡ true → Shaken w.me w'.me) × (is_nonneg ret ≡ false → CutOff w.me w'.me)
      go fault f = absurd (ground (arith, f))
      go (ok (r, w1)) f = elim (Bool-cases (is_nonneg r)) [
        | inl good ↦
            sent r w1 f good
              (sock_send_command e w1.me.udp.sock command_shake_hand2 w1.me.key
                (set_status udp_shaking_hand w1))
              refl
        | inr bad ↦
            let end : w1 ≡ w' = ground (arith, f, bad) in
            (
              λ good. absurd (ground (arith, f, bad)),
              λ _.
                  subst (λ (x : World). CutOff w.me x.me) end
                    ((connect_client_udp_lem e w w1 r f).1 bad),
            )
      ]

  pub shake_hand1-PeerStep :
      msg ≡ w.me.key → shake_hand1_client e w ≡ ok (ret, w') → PeerStep msg w.me w'.me
  shake_hand1-PeerStep is h =
      let (begins, fails) = shake_hand1-Shaken h in
      elim (Bool-cases (is_nonneg ret)) [
        | inl good ↦ shakes is (begins good)
        | inr bad ↦ loses is (fails bad)
      ]

  pub shake_hand2-PeerStep :
      msg ≡ w.me.key → shake_hand2_client e w ≡ ok (ret, w') → PeerStep msg w.me w'.me
  unfolding shake_hand2_client
  shake_hand2-PeerStep is h = elim (Bool-cases (is_shaking_hand w.me.udp.status)) [
    | inr idle ↦ PeerStep-same (ground (arith, idle))
    | inl shaking ↦ go shaking (check_create_kcp_timer e server_heartbeat w) refl
  ]
    where
      go :
          is_shaking_hand w.me.udp.status ≡ true
          → (m : Run (ℤ × World)) → check_create_kcp_timer e server_heartbeat w ≡ m
          → PeerStep msg w.me w'.me
      go shaking fault f = absurd (ground (arith, shaking, f))
      go shaking (ok (r, w1)) f =
          let (but, good, bad) = check_create_kcp_timer_lem e server_heartbeat w w1 r f in
          let (good_evh, bad_evh) = check_create_kcp_timer-evh e server_heartbeat w w1 r f in
          elim (Bool-cases (is_nonneg r)) [
            | inl timer ↦
                let end : set_status udp_ready w1 ≡ w' = ground (arith, shaking, f, timer) in
                gets_ready is (record {
                  key = ground (arith, end, but);
                  tcp = ground (arith, end, but);
                  before = ground arith;
                  status = ground (arith, end);
                  sock = ground (arith, end, but);
                  evio = ground (arith, end, but);
                  untimed = (good timer).0;
                  evt = ground (arith, end, (good timer).1);
                  evh = ground (arith, end, good_evh timer);
                  kcp = ground (arith, end, but);
                })
            | inr none_made ↦
                let end : w1 ≡ w' = ground (arith, shaking, f, none_made) in
                stays (record {
                  key = ground (arith, end, but);
                  tcp = ground (arith, end, but);
                  status = ground (arith, end, but);
                  sock = ground (arith, end, but);
                  evio = ground (arith, end, but);
                  evt = ground (arith, end, bad none_made);
                  evh =
                      subst
                        (λ (x : World).
                          (x.me.udp.evh ≡ w.me.udp.evh)
                          ⊎ ((x.me.udp.evt ≡ none) × (x.me.udp.evh ≡ none)))
                        end (bad_evh none_made);
                  kcp = ground (arith, end, but);
                })
          ]

  pub heartbeat1-PeerStep :
      (got : List ℕ) → heartbeat1_client e got w ≡ ok (ret, w') → PeerStep msg w.me w'.me
  unfolding heartbeat1_client
  heartbeat1-PeerStep got h =
      go (kcp_send_command e command_heartbeat1 (w.me.key ++ be64 w.me.udp.heart) w) refl
    where
      go :
          (m : Run (ℤ × World))
          → kcp_send_command e command_heartbeat1 (w.me.key ++ be64 w.me.udp.heart) w ≡ m
          → PeerStep msg w.me w'.me
      go fault g = PeerStep-same (ground (arith, g))
      go (ok (r, w1)) g =
          let same =
            me-kcp_send_command e command_heartbeat1 (w.me.key ++ be64 w.me.udp.heart) w g in
          PeerStep-same (ground (arith, g, same))

  pub heartbeat2-PeerStep :
      (got : List ℕ) → heartbeat2_client e got w ≡ ok (ret, w') → PeerStep msg w.me w'.me
  unfolding heartbeat2_client
  heartbeat2-PeerStep got h = stays (record {
    key = ground arith;
    tcp = ground arith;
    status = ground arith;
    sock = ground arith;
    evio = ground arith;
    evt = ground arith;
    evh = inl (ground arith);
    kcp = ground arith;
  })
