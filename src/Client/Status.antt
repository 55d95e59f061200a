-- ===== src/Client/Status.antt =====
-- The client's UDP status under every packet.
use kcpev.Base.{
  ℕ, ◌≡◌, refl, inl, inr, true, ◌&&◌, Bool-cases, Option-cases, List, ◌==◌, leb, length, drop,
  bytes_eq, ℤ, Run, ok, fault, arith,
}
use kcpev.Header.{header_size, header_from_net}
use kcpev.Conn.{
  command_shake_hand1, command_shake_hand2, command_heartbeat1, command_heartbeat2,
  command_udp_invalid, key_size, Kcpev, Env, World, returns_code,
}
use kcpev.Send.{is_usable, is_kcp_valid, set_kcp_invalid, kcpev_send_command}
use kcpev.Send.Frame.{me-kcpev_send_command}
use kcpev.Client.{
  client_data, client_heartbeat1, client_udp_invalid, client_command, on_client_recv,
}
use kcpev.Client.Handshake.{
  UdpStep, stays, shakes, gets_ready, falls, shake_hand1-UdpStep, shake_hand2-UdpStep,
}

-- UDP can be used only with a socket, a kcp object and a running timer.
pub record IsSound (c : Kcpev) : Type 0 where
  pub usable_valid : is_usable c.udp.status ≡ true → is_kcp_valid c ≡ true

module _ (e : Env) (packet : List ℕ) (w w' : World) (ret : ℤ) where
  abbrev msg : List ℕ
  msg = drop header_size packet

  heartbeat1-UdpStep :
      returns_code (client_heartbeat1 e msg) w ≡ ok (ret, w') → UdpStep packet w.me w'.me
  unfolding client_heartbeat1
  heartbeat1-UdpStep h = go (kcpev_send_command e command_heartbeat2 msg w) refl
    where
      go :
          (m : Run (ℤ × World))
          → kcpev_send_command e command_heartbeat2 msg w ≡ m
          → UdpStep packet w.me w'.me
      go fault g = stays (ground (arith, g)) (λ u. unfold is_kcp_valid in ground (arith, g))
      go (ok (r, w1)) g =
          let same = me-kcpev_send_command e command_heartbeat2 msg w g in
          stays (ground (arith, same)) (λ u. unfold is_kcp_valid in ground (arith, same))

  udp_invalid-UdpStep :
      returns_code (client_udp_invalid msg) w ≡ ok (ret, w') → UdpStep packet w.me w'.me
  unfolding client_udp_invalid
  udp_invalid-UdpStep h = elim (Bool-cases (is_kcp_valid w.me)) [
    | inr unusable ↦ stays (ground arith) (λ u. ground arith)
    | inl valid ↦ elim (Bool-cases ((length msg == key_size) && bytes_eq msg w.me.key)) [
      | inr other ↦ stays (ground arith) (λ u. ground arith)
      | inl eq ↦ falls valid (unfold set_kcp_invalid in ground arith)
    ]
  ]

  command-UdpStep :
      (command : ℕ)
      → returns_code (client_command e command msg) w ≡ ok (ret, w')
      → UdpStep packet w.me w'.me
  unfolding client_command client_data
  command-UdpStep command h = elim (Bool-cases (command == command_shake_hand1)) [
    | inl is1 ↦ shake_hand1-UdpStep e packet w w' ret (ground (arith, is1))
    | inr not1 ↦ elim (Bool-cases (command == command_shake_hand2)) [
      | inl is2 ↦ shake_hand2-UdpStep e packet w w' ret (ground (arith, is2))
      | inr not2 ↦ elim (Bool-cases (command == command_heartbeat1)) [
        | inl is3 ↦ heartbeat1-UdpStep (ground (arith, is3))
        | inr not3 ↦ elim (Bool-cases (command == command_udp_invalid)) [
          | inl is4 ↦ udp_invalid-UdpStep (ground (arith, is4))
          | inr not4 ↦
              stays (ground (arith, not1, not2, not3, not4))
                (λ u. unfold is_kcp_valid in ground arith)
        ]
      ]
    ]
  ]

-- A call of `on_client_recv` that returns takes one step of the UDP status machine: it leaves the
-- status, and where that is usable the connection as usable as it was; or begins a handshake with the
-- key that the packet holds; or ends one, from the shaking status, by a packet that holds the client's
-- key, where there was no timer, and then UDP can be used, with a kcp object of the key's number; or
-- ends UDP where it could be used.
pub on_client_recv-UdpStep :
    (e : Env) (packet : List ℕ) (w w' : World) (ret : ℤ)
    → on_client_recv e w packet ≡ ok (ret, w')
    → UdpStep packet w.me w'.me
unfolding on_client_recv
on_client_recv-UdpStep e packet w w' ret h = elim (Option-cases (header_from_net packet)) [
  | inl no_header ↦ stays (ground arith) (λ u. ground arith)
  | inr (hd, is) ↦
      elim (Bool-cases (leb header_size (length packet) && (hd.size == length packet))) [
        | inr wrong ↦ stays (ground arith) (λ u. ground arith)
        | inl right ↦ command-UdpStep e packet w w' ret hd.command (ground (arith, is, right))
      ]
]

-- A connection that counts as usable only with a socket, a kcp object and a timer still does after a
-- call of `on_client_recv` that returns.
pub on_client_recv-IsSound :
    (e : Env) (packet : List ℕ) (w w' : World) (ret : ℤ)
    → IsSound w.me
    → on_client_recv e w packet ≡ ok (ret, w')
    → IsSound w'.me
on_client_recv-IsSound e packet w w' ret v h = go (on_client_recv-UdpStep e packet w w' ret h)
  where
    go : UdpStep packet w.me w'.me → IsSound w'.me
    go (stays s k) = record { usable_valid = λ u. ground (arith, v, k) }
    go (shakes s k) = record { usable_valid = λ u. unfold is_usable in ground arith }
    go (gets_ready k a b c valid f g) = record { usable_valid = λ u. valid }
    go (falls valid s) = record { usable_valid = λ u. unfold is_usable in ground arith }
