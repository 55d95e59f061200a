-- ===== src/Client/Tests.antt =====
-- The client at a handshake, at a run, and at its heartbeat timer.
use kcpev.Base.{
  ℕ, ◌≡◌, refl, true, false, List, [], ◌∷◌, ◌++◌, length, bytes_eq, zeros, length-zeros, ℤ, pos, ok,
  fault, arith,
}
use kcpev.Header.{buffer_size, header_from_net, header_to_net, be32, pack_send_buf}
use kcpev.Header.Packing.{packet}
use kcpev.Memory.{memcpy}
use kcpev.Conn.{command_heartbeat1, kcp_sends, udp_shaking_hand, Env, World}
use kcpev.Conn.Sample.{sample_env, sample_key, sample_client, ready_client}
use kcpev.Send.{is_usable, is_kcp_valid, sock_send_command}
use kcpev.Life.{check_create_kcp_timer}
use kcpev.Client.{on_client_recv, client_udp_recv, on_client_heartbeat_timer}
use kcpev.Client.Handshake.{UdpStep}
use kcpev.Client.Status.{IsSound, on_client_recv-UdpStep}
use kcpev.Client.Callbacks.{Reaches-IsSound}
use kcpev.Client.Steps.{gets_udp, start, goes_on}
use kcpev.Client.Heartbeat.{on_client_heartbeat_timer_lem}

-- The end of a handshake, for a client that shakes hands.
abbrev hand2 : List ℕ
hand2 = 0 ∷ 0 ∷ 0 ∷ 24 ∷ 3 ∷ 0 ∷ 0 ∷ 0 ∷ sample_key

abbrev env : Env
env = sample_env (sample_key ++ sample_key)

abbrev shaking : World
shaking = record { me = sample_client udp_shaking_hand; calls = [] }

abbrev ended : ℤ × World
ended = elim (on_client_recv env shaking hand2) [ ok r ↦ r | fault ↦ (pos 1, shaking) ]

shaking-IsSound : IsSound shaking.me
unfolding is_usable
shaking-IsSound = record { usable_valid = λ u. ground arith }

ended-returns : on_client_recv env shaking hand2 ≡ ok (ended.0, ended.1)
unfolding on_client_recv header_from_net sock_send_command pack_send_buf header_to_net be32 memcpy
    check_create_kcp_timer bytes_eq
ended-returns = refl

on_client_recv-UdpStep_example : UdpStep hand2 shaking.me ended.1.me
on_client_recv-UdpStep_example =
    on_client_recv-UdpStep env hand2 shaking ended.1 ended.0 ended-returns

-- The same packet as a datagram.
abbrev received : World
received = elim (client_udp_recv env 1 hand2 shaking) [ ok w ↦ w | fault ↦ shaking ]

received-returns : client_udp_recv env 1 hand2 shaking ≡ ok received
unfolding client_udp_recv is_kcp_valid is_usable on_client_recv header_from_net sock_send_command
    pack_send_buf header_to_net be32 memcpy check_create_kcp_timer bytes_eq
received-returns = refl

Reaches-IsSound_example : IsSound received.me
Reaches-IsSound_example =
    Reaches-IsSound env shaking received shaking-IsSound
      (goes_on start (gets_udp 1 hand2 received-returns))

abbrev ready : World
ready = record { me = ready_client; calls = [] }

abbrev full_env : Env
full_env = sample_env (zeros buffer_size)

on_client_heartbeat_timer_lem_example :
    (w' : World) × (on_client_heartbeat_timer full_env ready ≡ ok w')
    × (is_kcp_valid ready.me ≡ false → w' ≡ ready)
    × (is_kcp_valid ready.me ≡ true → false ≡ true → (is_kcp_valid w'.me ≡ false) × (w'.calls ≡ []))
    × (is_kcp_valid ready.me ≡ true
        → false ≡ false
        → (pad : List ℕ) × (length pad ≡ 3)
          × (w'.me ≡ ready.me)
          × (w'.calls ≡ kcp_sends 7 (packet command_heartbeat1 pad sample_key) ∷ []))
on_client_heartbeat_timer_lem_example =
    on_client_heartbeat_timer_lem full_env ready (λ t. length-zeros buffer_size) refl
