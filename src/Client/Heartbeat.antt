-- ===== src/Client/Heartbeat.antt =====
-- The client's heartbeat timer.
use kcpev.Base.{ℕ, ◌≡◌, refl, inl, inr, Bool-cases, true, false, List, ◌∷◌, length, ok, arith}
use kcpev.Header.Packing.{packet}
use kcpev.Conn.{command_heartbeat1, key_size, kcp_sends, Env, HasStack, World}
use kcpev.Send.{is_usable, is_kcp_valid, set_kcp_invalid}
use kcpev.Send.Choice.{kcp_send_command_lem}
use kcpev.Client.{on_client_heartbeat_timer}

-- The client's heartbeat: where UDP can be used and the last heartbeat is not overdue, one heartbeat
-- packet with the key goes out through kcp and nothing else changes; where it is overdue, nothing is
-- sent and UDP cannot be used any more; where UDP cannot be used, nothing happens.
pub on_client_heartbeat_timer_lem :
    (e : Env) (w : World)
    → HasStack e
    → length w.me.key ≡ key_size
    → (w' : World) × (on_client_heartbeat_timer e w ≡ ok w')
      × (is_kcp_valid w.me ≡ false → w' ≡ w)
      × (is_kcp_valid w.me ≡ true
          → e.overdue (e.now w.calls) w.me.udp.heart ≡ true
          → (is_kcp_valid w'.me ≡ false) × (w'.calls ≡ w.calls))
      × (is_kcp_valid w.me ≡ true
          → e.overdue (e.now w.calls) w.me.udp.heart ≡ false
          → (pad : List ℕ) × (length pad ≡ 3)
            × (w'.me ≡ w.me)
            × (w'.calls ≡ kcp_sends w.me.self (packet command_heartbeat1 pad w.me.key) ∷ w.calls))
unfolding on_client_heartbeat_timer
on_client_heartbeat_timer_lem e w stack sized = elim (Bool-cases (is_kcp_valid w.me)) [
  | inr unusable ↦
      (w, ground arith, λ _. refl, λ v. absurd (ground arith), λ v. absurd (ground arith))
  | inl usable ↦ elim (Bool-cases (e.overdue (e.now w.calls) w.me.udp.heart)) [
    | inl late ↦ (
      record w { me = set_kcp_invalid w.me },
      ground arith,
      λ v. absurd (ground arith),
      λ _ _. (unfold is_kcp_valid set_kcp_invalid is_usable in ground arith, refl),
      λ _ n. absurd (ground arith),
    )
    | inr timely ↦
        let (pad, three, f) =
          kcp_send_command_lem e stack w command_heartbeat1 w.me.key (omega (arith, sized)) in
        (
          record w {
            calls = kcp_sends w.me.self (packet command_heartbeat1 pad w.me.key) ∷ w.calls;
          },
          ground (arith, f),
          λ v. absurd (ground arith),
          λ _ n. absurd (ground arith),
          λ _ _. (pad, three, refl, refl),
        )
  ]
]
