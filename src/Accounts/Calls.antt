-- ===== src/Accounts/Calls.antt =====
-- Sending and the making of timers lose nothing.
use kcpev.Base.{◌∷◌, ℕ, ◌≡◌, ap, List, Option, none, ℤ, ok, arith}
use kcpev.Conn.{Trace, timer_starts, on_timer, allocates, World, Env, TimerCb, EvTimer, Kcpev}
use kcpev.Send.{sock_send_command, kcp_send_command, kcpev_send_command}
use kcpev.Send.Frame.{me-sock_send_command, me-kcp_send_command, me-kcpev_send_command}
use kcpev.Life.{check_create_kcp_timer}
use kcpev.Accounts.{HasMemory, taken, given_back, has, Conserves, Careful, Careful-of_Conserves}

abbrev evt_of : Kcpev → Option EvTimer
evt_of c = c.udp.evt

abbrev evh_of : Kcpev → Option EvTimer
evh_of c = c.udp.evh

module _ (e : Env) (command : ℕ) (msg : List ℕ) (w w' : World) (ret : ℤ) where
  pub sock_send-Conserves :
      (sock : ℕ) → sock_send_command e sock command msg w ≡ ok (ret, w') → Conserves e w w'
  unfolding sock_send_command Conserves taken given_back
  sock_send-Conserves sock h k = ground arith

  pub kcp_send-Conserves : kcp_send_command e command msg w ≡ ok (ret, w') → Conserves e w w'
  unfolding kcp_send_command Conserves taken given_back
  kcp_send-Conserves h k = ground arith

  pub kcpev_send-Conserves : kcpev_send_command e command msg w ≡ ok (ret, w') → Conserves e w w'
  unfolding kcpev_send_command Conserves taken given_back
  kcpev_send-Conserves h k = ground arith

pub timer-Conserves :
    (e : Env) (has_memory : HasMemory e) (hcb : TimerCb) (w w' : World) (ret : ℤ)
    → (w.me.udp.evt ≡ none → w.me.udp.evh ≡ none)
    → check_create_kcp_timer e hcb w ≡ ok (ret, w')
    → Conserves e w w'
unfolding check_create_kcp_timer Conserves taken given_back has
timer-Conserves e has_memory hcb w w' ret paired h k =
    let one_more : Trace =
      timer_starts w.me.self (record { cb = on_timer; repeat_ms = 10 })
      ∷ allocates w.me.self
      ∷ w.calls in
    ground (arith, has_memory.memory w.calls, has_memory.memory one_more)

module _ (e : Env) (command : ℕ) (msg : List ℕ) where
  pub sock_send-Careful :
      (sock : ℕ) (w w' : World) (ret : ℤ)
      → sock_send_command e sock command msg w ≡ ok (ret, w')
      → Careful e w w'
  sock_send-Careful sock w w' ret h =
      let same = me-sock_send_command e command msg w sock h in
      Careful-of_Conserves (ap evt_of same) (ap evh_of same)
        (sock_send-Conserves e command msg w w' ret sock h)

  pub kcp_send-Careful :
      (w w' : World) (ret : ℤ) → kcp_send_command e command msg w ≡ ok (ret, w') → Careful e w w'
  kcp_send-Careful w w' ret h =
      let same = me-kcp_send_command e command msg w h in
      Careful-of_Conserves (ap evt_of same) (ap evh_of same)
        (kcp_send-Conserves e command msg w w' ret h)

  pub kcpev_send-Careful :
      (w w' : World) (ret : ℤ) → kcpev_send_command e command msg w ≡ ok (ret, w') → Careful e w w'
  kcpev_send-Careful w w' ret h =
      let same = me-kcpev_send_command e command msg w h in
      Careful-of_Conserves (ap evt_of same) (ap evh_of same)
        (kcpev_send-Conserves e command msg w w' ret h)

pub timer-Careful :
    (e : Env) (has_memory : HasMemory e) (hcb : TimerCb) (w w' : World) (ret : ℤ)
    → check_create_kcp_timer e hcb w ≡ ok (ret, w')
    → Careful e w w'
timer-Careful e has_memory hcb w w' ret h = record {
  paired = λ p. record { paired = λ n. unfold check_create_kcp_timer in ground (arith, p) };
  conserves = λ p. timer-Conserves e has_memory hcb w w' ret p.paired h;
}
