-- ===== src/Client/Steps.antt =====
-- The client's callbacks as the steps of one program, and a rule for what every run of them keeps.
use kcpev.Base.{
  ℕ, ◌≡◌, refl, subst, inl, inr, Bool-cases, Bool, true, false, Option, List, [], ◌∷◌, ℤ, minus_one,
  pos, int_eq, Run, ok, fault, arith,
}
use kcpev.Ringbuf.{Ringbuf}
use kcpev.Stream.{tcp_recv}
use kcpev.Stream.Preserve.{tcp_recv-keeps}
use kcpev.Conn.{
  Call, receives, kcp_inputs, kcp_receives, exits, command_heartbeat1, command_data, Env, World,
  ◌>>=◌, ◌>>◌, check, call, call_void, pure,
}
use kcpev.Conn.Keeps.{IsPreorder, Keeps-call, Keeps-call_void, keeps_rules, returns_void-Keeps}
use kcpev.Send.{is_kcp_valid, set_kcp_invalid, kcp_send_command, kcpev_send_command, kcpev_send}
use kcpev.Poll.{kcpev_timer_repeat, timer_with_kcp, timer_with_kcp-returns}
use kcpev.Poll.Preserve.{try_kcp_recv-keeps}
use kcpev.Client.{
  on_client_recv, on_client_heartbeat_timer, client_tcp_recv, client_poll, client_on_timer,
  client_udp_recv,
}

-- One callback that returned, or a message of the application.
pub data ClientStep (e : Env) (w w' : World) : Type 0 where
  gets_tcp : (bytes : List ℕ) → client_tcp_recv e bytes w ≡ ok w' → ClientStep e w w'
  gets_udp :
      (fuel : ℕ) (bytes : List ℕ) → client_udp_recv e fuel bytes w ≡ ok w' → ClientStep e w w'
  ticks : (fuel : ℕ) → client_on_timer e fuel w ≡ ok w' → ClientStep e w w'
  beats : on_client_heartbeat_timer e w ≡ ok w' → ClientStep e w w'
  sends_message : (msg : List ℕ) (ret : ℤ) → kcpev_send e msg w ≡ ok (ret, w') → ClientStep e w w'

pub data Reaches (e : Env) (w : World) : World → Type 0 where
  start : Reaches e w w
  goes_on : {w1 w2 : World} → Reaches e w w1 → ClientStep e w1 w2 → Reaches e w w2

-- The calls that the callbacks make by themselves, and not in a function that they call.
abbrev pub is_note : Call → Bool
is_note (receives _ _) = true
is_note (kcp_inputs _ _) = true
is_note (kcp_receives _) = true
is_note exits = true
is_note _ = false

abbrev pub noted : Call → World → World
noted c w = record w { calls = c ∷ w.calls }

abbrev pub with_ring : Option Ringbuf → World → World
with_ring rb w = record w { me = record (w.me) { tcp = record (w.me.tcp) { rb = rb } } }

-- A relation that the parts of the callbacks keep.
pub record IsKept (e : Env) (R : World → World → Type 0) : Type 0 where
  pub order : IsPreorder R
  pub packet :
      (w w' : World) (packet : List ℕ) (ret : ℤ) → on_client_recv e w packet ≡ ok (ret, w') → R w w'
  pub note : (c : Call) (w : World) → is_note c ≡ true → R w (noted c w)
  pub ring : (rb : Option Ringbuf) (w : World) → R w (with_ring rb w)
  pub repeat : (w w' : World) → kcpev_timer_repeat e w ≡ ok w' → R w w'
  pub invalid : (w : World) → R w (record w { me = set_kcp_invalid w.me })
  pub kcp_send :
      (command : ℕ) (msg : List ℕ) (w w' : World) (ret : ℤ)
      → kcp_send_command e command msg w ≡ ok (ret, w')
      → R w w'
  pub send :
      (command : ℕ) (msg : List ℕ) (w w' : World) (ret : ℤ)
      → kcpev_send_command e command msg w ≡ ok (ret, w')
      → R w w'

module _ (e : Env) (R : World → World → Type 0) (kept : IsKept e R) where
  poll-kept : (fuel : ℕ) (w w' : World) (ret : ℤ) → client_poll e fuel w ≡ ok (ret, w') → R w w'
  poll-kept fuel w w' ret h =
      try_kcp_recv-keeps (λ s. s.calls) noted w.me.self (on_client_recv e) (R w)
        (λ s r. kept.order.trans w s _ r (kept.note (kcp_receives w.me.self) s refl))
        (λ s s' p ret r g. kept.order.trans w s s' r (kept.packet s s' p ret g)) e fuel minus_one
        ret w w' (kept.order.same w) h

  tcp-kept : (bytes : List ℕ) (w w' : World) → client_tcp_recv e bytes w ≡ ok w' → R w w'
  unfolding client_tcp_recv
  tcp-kept [] w w' h = subst (R w) (ground arith) (kept.note exits w refl)
  tcp-kept (x ∷ xs) w w' h =
      read (tcp_recv (on_client_recv e) (e.malloc got.calls) w.me.tcp.rb got (x ∷ xs)) refl
    where
      got : World
      got = noted (receives w.me.self (x ∷ xs)) w

      read :
          (m : Run (ℤ × Option Ringbuf × World))
          → tcp_recv (on_client_recv e) (e.malloc got.calls) w.me.tcp.rb got (x ∷ xs) ≡ m
          → R w w'
      read fault g = absurd (ground (arith, g))
      read (ok (ret, rb, w1)) g =
          let r1 =
            tcp_recv-keeps (on_client_recv e) (R got)
              (λ s s' p ret r f. kept.order.trans got s s' r (kept.packet s s' p ret f))
              (e.malloc got.calls) w.me.tcp.rb rb got w1 (x ∷ xs) ret (kept.order.same got) g in
          let r2 =
            kept.order.trans w got (with_ring rb w1)
              (kept.note (receives w.me.self (x ∷ xs)) w refl)
              (kept.order.trans got w1 (with_ring rb w1) r1 (kept.ring rb w1)) in
          elim (Bool-cases (int_eq ret (pos 0))) [
            | inl fine ↦ subst (R w) (ground (arith, g, fine)) r2
            | inr bad ↦ subst (R w) (ground (arith, g, bad)) (
                kept.order.trans w (with_ring rb w1) (noted exits (with_ring rb w1)) r2
                  (kept.note exits (with_ring rb w1) refl))
          ]

  timer_with_kcp-kept : (w w' : World) → timer_with_kcp e w ≡ ok w' → R w w'
  timer_with_kcp-kept w w' h = kept.repeat w w' (timer_with_kcp-returns e w w' h)

  timer-kept : (fuel : ℕ) (w w' : World) → client_on_timer e fuel w ≡ ok w' → R w w'
  unfolding client_on_timer
  timer-kept fuel w w' h =
      returns_void-Keeps R w w'
        (do call_void (timer_with_kcp e); ret ← call (client_poll e fuel); pure tt)
        (search
          (keeps_rules, kept.order, Keeps-call, Keeps-call_void, poll-kept, timer_with_kcp-kept)
          depth 12)
        h

  beat-kept : (w w' : World) → on_client_heartbeat_timer e w ≡ ok w' → R w w'
  unfolding on_client_heartbeat_timer
  beat-kept w w' h = elim (Bool-cases (is_kcp_valid w.me)) [
    | inr unready ↦ subst (R w) (ground (arith, unready)) (kept.order.same w)
    | inl ready ↦ elim (Bool-cases (e.overdue (e.now w.calls) w.me.udp.heart)) [
      | inl late ↦ subst (R w) (ground (arith, ready, late)) (kept.invalid w)
      | inr early ↦
          returns_void-Keeps R w w'
            (do
              ret ← call (kcp_send_command e command_heartbeat1 w.me.key)
              check (int_eq ret (pos 0)))
            (search (keeps_rules, kept.order, Keeps-call, kept.kcp_send) depth 12)
            (ground (arith, ready, early))
    ]
  ]

  udp-kept :
      (fuel : ℕ) (bytes : List ℕ) (w w' : World) → client_udp_recv e fuel bytes w ≡ ok w' → R w w'
  unfolding client_udp_recv
  udp-kept fuel [] w w' h = subst (R w) (ground arith) (kept.order.same w)
  udp-kept fuel (x ∷ xs) w w' h = elim (Bool-cases (is_kcp_valid w.me)) [
    | inl ready ↦ kept.order.trans w fed w' (kept.note (kcp_inputs w.me.self (x ∷ xs)) w refl) (
        returns_void-Keeps R fed w' (do ret ← call (client_poll e fuel); pure tt)
          (search (keeps_rules, kept.order, Keeps-call, poll-kept) depth 12)
          (ground (arith, ready)))
    | inr unready ↦
        returns_void-Keeps R w w'
          (do ret ← call (λ w1. on_client_recv e w1 (x ∷ xs)); check (int_eq ret (pos 0)))
          (search (keeps_rules, kept.order, Keeps-call, kept.packet) depth 12) (rw unready at h)
  ]
    where
      fed : World
      fed = noted (kcp_inputs w.me.self (x ∷ xs)) w

  send-kept : (msg : List ℕ) (w w' : World) (ret : ℤ) → kcpev_send e msg w ≡ ok (ret, w') → R w w'
  unfolding kcpev_send
  send-kept msg w w' ret h = kept.send command_data msg w w' ret h

  step-kept : (w w' : World) → ClientStep e w w' → R w w'
  step-kept w w' (gets_tcp bytes h) = tcp-kept bytes w w' h
  step-kept w w' (gets_udp fuel bytes h) = udp-kept fuel bytes w w' h
  step-kept w w' (ticks fuel h) = timer-kept fuel w w' h
  step-kept w w' (beats h) = beat-kept w w' h
  step-kept w w' (sends_message msg ret h) = send-kept msg w w' ret h

  -- What every part keeps, every run keeps.
  pub Reaches-kept : (w w' : World) → Reaches e w w' → R w w'
  Reaches-kept w _ start = kept.order.same w
  Reaches-kept w w2 (goes_on {w1 = w1} r step) =
      kept.order.trans w w1 w2 (Reaches-kept w w1 r) (step-kept w1 w2 step)
