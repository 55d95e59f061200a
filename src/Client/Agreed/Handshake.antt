-- ===== src/Client/Agreed/Handshake.antt =====
-- Every packet keeps the number of a client's kcp object that of its key, where all sends succeed.
use kcpev.Base.{
  ℕ, ◌≡◌, ◌==◌, refl, subst, sym, inl, inr, Bool-cases, true, false, Option, none, some, List,
  length, ℤ, pos, int_eq, is_nonneg, ok, arith,
}
use kcpev.Header.Packing.{packet, length-packet}
use kcpev.Conn.{
  command_shake_hand1, command_shake_hand2, udp_ready, udp_shaking_hand, key_size, conv_of,
  client_heartbeat, Kcp, Trace, Env, HasStack, World, Body, ◌>>=◌, ◌>>◌, next, modify, check, call,
}
use kcpev.Conn.Keeps.{Keeps, Ends, keeps_rules}
use kcpev.Conn.Triples.{
  Triple, Outcome, Triple-bind, Triple-call, Triple-guard, Triple-modify, Triple-then, always,
}
use kcpev.Send.{is_usable, sock_send_command}
use kcpev.Send.Choice.{sock_send_command_lem, after_send}
use kcpev.Life.{check_create_kcp_timer}
use kcpev.Life.Timers.{check_create_kcp_timer_lem}
use kcpev.Client.{
  set_status, set_conv, client_data, client_shake_hand1, client_shake_hand2, client_heartbeat1,
  client_udp_invalid, client_command,
}
use kcpev.Client.Agreed.{
  Numbered, IsAgreed, IsAgreed-of, StaysAgreed, StaysAgreed-IsPreorder, StaysAgreed-of_me, unusable,
  sock_send-Stays, agreed_rules, Agreed, Keeps-of_Triple,
}

module _ (e : Env) (stack : HasStack e)
    (sends_all : (t : Trace) (sock : ℕ) (bytes : List ℕ) → e.send t sock bytes ≡ pos (length bytes))
    (msg : List ℕ) where
  data-Keeps : Keeps StaysAgreed (client_data msg)
  unfolding client_data
  data-Keeps = search agreed_rules depth 30

  heartbeat1-Keeps : Keeps StaysAgreed (client_heartbeat1 e msg)
  unfolding client_heartbeat1
  heartbeat1-Keeps = search agreed_rules depth 30

  invalid-Keeps : Keeps StaysAgreed (client_udp_invalid msg)
  unfolding client_udp_invalid
  invalid-Keeps = search agreed_rules depth 30

  -- The key changes only where its packet goes out, and then the client shakes hands.
  shake_hand1-Keeps : Keeps StaysAgreed (client_shake_hand1 e msg)
  unfolding client_shake_hand1 is_usable
  shake_hand1-Keeps = record {
    at = λ w. elim (Bool-cases (w.me.udp.sock == 0)) [
      | inl z ↦ rw z (StaysAgreed-of_me w w refl)
      | inr nz ↦ elim (Bool-cases (length msg == key_size)) [
        | inr bad ↦ rw (nz, bad) (StaysAgreed-of_me w w refl)
        | inl sized ↦ sent w nz sized
      ]
    ];
  }
    where
      sent :
          (w : World)
          → (w.me.udp.sock == 0) ≡ false
          → (length msg == key_size) ≡ true
          → Ends (StaysAgreed w) (client_shake_hand1 e msg w)
      sent w nz sized =
          let keyed = record w { me = record (w.me) { key = msg } } in
          let (pad, f, p) =
            sock_send_command_lem e stack keyed command_shake_hand1 msg (ground (arith, sized))
              w.me.udp.sock in
          let whole = sends_all w.calls w.me.udp.sock (packet command_shake_hand1 pad msg) in
          let n = length-packet command_shake_hand1 pad msg f in
          let w' =
            set_status udp_shaking_hand
              (after_send keyed w.me.udp.sock (packet command_shake_hand1 pad msg)) in
          let end : client_shake_hand1 e msg w ≡ next tt w' =
            ground (arith, nz, sized, p, whole, n) in
          subst (Ends (StaysAgreed w)) (sym end) (unusable w w' refl)

  -- The end of a handshake, in the order of its steps.
  timer-Agreed :
      (s t : World) (ret : ℤ)
      → IsAgreed s.me
      → check_create_kcp_timer e client_heartbeat s ≡ ok (ret, t)
      → IsAgreed t.me
  timer-Agreed s t ret v h =
      let (same, _, _) = check_create_kcp_timer_lem e client_heartbeat s t ret h in
      IsAgreed-of same.status same.kcp same.key v

  set_conv-Numbered :
      Triple (λ s. IsAgreed s.me) set_conv (λ _ s. Numbered s.me) (λ s. IsAgreed s.me)
  unfolding set_conv
  set_conv-Numbered = record { at = λ s v. numbered s s.me.udp.kcp refl }
    where
      numbered :
          (s : World) (k : Option Kcp)
          → s.me.udp.kcp ≡ k
          → Outcome (λ _ t. Numbered t.me) (λ t. IsAgreed t.me) (set_conv s)
      numbered s none is = simp is tt
      numbered s (some k) is = simp is (record k { conv = conv_of s.me.key }, refl, refl)

  abbrev finish : Body World (Unit {0})
  finish = set_conv >> modify (set_status udp_ready)

  finish-Agreed : Triple Agreed finish (λ _. Agreed) Agreed
  finish-Agreed =
      Triple-bind (λ _ s. Numbered s.me) set_conv (λ _. modify (set_status udp_ready))
        set_conv-Numbered
        (λ _. Triple-modify (set_status udp_ready) (λ s n. record { agreed = λ u. n }))

  abbrev time : Body World (Unit {0})
  time = do made ← call (check_create_kcp_timer e client_heartbeat); check (is_nonneg made); finish

  abbrev answer : ℕ → Body World (Unit {0})
  answer sock = do
    ret ← call (sock_send_command e sock command_shake_hand2 msg)
    check (int_eq ret (pos 0))
    time

  answer-Agreed : (sock : ℕ) → Triple Agreed (answer sock) (λ _. Agreed) Agreed
  answer-Agreed sock =
      Triple-bind (λ _. Agreed) (call (sock_send_command e sock command_shake_hand2 msg))
        (λ ret. check (int_eq ret (pos 0)) >> time)
        (Triple-call (sock_send_command e sock command_shake_hand2 msg)
          (λ s t ret v h. (sock_send-Stays e sock command_shake_hand2 msg s t ret h).agreed v))
        (λ ret.
          Triple-guard (int_eq ret (pos 0)) time (λ s q. q)
            (Triple-then (check_create_kcp_timer e client_heartbeat)
              (always (check_create_kcp_timer e client_heartbeat) timer-Agreed (λ s q. q)) finish
              finish-Agreed))

  answer-Keeps : (sock : ℕ) → Keeps StaysAgreed (answer sock)
  answer-Keeps sock = Keeps-of_Triple (answer sock) (answer-Agreed sock)

  shake_hand2-Keeps : Keeps StaysAgreed (client_shake_hand2 e msg)
  unfolding client_shake_hand2
  shake_hand2-Keeps = search (keeps_rules, StaysAgreed-IsPreorder, answer-Keeps) depth 30

  pub command-Keeps : (command : ℕ) → Keeps StaysAgreed (client_command e command msg)
  unfolding client_command
  command-Keeps command =
      search
        (
          keeps_rules, StaysAgreed-IsPreorder, heartbeat1-Keeps, invalid-Keeps, shake_hand1-Keeps,
          shake_hand2-Keeps, data-Keeps,
        )
        depth 30
