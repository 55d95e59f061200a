-- ===== src/Server/Steps.antt =====
-- The server's callbacks as the steps of one program, and a rule for what every run of them keeps.
use kcpev.Base.{
  ℕ, ◌≡◌, refl, subst, inl, inr, Bool-cases, Option-cases, false, Option, none, some, List, [], ◌∷◌,
  if◌then◌else◌, ℤ, pos, minus_one, int_eq, Run, ok, fault, arith,
}
use kcpev.Ringbuf.{Ringbuf}
use kcpev.Stream.{tcp_recv}
use kcpev.Stream.Preserve.{tcp_recv-keeps}
use kcpev.Conn.{
  Call, receives, kcp_inputs, kcp_receives, Kcpev, Env, World, ◌>>=◌, ◌>>◌, check, call, modify,
  pure,
}
use kcpev.Conn.Keeps.{IsPreorder, Keeps-call, Keeps-modify, keeps_rules, returns_void-Keeps}
use kcpev.Send.{is_kcp_valid}
use kcpev.Poll.{timer_with_kcp}
use kcpev.Poll.Preserve.{try_kcp_recv-keeps}
use kcpev.Server.State.{Server, load, logs_to, with_client, close_client}
use kcpev.Server.Recv.{on_server_recv}
use kcpev.Server.Callbacks.{
  store_rb, server_tcp_recv, from_peer, server_poll, server_udp_recv, server_udp_recv_all,
  server_on_timer, on_server_heartbeat_timer, tcp_accept,
}
use kcpev.Server.Table.{is_live, is_in}
use kcpev.Server.Accept.Entered.{accepted}

-- A function without a result, as `with_client` takes it.
abbrev pub with_unit : (World → Run World) → World → Run (Unit {0} × World)
with_unit f w = elim (f w) [ ok w' ↦ ok (tt, w') | fault ↦ fault ]

pub with_unit-returns :
    (f : World → Run World) (w w' : World) (y : Unit {0}) → with_unit f w ≡ ok (y, w') → f w ≡ ok w'
with_unit-returns f w w' y h = returned (f w) h
  where
    returned :
        (m : Run World)
        → ◌≡◌ {A = Run (Unit {0} × World)}
            (elim m as (λ _. Run (Unit {0} × World)) [ ok w ↦ ok (tt, w) | fault ↦ fault ])
            (ok (y, w'))
        → m ≡ ok w'
    returned fault g = absurd (ground (arith, g))
    returned (ok w1) g = ground (arith, g)

abbrev pub repeats_client : Env → ℕ → Server → Run (Unit {0} × Server)
repeats_client e a s = with_client {A = Unit {0}} a (with_unit (timer_with_kcp e)) s

-- The heartbeat timer of one client.
abbrev pub beats_client : Env → ℕ → Server → Run (Unit {0} × Server)
beats_client e a s = with_client {A = Unit {0}} a (with_unit (on_server_heartbeat_timer e)) s

-- One callback of the server that returned. A connection is accepted at a fresh address, and either
-- its client is made and entered, or neither.
pub data ServerStep (e : Env) (s s' : Server) : Type 0 where
  accepts_one :
      is_live s.heap (accepted e s) ≡ false
      → tcp_accept e s ≡ ok s'
      → is_in (accepted e s) s'.hash ≡ is_live s'.heap (accepted e s)
      → ServerStep e s s'
  gets_tcp : (a : ℕ) (bytes : List ℕ) → server_tcp_recv e a bytes s ≡ ok s' → ServerStep e s s'
  gets_udp :
      (fuel a : ℕ) (bytes : List ℕ) → server_udp_recv e fuel a bytes s ≡ ok s' → ServerStep e s s'
  gets_udp_all : (bytes : List ℕ) → server_udp_recv_all e bytes s ≡ ok s' → ServerStep e s s'
  ticks : (fuel a : ℕ) → server_on_timer e fuel a s ≡ ok s' → ServerStep e s s'
  beats : (a : ℕ) → beats_client e a s ≡ ok (tt, s') → ServerStep e s s'

pub data ServerReaches (e : Env) (s : Server) : Server → Type 0 where
  start : ServerReaches e s s
  goes_on : {s1 s2 : Server} → ServerReaches e s s1 → ServerStep e s1 s2 → ServerReaches e s s2

-- What the parts of the callbacks keep.
pub record IsKept (e : Env) (P : Server → Type 0) : Type 0 where
  pub packet :
      (client : Option ℕ) (s s' : Server) (packet : List ℕ) (ret : ℤ)
      → on_server_recv e client s packet ≡ ok (ret, s')
      → P s
      → P s'
  pub log : (c : Call) (s : Server) → P s → P (logs_to c s)
  pub ring : (a : ℕ) (rb : Option Ringbuf) (s s' : Server) → store_rb a rb s ≡ ok s' → P s → P s'
  pub close : (a : ℕ) (s s' : Server) → close_client a s ≡ ok s' → P s → P s'
  pub repeat : (a : ℕ) (s s' : Server) → repeats_client e a s ≡ ok (tt, s') → P s → P s'
  pub beat : (a : ℕ) (s s' : Server) → beats_client e a s ≡ ok (tt, s') → P s → P s'
  pub accept :
      (s s' : Server)
      → is_live s.heap (accepted e s) ≡ false
      → tcp_accept e s ≡ ok s'
      → is_in (accepted e s) s'.hash ≡ is_live s'.heap (accepted e s)
      → P s
      → P s'

module _ (e : Env) (P : Server → Type 0) (kept : IsKept e P) where
  abbrev Then : Server → Server → Type 0
  Then s s' = P s → P s'

  order : IsPreorder Then
  order = record { same = λ s p. p; trans = λ s t u f g p. g (f p) }

  peer-kept :
      (a : ℕ) (packet : List ℕ) (s s' : Server) (ret : ℤ)
      → from_peer e a s packet ≡ ok (ret, s')
      → Then s s'
  unfolding from_peer
  peer-kept a packet s s' ret h p = elim (Bool-cases (e.getpeername s.calls)) [
    | inl named ↦ kept.packet (some a) s s' packet ret (ground (arith, named)) p
    | inr unnamed ↦ subst P {y = s'} (ground (arith, unnamed)) p
  ]

  poll-kept :
      (fuel a : ℕ) (s s' : Server) (ret : ℤ) → server_poll e fuel a s ≡ ok (ret, s') → Then s s'
  unfolding from_peer
  poll-kept fuel a s s' ret h p =
      try_kcp_recv-keeps (λ r. r.calls) logs_to a (from_peer e a) P (kept.log (kcp_receives a))
        (λ r r' q ret p' g. peer-kept a q r r' ret g p') e fuel minus_one ret s s' p h

  -- The part of `server_tcp_recv` behind the handler.
  received-kept :
      (a : ℕ) (ret : ℤ) (rb : Option Ringbuf) (s s' : Server) (m : Run Server)
      → store_rb a rb s ≡ m
      → elim m as (λ _. Run Server) [
        | fault ↦ fault
        | ok s2 ↦ if int_eq ret (pos 0) then ok s2 else close_client a s2
      ]
        ≡ ok s'
      → Then s s'
  received-kept a ret rb s s' fault f h p = absurd (ground (arith, h))
  received-kept a ret rb s s' (ok s2) f h p = elim (Bool-cases (int_eq ret (pos 0))) [
    | inl fine ↦ subst P {x = s2} (ground (arith, fine)) (kept.ring a rb s s2 f p)
    | inr bad ↦ kept.close a s2 s' (ground (arith, bad)) (kept.ring a rb s s2 f p)
  ]

  tcp-kept :
      (a : ℕ) (bytes : List ℕ) (s s' : Server) → server_tcp_recv e a bytes s ≡ ok s' → Then s s'
  unfolding server_tcp_recv
  tcp-kept a [] s s' h p = kept.close a s s' (ground (arith, h)) p
  tcp-kept a (x ∷ xs) s s' h p = elim (Option-cases (load a s.heap)) [
    | inl gone ↦ absurd (ground (arith, gone, h))
    | inr (c, there) ↦
        read c there
          (tcp_recv (on_server_recv e (some a)) (e.malloc got.calls) c.tcp.rb got (x ∷ xs)) refl
  ]
    where
      got : Server
      got = logs_to (receives a (x ∷ xs)) s

      read :
          (c : Kcpev)
          → load a s.heap ≡ some c
          → (m : Run (ℤ × Option Ringbuf × Server))
          → tcp_recv (on_server_recv e (some a)) (e.malloc got.calls) c.tcp.rb got (x ∷ xs) ≡ m
          → P s'
      read c there fault f = absurd (ground (arith, there, f))
      read c there (ok (ret, rb, s1)) f =
          let p1 =
            tcp_recv-keeps (on_server_recv e (some a)) P
              (λ r r' q ret p' g. kept.packet (some a) r r' q ret g p') (e.malloc got.calls)
              c.tcp.rb rb got s1 (x ∷ xs) ret (kept.log (receives a (x ∷ xs)) s p) f in
          received-kept a ret rb s1 s' (store_rb a rb s1) refl (ground (arith, there, f)) p1

  udp-kept :
      (fuel a : ℕ) (bytes : List ℕ) (s s' : Server)
      → server_udp_recv e fuel a bytes s ≡ ok s'
      → Then s s'
  unfolding server_udp_recv
  udp-kept fuel a [] s s' h = subst P (ground (arith, h))
  udp-kept fuel a (x ∷ xs) s s' h = elim (Option-cases (load a s.heap)) [
    | inl gone ↦ absurd (ground (arith, gone, h))
    | inr (c, there) ↦
        returns_void-Keeps Then s s'
          (if is_kcp_valid c
            then (do
              modify (logs_to (kcp_inputs a (x ∷ xs)))
              ret ← call (server_poll e fuel a)
              pure tt)
            else (do
              modify (logs_to (receives a (x ∷ xs)))
              ret ← call (λ r. from_peer e a r (x ∷ xs))
              check (int_eq ret (pos 0))))
          (search (keeps_rules, order, Keeps-call, Keeps-modify, kept.log, poll-kept, peer-kept)
            depth 14)
          (ground (arith, there, h))
  ]

  udp_all-kept :
      (bytes : List ℕ) (s s' : Server) → server_udp_recv_all e bytes s ≡ ok s' → Then s s'
  unfolding server_udp_recv_all
  udp_all-kept [] s s' h = subst P (ground (arith, h))
  udp_all-kept (x ∷ xs) s s' h =
      returns_void-Keeps Then s s'
        (do
          modify (λ r. logs_to (receives r.base.self (x ∷ xs)) r)
          ret ← call (λ r. on_server_recv e none r (x ∷ xs))
          check (int_eq ret (pos 0)))
        (search (keeps_rules, order, Keeps-call, Keeps-modify, kept.log, kept.packet) depth 14) h

  timer-kept : (fuel a : ℕ) (s s' : Server) → server_on_timer e fuel a s ≡ ok s' → Then s s'
  unfolding server_on_timer
  timer-kept fuel a s s' h =
      returns_void-Keeps Then s s'
        (do unit ← call (repeats_client e a); ret ← call (server_poll e fuel a); pure tt)
        (search (keeps_rules, order, Keeps-call, kept.repeat, poll-kept) depth 14) h

  step-kept : (s s' : Server) → ServerStep e s s' → Then s s'
  step-kept s s' (accepts_one new h whole) = kept.accept s s' new h whole
  step-kept s s' (gets_tcp a bytes h) = tcp-kept a bytes s s' h
  step-kept s s' (gets_udp fuel a bytes h) = udp-kept fuel a bytes s s' h
  step-kept s s' (gets_udp_all bytes h) = udp_all-kept bytes s s' h
  step-kept s s' (ticks fuel a h) = timer-kept fuel a s s' h
  step-kept s s' (beats a h) = kept.beat a s s' h

  -- What every part keeps, every run keeps.
  pub ServerReaches-kept : (s s' : Server) → ServerReaches e s s' → P s → P s'
  ServerReaches-kept s _ start p = p
  ServerReaches-kept s s' (goes_on {s1 = s1} r step) p =
      step-kept s1 s' step (ServerReaches-kept s s1 r p)
