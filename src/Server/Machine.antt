-- ===== src/Server/Machine.antt =====
-- What a packet does to the UDP side of each of the server's clients.
use kcpev.Base.{
  ℕ, ◌≡◌, refl, sym, ap, subst, ◌∙◌, inl, inr, Bool-cases, Option-cases, true, Option, none, some,
  List, ◌==◌, leb, length, drop, bytes_eq_iff, ℤ, Run, ok, fault, arith,
}
use kcpev.Header.{header_size, header_from_net}
use kcpev.Conn.{
  command_shake_hand1, command_shake_hand2, command_heartbeat1, command_heartbeat2, key_size, Kcpev,
  Env, World, ◌>>=◌, returns_code,
}
use kcpev.Server.State.{Server, load, store, hash_find, with_client}
use kcpev.Server.Recv.{
  server_data, find_client, shake_hand1_client, shake_hand2_client, heartbeat1_client,
  heartbeat2_client, on_client, on_given_client, server_command, on_server_recv,
}
use kcpev.Server.Heap.{load_at-store, load_off-store, hash_find-key}
use kcpev.Server.Status.{
  PeerStep, PeerStep-same, shake_hand1-PeerStep, shake_hand2-PeerStep, heartbeat1-PeerStep,
  heartbeat2-PeerStep,
}

-- One client, of those that look-ups find, takes a step of its state machine, or none does.
pub data Update (msg : List ℕ) (s s' : Server) : Type 0 where
  leaves : s'.heap ≡ s.heap → Update msg s s'
  steps :
      (a : ℕ) (c d : Kcpev)
      → load a s.heap ≡ some c
      → s'.heap ≡ store a d s.heap
      → PeerStep msg c d
      → Update msg s s'

module _ (msg : List ℕ) where
  with_client-Update :
      (a : ℕ) (f : World → Run (ℤ × World)) (s s' : Server) (r : ℤ)
      → ((w w' : World) → load a s.heap ≡ some w.me → f w ≡ ok (r, w') → PeerStep msg w.me w'.me)
      → with_client a f s ≡ ok (r, s')
      → Update msg s s'
  unfolding with_client
  with_client-Update a f s s' r step h = elim (Option-cases (load a s.heap)) [
    | inl gone ↦ absurd (ground (arith, gone, h))
    | inr (d, here) ↦ go d here (f (record { me = d; calls = s.calls })) refl
  ]
    where
      go :
          (d : Kcpev)
          → load a s.heap ≡ some d
          → (m : Run (ℤ × World)) → f (record { me = d; calls = s.calls }) ≡ m
          → Update msg s s'
      go d here fault g = absurd (ground (arith, here, g))
      go d here (ok (q, w)) g =
          let same_result : q ≡ r = ground (arith, here, g) in
          steps a d w.me here (ground (arith, here, g))
            (step (record { me = d; calls = s.calls }) w here (ground (arith, g, same_result)))

  -- So every client is still there, after one step or none.
  Update-moves :
      (s s' : Server)
      → Update msg s s'
      → (b : ℕ) (c : Kcpev) → load b s.heap ≡ some c
      → (c' : Kcpev) × (load b s'.heap ≡ some c') × PeerStep msg c c'
  Update-moves s s' (leaves same) b c there = (c, ap (load b) same ∙ there, PeerStep-same refl)
  Update-moves s s' (steps a d d' here heap step) b c there = elim (Bool-cases (a == b)) [
    | inr other ↦
        (c, ap (load b) heap ∙ load_off-store a b d' s.heap other ∙ there, PeerStep-same refl)
    | inl eq ↦
        let one : a ≡ b = ground (arith, eq) in
        let it : d ≡ c = ground (arith, here, there, one) in
        (
          d',
          ap (load b) heap
              ∙ subst (λ x. load x (store a d' s.heap) ≡ some d') one
                  (load_at-store a d d' s.heap here),
          subst (λ (x : Kcpev). PeerStep msg x d') it step,
        )
  ]

module _ (e : Env) (msg : List ℕ) (s s' : Server) (ret : ℤ) where
  on_client-Update :
      (a : ℕ) (f : World → Run (ℤ × World))
      → ((w w' : World) (r : ℤ)
          → load a s.heap ≡ some w.me
          → f w ≡ ok (r, w')
          → PeerStep msg w.me w'.me)
      → returns_code (on_client a f) s ≡ ok (ret, s')
      → Update msg s s'
  unfolding on_client
  on_client-Update a f step h = go (with_client a f s) refl
    where
      go : (m : Run (ℤ × Server)) → with_client a f s ≡ m → Update msg s s'
      go fault g = absurd (ground (arith, g))
      go (ok (r, s1)) g =
          subst (Update msg s) (ground (arith, g))
            (with_client-Update msg a f s s1 r (λ w w'. step w w' r) g)

  found-Update :
      (f : World → Run (ℤ × World))
      → ((w w' : World) (r : ℤ) → msg ≡ w.me.key → f w ≡ ok (r, w') → PeerStep msg w.me w'.me)
      → returns_code (do a ← find_client msg; on_client a f) s ≡ ok (ret, s')
      → Update msg s s'
  unfolding find_client
  found-Update f step h = elim (Bool-cases (length msg == key_size)) [
    | inr bad ↦ leaves (ground (arith, bad))
    | inl sized ↦ go sized (hash_find s.heap s.hash msg) refl
  ]
    where
      go :
          (length msg == key_size) ≡ true
          → (m : Run (Option ℕ)) → hash_find s.heap s.hash msg ≡ m
          → Update msg s s'
      go sized fault g = absurd (ground (arith, sized, g))
      go sized (ok none) g = leaves (ground (arith, sized, g))
      go sized (ok (some a)) g =
          let (c, here, same) = hash_find-key s.heap s.hash msg a g in
          on_client-Update a f
            (λ w w' r there k.
              step w w' r (sym ((bytes_eq_iff w.me.key msg).0 (ground (arith, there, here, same))))
                k)
            (ground (arith, sized, g))

  given-Update :
      (client : Option ℕ) (f : World → Run (ℤ × World))
      → ((w w' : World) (r : ℤ) → f w ≡ ok (r, w') → PeerStep msg w.me w'.me)
      → returns_code (on_given_client client f) s ≡ ok (ret, s')
      → Update msg s s'
  unfolding on_given_client
  given-Update none f step h = leaves (ground (arith, h))
  given-Update (some a) f step h = on_client-Update a f (λ w w' r there. step w w' r) h

  command-Update :
      (client : Option ℕ) (command : ℕ)
      → returns_code (server_command e client command msg) s ≡ ok (ret, s')
      → Update msg s s'
  unfolding server_command server_data
  command-Update client command h = elim (Bool-cases (command == command_shake_hand1)) [
    | inl is1 ↦
        found-Update (shake_hand1_client e) (λ w w' r is k. shake_hand1-PeerStep e msg w w' r is k)
          (ground (arith, is1))
    | inr not1 ↦ elim (Bool-cases (command == command_shake_hand2)) [
      | inl is2 ↦
          found-Update (shake_hand2_client e)
            (λ w w' r is k. shake_hand2-PeerStep e msg w w' r is k) (ground (arith, is2))
      | inr not2 ↦ elim (Bool-cases (command == command_heartbeat1)) [
        | inl is3 ↦
            given-Update client (heartbeat1_client e msg)
              (λ w w' r k. heartbeat1-PeerStep e msg w w' r msg k) (ground (arith, is3))
        | inr not3 ↦ elim (Bool-cases (command == command_heartbeat2)) [
          | inl is4 ↦
              given-Update client (heartbeat2_client e msg)
                (λ w w' r k. heartbeat2-PeerStep e msg w w' r msg k) (ground (arith, is4))
          | inr not4 ↦ leaves (ground (arith, not1, not2, not3, not4))
        ]
      ]
    ]
  ]

pub on_server_recv-Update :
    (e : Env) (client : Option ℕ) (s s' : Server) (packet : List ℕ) (ret : ℤ)
    → on_server_recv e client s packet ≡ ok (ret, s')
    → Update (drop header_size packet) s s'
unfolding on_server_recv
on_server_recv-Update e client s s' packet ret h =
    let msg = drop header_size packet in
    elim (Option-cases (header_from_net packet)) [
      | inl no_header ↦ leaves (ground (arith, no_header))
      | inr (hd, is) ↦ elim (Bool-cases (leb header_size (length packet))) [
        | inr short ↦ leaves (ground (arith, short))
        | inl long ↦ elim (Bool-cases (hd.size == length packet)) [
          | inr wrong ↦ leaves (ground (arith, is, wrong))
          | inl right ↦ elim (Bool-cases (e.getnameinfo s.calls)) [
            | inr unnamed ↦ leaves (ground (arith, is, unnamed))
            | inl named ↦
                command-Update e msg s s' ret client hd.command (ground (arith, is, right, named))
          ]
        ]
      ]
    ]

-- A call of `on_server_recv` that returns leaves every client there, and takes each of them through one
-- step of its state machine: the key and the TCP side, with its socket, watcher and ring, never change,
-- and only a packet that holds the client's own key changes its UDP status, socket, watcher, kcp timer
-- or kcp object. It begins a handshake, with a socket and a kcp object of the key's number, the timers
-- of before, and the watcher of before or one on the new socket; or fails to, and then of socket,
-- watcher, both timers and kcp object nothing is left; or ends one, from the shaking status and with no
-- kcp timer before, and then UDP is ready and has both timers, the rest as before. In all other cases
-- the second timer, too, is what it was, or neither is there.
pub on_server_recv-Moves :
    (e : Env) (client : Option ℕ) (s s' : Server) (packet : List ℕ) (ret : ℤ) (b : ℕ) (c : Kcpev)
    → on_server_recv e client s packet ≡ ok (ret, s')
    → load b s.heap ≡ some c
    → (c' : Kcpev) × (load b s'.heap ≡ some c') × PeerStep (drop header_size packet) c c'
on_server_recv-Moves e client s s' packet ret b c h there =
    Update-moves (drop header_size packet) s s' (on_server_recv-Update e client s s' packet ret h) b
      c there
