-- ===== src/Server/Packets.antt =====
-- What a packet does to the server's table and clients.
use kcpev.Base.{
  ℕ, ◌≡◌, refl, ap, subst, ◌∙◌, inl, inr, Bool-cases, Option-cases, true, Option, none, some, List,
  ◌==◌, leb, length, drop, ℤ, Run, ok, fault, arith,
}
use kcpev.Header.{header_size, header_from_net}
use kcpev.Conn.{
  command_shake_hand1, command_shake_hand2, command_heartbeat1, command_heartbeat2, key_size, Kcpev,
  Env, World, ◌>>=◌, returns_code,
}
use kcpev.Server.State.{Server, load, free, hash_find, with_client}
use kcpev.Server.Recv.{
  server_data, find_client, shake_hand1_client, shake_hand2_client, heartbeat1_client,
  heartbeat2_client, on_client, on_given_client, server_command, on_server_recv,
}
use kcpev.Server.Table.{is_live, is_table, is_table-store, load-store, free-store}

-- The table, and which addresses are those of clients, are the same.
pub record Keeps (s s' : Server) : Type 0 where
  pub hash : s'.hash ≡ s.hash
  pub live : (a : ℕ) → is_live s'.heap a ≡ is_live s.heap a
  pub table : (as_ : List ℕ) → is_table as_ s'.heap ≡ is_table as_ s.heap
  pub freed : (a b : ℕ) → is_live (free a s'.heap) b ≡ is_live (free a s.heap) b

pub Keeps-refl : (s : Server) → Keeps s s
Keeps-refl s = record { hash = refl; live = λ a. refl; table = λ as_. refl; freed = λ a b. refl }

pub Keeps-calls : (s s' : Server) → s'.hash ≡ s.hash → s'.heap ≡ s.heap → Keeps s s'
Keeps-calls s s' p q = record {
  hash = p;
  live = λ a. ap (λ h. is_live h a) q;
  table = λ as_. ap (is_table as_) q;
  freed = λ a b. ap (λ h. is_live (free a h) b) q;
}

pub Keeps-trans : {s s1 s2 : Server} → Keeps s s1 → Keeps s1 s2 → Keeps s s2
Keeps-trans k k' = record {
  hash = k'.hash ∙ k.hash;
  live = λ b. k'.live b ∙ k.live b;
  table = λ bs. k'.table bs ∙ k.table bs;
  freed = λ a b. k'.freed a b ∙ k.freed a b;
}

module _ {A : Type 0} where
  pub with_client-Keeps :
      (a : ℕ) (f : World → Run (A × World)) (s s' : Server) (x : A)
      → with_client a f s ≡ ok (x, s')
      → Keeps s s'
  unfolding with_client
  with_client-Keeps a f s s' x h = elim (Option-cases (load a s.heap)) [
    | inl gone ↦ absurd (ground arith)
    | inr (c, there) ↦ go c there (f (record { me = c; calls = s.calls })) refl
  ]
    where
      go :
          (c : Kcpev)
          → load a s.heap ≡ some c
          → (m : Run (A × World)) → f (record { me = c; calls = s.calls }) ≡ m
          → Keeps s s'
      go c there fault g = absurd (ground arith)
      go c there (ok (y, w)) g = record {
        hash = ground (arith);
        live = λ b. ap (λ h'. is_live h' b) (ground arith) ∙ load-store a b w.me s.heap;
        table = λ as_. ap (is_table as_) (ground arith) ∙ is_table-store a w.me as_ s.heap;
        freed =
            λ p b. ap (λ h'. is_live (free p h') b) (ground arith) ∙ free-store p b a w.me s.heap;
      }

module _ (e : Env) (s s' : Server) (ret : ℤ) where
  on_client-Keeps :
      (a : ℕ) (f : World → Run (ℤ × World))
      → returns_code (on_client a f) s ≡ ok (ret, s')
      → Keeps s s'
  unfolding on_client
  on_client-Keeps a f h = go (with_client a f s) refl
    where
      go : (m : Run (ℤ × Server)) → with_client a f s ≡ m → Keeps s s'
      go fault g = absurd (ground (arith, g))
      go (ok (r, s1)) g =
          let same = with_client-Keeps a f s s1 r g in subst (Keeps s) (ground (arith, g)) same

  found-Keeps :
      (msg : List ℕ) (f : World → Run (ℤ × World))
      → returns_code (do a ← find_client msg; on_client a f) s ≡ ok (ret, s')
      → Keeps s s'
  unfolding find_client
  found-Keeps msg f h = elim (Bool-cases (length msg == key_size)) [
    | inr bad ↦ subst (Keeps s) (ground (arith, bad)) (Keeps-refl s)
    | inl sized ↦ go sized (hash_find s.heap s.hash msg) refl
  ]
    where
      go :
          (length msg == key_size) ≡ true
          → (m : Run (Option ℕ)) → hash_find s.heap s.hash msg ≡ m
          → Keeps s s'
      go sized fault g = absurd (ground (arith, g))
      go sized (ok none) g = subst (Keeps s) (ground (arith, g)) (Keeps-refl s)
      go sized (ok (some a)) g = on_client-Keeps a f (ground (arith, g))

  given-Keeps :
      (client : Option ℕ) (f : World → Run (ℤ × World))
      → returns_code (on_given_client client f) s ≡ ok (ret, s')
      → Keeps s s'
  unfolding on_given_client
  given-Keeps none f h = subst (Keeps s) (ground arith) (Keeps-refl s)
  given-Keeps (some a) f h = on_client-Keeps a f h

  command-Keeps :
      (client : Option ℕ) (command : ℕ) (msg : List ℕ)
      → returns_code (server_command e client command msg) s ≡ ok (ret, s')
      → Keeps s s'
  unfolding server_command server_data
  command-Keeps client command msg h = elim (Bool-cases (command == command_shake_hand1)) [
    | inl is1 ↦ found-Keeps msg (shake_hand1_client e) (ground (arith, is1))
    | inr not1 ↦ elim (Bool-cases (command == command_shake_hand2)) [
      | inl is2 ↦ found-Keeps msg (shake_hand2_client e) (ground (arith, is2))
      | inr not2 ↦ elim (Bool-cases (command == command_heartbeat1)) [
        | inl is3 ↦ given-Keeps client (heartbeat1_client e msg) (ground (arith, is3))
        | inr not3 ↦ elim (Bool-cases (command == command_heartbeat2)) [
          | inl is4 ↦ given-Keeps client (heartbeat2_client e msg) (ground (arith, is4))
          | inr not4 ↦
              Keeps-calls s s' (ground (arith, not1, not2, not3, not4))
                (ground (arith, not1, not2, not3, not4))
        ]
      ]
    ]
  ]

-- A call of `on_server_recv` that returns leaves the table the same list, and the same addresses are
-- those of clients, also once any one of them is freed; so a sound table stays sound.
pub on_server_recv-Keeps :
    (e : Env) (client : Option ℕ) (s s' : Server) (packet : List ℕ) (ret : ℤ)
    → on_server_recv e client s packet ≡ ok (ret, s')
    → Keeps s s'
unfolding on_server_recv
on_server_recv-Keeps e client s s' packet ret h = elim (Option-cases (header_from_net packet)) [
  | inl no_header ↦ subst (Keeps s) (ground arith) (Keeps-refl s)
  | inr (hd, is) ↦ elim (Bool-cases (leb header_size (length packet))) [
    | inr short ↦ subst (Keeps s) (ground (arith, short)) (Keeps-refl s)
    | inl long ↦ elim (Bool-cases (hd.size == length packet)) [
      | inr wrong ↦ subst (Keeps s) (ground (arith, is, wrong)) (Keeps-refl s)
      | inl right ↦ elim (Bool-cases (e.getnameinfo s.calls)) [
        | inr unnamed ↦ subst (Keeps s) (ground (arith, is, unnamed)) (Keeps-refl s)
        | inl named ↦
            command-Keeps e s s' ret client hd.command (drop header_size packet)
              (ground (arith, is, right, named))
      ]
    ]
  ]
]
