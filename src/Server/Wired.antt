-- ===== src/Server/Wired.antt =====
-- The kcp objects of the server's clients: a client with a UDP socket has one with the number of its
-- own key.
pub mod Packets
pub mod Accepts
pub mod Runs
use kcpev.Base.{
  ℕ, ◌≡◌, refl, sym, subst, inl, inr, Bool-cases, Option-cases, true, false, some, List, [], ◌∷◌,
  ◌==◌, Run, ok, fault, arith,
}
use kcpev.Conn.{conv_of, Kcpev, World}
use kcpev.Server.State.{Heap, Server, load, store, free, with_client}
use kcpev.Server.Status.{PeerStep, stays, shakes, loses, gets_ready}

pub record IsWired (c : Kcpev) : Type 0 where
  pub kcp :
      (c.udp.sock == 0) ≡ false → c.udp.kcp ≡ some (record { conv = conv_of c.key; output = true })

abbrev pub AllWired : Heap → Type 0
AllWired [] = Unit {0}
AllWired ((p, c) ∷ h) = IsWired c × AllWired h

pub IsWired-same :
    {c d : Kcpev}
    → d.key ≡ c.key
    → d.udp.sock ≡ c.udp.sock
    → d.udp.kcp ≡ c.udp.kcp
    → IsWired c
    → IsWired d
IsWired-same key sock kcp v = record { kcp = λ has. ground (arith, v, key, sock, kcp, has) }

pub PeerStep-IsWired : {msg : List ℕ} {c d : Kcpev} → PeerStep msg c d → IsWired c → IsWired d
PeerStep-IsWired (stays k) v = IsWired-same k.key k.sock k.kcp v
PeerStep-IsWired (shakes is k) v = record { kcp = λ has. ground (arith, k) }
PeerStep-IsWired (loses is cut) v = record { kcp = λ has. absurd (ground (arith, cut, has)) }
PeerStep-IsWired (gets_ready is k) v = IsWired-same k.key k.sock k.kcp v

pub load-IsWired : (a : ℕ) (c : Kcpev) (h : Heap) → AllWired h → load a h ≡ some c → IsWired c
unfolding load
load-IsWired a c [] v there = absurd (ground (arith, there))
load-IsWired a c ((p, d) ∷ h) v there = elim (Bool-cases (p == a)) [
  | inl eq ↦ let same : d ≡ c = ground (arith, eq, there) in subst IsWired same v.0
  | inr n ↦ load-IsWired a c h v.1 (ground (arith, n, there))
]

pub store-AllWired :
    (a : ℕ) (d : Kcpev) (h : Heap) → AllWired h → IsWired d → AllWired (store a d h)
unfolding store
store-AllWired a d [] v i = tt
store-AllWired a d ((p, c) ∷ h) v i = elim (Bool-cases (p == a)) [
  | inl eq ↦
      let e : store a d ((p, c) ∷ h) ≡ (p, d) ∷ h = ground (arith, eq) in
      subst AllWired (sym e) (i, v.1)
  | inr n ↦
      let e : store a d ((p, c) ∷ h) ≡ (p, c) ∷ store a d h = ground (arith, n) in
      subst AllWired (sym e) (v.0, store-AllWired a d h v.1 i)
]

pub free-AllWired : (a : ℕ) (h : Heap) → AllWired h → AllWired (free a h)
unfolding free
free-AllWired a [] v = tt
free-AllWired a ((p, c) ∷ h) v = elim (Bool-cases (p == a)) [
  | inl eq ↦ let e : free a ((p, c) ∷ h) ≡ h = ground (arith, eq) in subst AllWired (sym e) v.1
  | inr n ↦
      let e : free a ((p, c) ∷ h) ≡ (p, c) ∷ free a h = ground (arith, n) in
      subst AllWired (sym e) (v.0, free-AllWired a h v.1)
]

module _ {A : Type 0} where
  pub with_client-AllWired :
      (a : ℕ) (f : World → Run (A × World)) (s s' : Server) (x : A)
      → ((w w' : World) (y : A) → IsWired w.me → f w ≡ ok (y, w') → IsWired w'.me)
      → AllWired s.heap
      → with_client a f s ≡ ok (x, s')
      → AllWired s'.heap
  unfolding with_client
  with_client-AllWired a f s s' x keeps v h = elim (Option-cases (load a s.heap)) [
    | inl gone ↦ absurd (ground (arith, gone, h))
    | inr (c, there) ↦ go c there (f (record { me = c; calls = s.calls })) refl
  ]
    where
      go :
          (c : Kcpev)
          → load a s.heap ≡ some c
          → (m : Run (A × World)) → f (record { me = c; calls = s.calls }) ≡ m
          → AllWired s'.heap
      go c there fault g = absurd (ground (arith, there, g))
      go c there (ok (y, w)) g =
          let e : store a w.me s.heap ≡ s'.heap = ground (arith, there, g) in
          subst AllWired e (
            store-AllWired a w.me s.heap v
              (keeps (record { me = c; calls = s.calls }) w y (load-IsWired a c s.heap v there) g))
