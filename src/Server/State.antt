-- ===== src/Server/State.antt =====
-- `KcpevServer` with the objects of its clients. Pointers to `Kcpev` are addresses on a heap, and the
-- uthash table is the list of the addresses in it, in the order of insertion.
use kcpev.Base.{
  ℕ, Bool, Option, none, some, List, [], ◌∷◌, ◌==◌, if◌then◌else◌, bytes_eq, Run, ok, fault, ◌>>=◌,
}
use kcpev.Conn.{Kcpev, Call, Trace, World}
use kcpev.Life.{kcpev_destroy}

abbrev pub Heap : Type 0
Heap = List (ℕ × Kcpev)

unfoldable pub load : ℕ → Heap → Option Kcpev
load a [] = none
load a ((p, c) ∷ h) = if p == a then some c else load a h

unfoldable pub store : ℕ → Kcpev → Heap → Heap
store a c [] = []
store a c ((p, d) ∷ h) = if p == a then (p, c) ∷ h else (p, d) ∷ store a c h

unfoldable pub free : ℕ → Heap → Heap
free a [] = []
free a ((p, d) ∷ h) = if p == a then h else (p, d) ∷ free a h

-- `base` is the KCPEV_BASE of the server, as the casts to `Kcpev` see it.
pub record Server : Type 0 where
  pub base : Kcpev
  pub recv_cb : Bool
  pub port : List ℕ
  pub hash : List ℕ
  pub heap : Heap
  pub calls : Trace

abbrev pub logs_to : Call → Server → Server
logs_to c s = record s { calls = c ∷ s.calls }

-- HASH_FIND of uthash: the first client in the table with the key. It compares the clients of one bucket
-- only; the list here has no buckets, so a freed client that stands before is a fault for every key.
unfoldable pub hash_find : Heap → List ℕ → List ℕ → Run (Option ℕ)
hash_find h [] key = ok none
hash_find h (a ∷ as_) key =
    let later = hash_find h as_ key in
    elim (load a h) [ none ↦ fault | some c ↦ if bytes_eq c.key key then ok (some a) else later ]

-- HASH_DEL: the one entry is taken out.
unfoldable pub hash_del : ℕ → List ℕ → List ℕ
hash_del a [] = []
hash_del a (b ∷ bs) = if b == a then bs else b ∷ hash_del a bs

-- A function on one client's object; a freed one is a fault.
unfoldable pub with_client {ℓ} :
    {A : Type ℓ} → ℕ → (World → Run (A × World)) → Server → Run (A × Server)
with_client a f s = elim (load a s.heap) [
  | none ↦ fault
  | some c ↦ do
    (x, w) ← f (record { me = c; calls = s.calls })
    ok (x, record s { heap = store a w.me s.heap; calls = w.calls })
]

-- `close_client`
unfoldable pub close_client : ℕ → Server → Run Server
close_client a s = elim (load a s.heap) [
  | none ↦ fault
  | some c ↦ ok (record s {
    hash = hash_del a s.hash;
    heap = free a s.heap;
    calls = kcpev_destroy (record { me = c; calls = s.calls });
  })
]

-- `delete_hash`
unfoldable pub delete_hash : List ℕ → Heap → Trace → Run Trace
delete_hash [] h t = ok t
delete_hash (a ∷ as_) h t = elim (load a h) [
  | none ↦ fault
  | some c ↦ delete_hash as_ (free a h) (kcpev_destroy (record { me = c; calls = t }))
]
