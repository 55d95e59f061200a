-- ===== src/Server/Heap.antt =====
-- Look-ups in the server's heap and table around a store.
use kcpev.Base.{
  ℕ, ◌≡◌, refl, sym, subst, inl, inr, Bool-cases, Option-cases, true, false, some, List, [], ◌∷◌,
  ◌==◌, bytes_eq, ok, arith,
}
use kcpev.Conn.{Kcpev}
use kcpev.Server.State.{Heap, load, store, hash_find}

pub load_at-store :
    (a : ℕ) (c d : Kcpev) (h : Heap) → load a h ≡ some c → load a (store a d h) ≡ some d
unfolding load store
load_at-store a c d [] there = absurd (ground (arith, there))
load_at-store a c d ((p, x) ∷ h) there = let ih = load_at-store a c d h in ground (arith, ih)

pub load_off-store :
    (a b : ℕ) (d : Kcpev) (h : Heap) → (a == b) ≡ false → load b (store a d h) ≡ load b h
unfolding load store
load_off-store a b d [] n = refl
load_off-store a b d ((p, x) ∷ h) n = let ih = load_off-store a b d h in ground (arith, ih)

-- What a look-up finds has the key.
pub hash_find-key :
    (h : Heap) (hash key : List ℕ) (a : ℕ)
    → hash_find h hash key ≡ ok (some a)
    → (c : Kcpev) × (load a h ≡ some c) × (bytes_eq c.key key ≡ true)
unfolding hash_find
hash_find-key h [] key a f = absurd (ground (arith, f))
hash_find-key h (b ∷ bs) key a f = elim (Option-cases (load b h)) [
  | inl gone ↦ absurd (ground (arith, gone, f))
  | inr (c, there) ↦ elim (Bool-cases (bytes_eq c.key key)) [
    | inl same ↦
        let is : a ≡ b = ground (arith, there, same, f) in
        (c, subst (λ x. load x h ≡ some c) (sym is) there, same)
    | inr other ↦ hash_find-key h bs key a (ground (arith, there, other, f))
  ]
]

-- Storing a client with the key that it had leaves what every look-up finds.
pub hash_find-store :
    (a : ℕ) (c d : Kcpev) (h : Heap) (hash key : List ℕ)
    → load a h ≡ some c
    → d.key ≡ c.key
    → hash_find (store a d h) hash key ≡ hash_find h hash key
unfolding hash_find
hash_find-store a c d h [] key there same = refl
hash_find-store a c d h (b ∷ bs) key there same =
    let ih = hash_find-store a c d h bs key there same in
    elim (Bool-cases (a == b)) [
      | inr other ↦ ground (arith, ih, load_off-store a b d h other)
      | inl eq ↦
          let one : a ≡ b = ground (arith, eq) in
          let now : load b (store a d h) ≡ some d =
            subst (λ x. load x (store a d h) ≡ some d) one (load_at-store a c d h there) in
          let before : load b h ≡ some c = subst (λ x. load x h ≡ some c) one there in
          ground (arith, ih, now, before, same)
    ]
