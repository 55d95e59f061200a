-- ===== src/Server/Table.antt =====
-- The server's table of clients: no entry points to a freed client.
use kcpev.Base.{
  ◌⊎◌, ◌+◌, length, ℕ, ◌≡◌, refl, inl, inr, Bool-cases, Bool, true, false, some, List, [], ◌∷◌,
  ◌++◌, ◌==◌, ◌&&◌, ◌||◌, not, ok, arith,
}
use kcpev.Life.Destroy.{kcpev_destroy-given_back}
use kcpev.Accounts.{Kind, given_back, has}
use kcpev.Conn.{World, Kcpev, is_some}
use kcpev.Life.{kcpev_destroy}
use kcpev.Server.State.{Heap, load, store, free, Server, hash_del, close_client}

-- Whether an address is that of a client, and whether it is in the table.
unfoldable pub is_live : Heap → ℕ → Bool
is_live h a = is_some (load a h)

unfoldable pub is_in : ℕ → List ℕ → Bool
is_in a [] = false
is_in a (b ∷ bs) = (b == a) || is_in a bs

-- Every entry points to a client, and no client has two entries.
unfoldable pub is_table : List ℕ → Heap → Bool
is_table [] h = true
is_table (a ∷ as_) h = is_live h a && not (is_in a as_) && is_table as_ h

pub load-free : (a b : ℕ) (h : Heap) → (b == a) ≡ false → load b (free a h) ≡ load b h
unfolding load free
load-free a b [] n = refl
load-free a b ((p, c) ∷ h) n = let ih = load-free a b h n in ground (arith, ih)

pub load-store : (a b : ℕ) (c : Kcpev) (h : Heap) → is_live (store a c h) b ≡ is_live h b
unfolding load store is_live
load-store a b c [] = refl
load-store a b c ((p, d) ∷ h) = let ih = load-store a b c h in ground (arith, ih)

pub free-store :
    (a b p : ℕ) (c : Kcpev) (h : Heap) → is_live (free a (store p c h)) b ≡ is_live (free a h) b
unfolding load store free is_live
free-store a b p c [] = refl
free-store a b p c ((q, d) ∷ h) =
    let ih = free-store a b p c h in ground (arith, ih, load-store p b c h)

pub is_table-free :
    (a : ℕ) (as_ : List ℕ) (h : Heap)
    → is_in a as_ ≡ false
    → is_table as_ h ≡ true
    → is_table as_ (free a h) ≡ true
unfolding is_table is_in is_live
is_table-free a [] h n t = refl
is_table-free a (b ∷ bs) h n t =
    let ih = is_table-free a bs h in ground (arith, ih, load-free a b h)

is_in-hash_del : (a b : ℕ) (bs : List ℕ) → is_in b bs ≡ false → is_in b (hash_del a bs) ≡ false
unfolding is_in hash_del
is_in-hash_del a b [] n = n
is_in-hash_del a b (x ∷ xs) n = let ih = is_in-hash_del a b xs in ground (arith, ih)

is_table-hash_del :
    (a : ℕ) (bs : List ℕ) (h : Heap)
    → is_table bs h ≡ true
    → (is_table (hash_del a bs) h ≡ true) × (is_in a (hash_del a bs) ≡ false)
unfolding is_table is_in hash_del
is_table-hash_del a [] h t = (refl, refl)
is_table-hash_del a (b ∷ bs) h t =
    let ih = is_table-hash_del a bs h in
    (ground (arith, ih, is_in-hash_del a b bs), ground (arith, ih))

length-free : (a : ℕ) (c : Kcpev) (h : Heap) → load a h ≡ some c → length h ≡ 1 + length (free a h)
unfolding load free
length-free a c [] there = absurd (ground (arith, there))
length-free a c ((p, d) ∷ h) there = ground (arith, there, length-free a c h)

-- `close_client` of a client that is still there succeeds, gives back every socket, watcher, timer,
-- kcp object and piece of memory that the client has, its own included and its ring not counted, and
-- takes it out of the table and off the heap, which has one client less and is otherwise the same;
-- where every entry of the table pointed to a client and no client had two, that is still so.
pub close_client-is_table :
    (a : ℕ) (c : Kcpev) (s : Server)
    → load a s.heap ≡ some c
    → is_table s.hash s.heap ≡ true
    → (s' : Server) × (close_client a s ≡ ok s')
      × (is_in a s'.hash ≡ false)
      × (is_table s'.hash s'.heap ≡ true)
      × (length s.heap ≡ 1 + length s'.heap)
      × ((b : ℕ) → (load b s'.heap ≡ load b s.heap) ⊎ (a ≡ b))
      × ((k : Kind) → given_back s'.calls k ≡ has c k + given_back s.calls k)
unfolding close_client
close_client-is_table a c s there t =
    let (still, out) = is_table-hash_del a s.hash s.heap t in
    let w : World = record { me = c; calls = s.calls } in
    (
      record s { hash = hash_del a s.hash; heap = free a s.heap; calls = kcpev_destroy w },
      rw (there, close_client) refl,
      out,
      is_table-free a (hash_del a s.hash) s.heap out still,
      length-free a c s.heap there,
      (λ b. elim (Bool-cases (b == a)) [
        | inl same ↦ inr (ground (arith, same))
        | inr other ↦ inl (load-free a b s.heap other)
      ]),
      kcpev_destroy-given_back w,
    )

pub is_table-store :
    (a : ℕ) (c : Kcpev) (hash : List ℕ) (h : Heap) → is_table hash (store a c h) ≡ is_table hash h
unfolding is_table
is_table-store a c [] h = refl
is_table-store a c (b ∷ bs) h =
    let ih = is_table-store a c bs h in ground (arith, ih, load-store a b c h)

-- A new client at the end of the table.
pub is_table-enter :
    (a : ℕ) (c : Kcpev) (hash : List ℕ) (h : Heap)
    → is_live h a ≡ false
    → is_table hash h ≡ true
    → is_table (hash ++ (a ∷ [])) ((a, c) ∷ h) ≡ true
unfolding is_table is_live load is_in
is_table-enter a c [] h n t = ground arith
is_table-enter a c (b ∷ bs) h n t =
    let ih = is_table-enter a c bs h in ground (arith, ih, is_in-append b a bs)
  where
    is_in-append : (b a : ℕ) (bs : List ℕ) → is_in b (bs ++ (a ∷ [])) ≡ (is_in b bs || (a == b))
    is_in-append b a [] = ground arith
    is_in-append b a (x ∷ xs) = let ih = is_in-append b a xs in ground (arith, ih)

pub is_in-entered : (a : ℕ) (bs : List ℕ) → is_in a (bs ++ (a ∷ [])) ≡ true
unfolding is_in
is_in-entered a [] = ground arith
is_in-entered a (x ∷ xs) = let ih = is_in-entered a xs in ground (arith, ih)
