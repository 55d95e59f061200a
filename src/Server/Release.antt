-- ===== src/Server/Release.antt =====
-- The end of a server: what `kcpev_server_destroy` releases.
use kcpev.Base.{
  ℕ, ◌+◌, ◌≡◌, refl, inl, inr, Option-cases, true, false, none, some, List, [], ◌∷◌, ok, arith,
}
use kcpev.Conn.{frees, Kcpev, Trace, World}
use kcpev.Life.{kcpev_tcp_destroy, kcpev_udp_destroy, kcpev_destroy}
use kcpev.Life.Destroy.{
  parts-given_back, kcpev_destroy-given_back, rings_freed, has_ring, parts-rings_freed,
  kcpev_destroy-rings_freed,
}
use kcpev.Accounts.{Kind, given_back, has}
use kcpev.Server.State.{Heap, load, free, Server, delete_hash}
use kcpev.Server.Callbacks.{kcpev_server_destroy}
use kcpev.Server.Table.{is_live, is_in, is_table, load-free, is_table-free}

-- The sum over the clients in a table.
unfoldable pub table_sum : (Kcpev → ℕ) → List ℕ → Heap → ℕ
table_sum f [] h = 0
table_sum f (a ∷ as_) h = elim (load a h) [ none ↦ 0 | some c ↦ f c ] + table_sum f as_ h

table_sum-free :
    (f : Kcpev → ℕ) (a : ℕ) (as_ : List ℕ) (h : Heap)
    → is_in a as_ ≡ false
    → table_sum f as_ (free a h) ≡ table_sum f as_ h
unfolding table_sum is_in
table_sum-free f a [] h n = refl
table_sum-free f a (b ∷ bs) h n =
    let ih = table_sum-free f a bs h in ground (arith, ih, load-free a b h)

-- A count of calls to which the release of a client adds what the client has.
record Counted (count : Trace → ℕ) (f : Kcpev → ℕ) : Type 0 where
  destroys : (w : World) → count (kcpev_destroy w) ≡ f w.me + count w.calls

delete_hash-counts :
    (count : Trace → ℕ) (f : Kcpev → ℕ) (counted : Counted count f) (hash : List ℕ) (h : Heap)
    (t t' : Trace)
    → is_table hash h ≡ true
    → delete_hash hash h t ≡ ok t'
    → count t' ≡ table_sum f hash h + count t
unfolding delete_hash is_table is_live table_sum
delete_hash-counts count f counted [] h t t' k e = ground arith
delete_hash-counts count f counted (a ∷ as_) h t t' k e = elim (Option-cases (load a h)) [
  | inl gone ↦ absurd (ground arith)
  | inr (c, there) ↦
      let w : World = record { me = c; calls = t } in
      let r =
        delete_hash-counts count f counted as_ (free a h) (kcpev_destroy w) t'
          (is_table-free a as_ h (ground arith) (ground arith)) (ground (arith, there, e)) in
      let same = table_sum-free f a as_ h (ground arith) in
      ground (arith, there, r, same, counted.destroys w)
]

delete_hash-ends :
    (hash : List ℕ) (h : Heap) (t : Trace)
    → is_table hash h ≡ true
    → (t' : Trace) × (delete_hash hash h t ≡ ok t')
unfolding delete_hash is_table is_live
delete_hash-ends [] h t k = (t, refl)
delete_hash-ends (a ∷ as_) h t k = elim (Option-cases (load a h)) [
  | inl gone ↦ absurd (ground arith)
  | inr (c, there) ↦
      let (t', e) =
        delete_hash-ends as_ (free a h) (kcpev_destroy (record { me = c; calls = t }))
          (is_table-free a as_ h (ground arith) (ground arith)) in
      (t', ground (arith, there, e))
]

-- With a sound table `kcpev_server_destroy` never looks at a freed client, and gives back what the
-- server itself and the clients in its table have, each as often as it is there and nothing else:
-- sockets by descriptor, watchers by the descriptor that they look at, timers that run, kcp objects and
-- pieces of memory by the connection that owns them, its own included; and rings by their connection.
pub kcpev_server_destroy-releases :
    (s : Server)
    → is_table s.hash s.heap ≡ true
    → (t : Trace) × (kcpev_server_destroy s ≡ ok t)
      × ((k : Kind)
          → given_back t k
            ≡ has s.base k + table_sum (λ c. has c k) s.hash s.heap + given_back s.calls k)
      × ((n : ℕ)
          → rings_freed t n
            ≡ has_ring s.base n
              + table_sum (λ c. has_ring c n) s.hash s.heap
              + rings_freed s.calls n)
unfolding kcpev_server_destroy given_back rings_freed
kcpev_server_destroy-releases s sound =
    let w : World = record { me = s.base; calls = s.calls } in
    let t0 = World.calls (kcpev_udp_destroy (kcpev_tcp_destroy w)) in
    let (t, e) = delete_hash-ends s.hash s.heap t0 sound in
    (
      frees s.base.self ∷ t,
      ground (arith, e),
      (λ k. omega (
        arith,
        delete_hash-counts (λ x. given_back x k) (λ c. has c k)
            (record { destroys = λ v. kcpev_destroy-given_back v k }) s.hash s.heap t0 t sound e,
        parts-given_back w k,
      )),
      (λ n. omega (
        arith,
        delete_hash-counts (λ x. rings_freed x n) (λ c. has_ring c n)
            (record { destroys = λ v. kcpev_destroy-rings_freed v n }) s.hash s.heap t0 t sound e,
        parts-rings_freed w n,
      )),
    )
