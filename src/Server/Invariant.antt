-- ===== src/Server/Invariant.antt =====
-- The server's parts and its table.
use kcpev.Base.{ℕ, ◌≡◌, refl, ap, subst, ◌∙◌, inl, inr, Option-cases, true, Option, ok, arith}
use kcpev.Ringbuf.{Ringbuf}
use kcpev.Conn.{Kcpev}
use kcpev.Server.State.{Server, load, store, close_client}
use kcpev.Server.Callbacks.{store_rb}
use kcpev.Server.Table.{is_table, is_table-store, load-store, free-store, close_client-is_table}
use kcpev.Server.Packets.{Keeps}

unfoldable pub IsTabled : Server → Type 0
IsTabled s = is_table s.hash s.heap ≡ true

pub Keeps-IsTabled : {s s' : Server} → Keeps s s' → IsTabled s → IsTabled s'
unfolding IsTabled
Keeps-IsTabled {s} {s'} k t = ap (λ hash. is_table hash s'.heap) k.hash ∙ k.table s.hash ∙ t

pub close_client-IsTabled :
    (a : ℕ) (s s' : Server) → IsTabled s → close_client a s ≡ ok s' → IsTabled s'
unfolding IsTabled close_client
close_client-IsTabled a s s' t h = elim (Option-cases (load a s.heap)) [
  | inl gone ↦ absurd (ground (arith, gone))
  | inr (c, there) ↦
      let (s1, f, out, t1, less, others, gives) = close_client-is_table a c s there t in
      let same : s1 ≡ s' = ground (arith, f, h) in subst IsTabled same t1
]

pub store_rb-Keeps :
    (a : ℕ) (rb : Option Ringbuf) (s s' : Server) → store_rb a rb s ≡ ok s' → Keeps s s'
unfolding store_rb
store_rb-Keeps a rb s s' h = elim (Option-cases (load a s.heap)) [
  | inl gone ↦ absurd (ground (arith, gone))
  | inr (c, there) ↦
      let c' : Kcpev = record c { tcp = record (c.tcp) { rb = rb } } in
      let same : record s { heap = store a c' s.heap } ≡ s' = ground (arith, there) in
      subst (λ (r : Server). Keeps s r) same
        (record {
          hash = refl;
          live = λ b. load-store a b c' s.heap;
          table = λ bs. is_table-store a c' bs s.heap;
          freed = λ p b. free-store p b a c' s.heap;
        })
]
