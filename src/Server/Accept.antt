-- ===== src/Server/Accept.antt =====
-- What `tcp_accept` leaves in the server's table.
pub mod Entered
mod Fails
use kcpev.Base.{
  ℕ, ◌≡◌, refl, sym, ap, subst, ◌∙◌, ◌⊎◌, inl, inr, Bool-cases, Option-cases, true, false, none,
  some, List, [], ◌∷◌, ◌++◌, ◌==◌, length, ℤ, pos, minus_one, is_nonneg, is_positive, to_nat, Run,
  ok, fault, arith,
}
use kcpev.Conn.{
  command_shake_hand1, server_tcp, Kcpev, accepts, allocates, Exit, Trace, Env, HasStack, key_size,
  World, sends, EvIo, io_starts, Exit, next, error, crash, returns_void,
}
use kcpev.Send.{sock_send_command}
use kcpev.Send.Choice.{sock_send_command_lem}
use kcpev.Header.Packing.{packet}
use kcpev.Life.{set_tcp, kcpev_destroy, kcpev_create, kcpev_set_ev, kcpev_set_tcp_ev, kcpev_init_ev}
use kcpev.Server.State.{Server, load, store, free, with_client}
use kcpev.Server.Callbacks.{tcp_accept, welcome, enter, drop_client, accept_ends}
use kcpev.Server.Table.{is_live, is_in, is_table, is_table-enter, is_in-entered}
use kcpev.Server.Packets.{Keeps, Keeps-trans, with_client-Keeps}
use kcpev.Server.Accept.Entered.{
  accepted, client_of, entered, welcomed, accepts_client, welcome-Keeps,
}
use kcpev.Server.Accept.Fails.{welcomed_fails}

-- The error label behind the entry: the entry is still there, the client is not.
drop_client-dangles :
    (e : Env) (s s1 : Server) (c : Kcpev)
    → is_live s.heap (accepted e s) ≡ false
    → Keeps (entered e s c) s1
    → (s' : Server) × (drop_client (accepted e s) s1 ≡ ok s')
      × (is_in (accepted e s) s'.hash ≡ true)
      × (is_live s'.heap (accepted e s) ≡ false)
unfolding drop_client enter
drop_client-dangles e s s1 c n k = elim (Option-cases (load (accepted e s) s1.heap)) [
  | inl gone ↦
      let live : is_live s1.heap (accepted e s) ≡ true =
        k.live (accepted e s) ∙ (unfold is_live load in ground arith) in
      absurd (unfold is_live in ground (arith, live, gone))
  | inr (b, there) ↦ (
    record s1 {
      heap = free (accepted e s) s1.heap;
      calls = kcpev_destroy (record { me = b; calls = s1.calls });
    },
    ground (arith, there),
    ap (is_in (accepted e s)) k.hash ∙ is_in-entered (accepted e s) s.hash,
    k.freed (accepted e s) (accepted e s) ∙ (unfold free in ground arith),
  )
]

ended-is_table :
    (e : Env) (s s' : Server) (c : Kcpev)
    → is_table s.hash s.heap ≡ true
    → is_live s.heap (accepted e s) ≡ false
    → accept_ends (accepted e s) (welcomed e s c) ≡ ok s'
    → (is_table s'.hash s'.heap ≡ true)
      ⊎ ((is_in (accepted e s) s'.hash ≡ true) × (is_live s'.heap (accepted e s) ≡ false))
unfolding accept_ends drop_client enter
ended-is_table e s s' c t n h = go (welcomed e s c) refl
  where
    go :
        (m : Exit Server (Unit {0}))
        → welcomed e s c ≡ m
        → (is_table s'.hash s'.heap ≡ true)
          ⊎ ((is_in (accepted e s) s'.hash ≡ true) × (is_live s'.heap (accepted e s) ≡ false))
    go crash g = absurd (ground (arith, g))
    go (next x s1) g =
        let k =
          welcome-Keeps e (to_nat (e.accept s.calls)) (accepted e s) (e.uuid (accepts ∷ s.calls))
            (entered e s c) s1 (ground (arith, g)) in
        let same : s1 ≡ s' = ground (arith, g) in
        inl (
          subst (λ (r : Server). is_table r.hash r.heap ≡ true) same
            (ap (λ hash. is_table hash s1.heap) k.hash
              ∙ k.table (s.hash ++ (accepted e s ∷ []))
              ∙ is_table-enter (accepted e s) (client_of e s c) s.hash s.heap n t))
    go (error s1) g =
        let k =
          welcome-Keeps e (to_nat (e.accept s.calls)) (accepted e s) (e.uuid (accepts ∷ s.calls))
            (entered e s c) s1 (ground (arith, g)) in
        let dropped : drop_client (accepted e s) s1 ≡ ok s' = ground (arith, g) in
        let (s2, d, i, f) = drop_client-dangles e s s1 c n k in
        let same : s2 ≡ s' = ground (arith, d, dropped) in
        inr (
          subst
            (λ (r : Server).
              (is_in (accepted e s) r.hash ≡ true) × (is_live r.heap (accepted e s) ≡ false))
            same (i, f))

-- A call of `tcp_accept` that returns, with a client at a fresh address, either keeps a sound table
-- sound, or leaves the entry of that client with no client there.
pub tcp_accept-is_table :
    (e : Env) (s s' : Server)
    → is_table s.hash s.heap ≡ true
    → is_live s.heap (accepted e s) ≡ false
    → tcp_accept e s ≡ ok s'
    → (is_table s'.hash s'.heap ≡ true)
      ⊎ ((is_in (accepted e s) s'.hash ≡ true) × (is_live s'.heap (accepted e s) ≡ false))
unfolding tcp_accept
tcp_accept-is_table e s s' t n h = elim (Bool-cases (is_positive (e.accept s.calls))) [
  | inr no_sock ↦ inl (ground (arith, no_sock))
  | inl got ↦ elim (Bool-cases (e.getnameinfo (accepts ∷ s.calls))) [
    | inr unnamed ↦ inl (ground (arith, got, unnamed))
    | inl named ↦ elim (Option-cases (kcpev_create (e.calloc (accepts ∷ s.calls)) (accepted e s))) [
      | inl full ↦ inl (ground (arith, got, named, full))
      | inr (c, made) ↦ ended-is_table e s s' c t n (sym (accepts_client e s c got named made) ∙ h)
    ]
  ]
]

-- When no `send` succeeds, as to a peer that is gone, `tcp_accept` of a connection whose name and
-- memory it gets, with a key of sixteen bytes and a client at a fresh address, returns with the
-- client's entry in the table and the client freed.
pub tcp_accept-dangles :
    (e : Env) (s : Server)
    → HasStack e
    → is_positive (e.accept s.calls) ≡ true
    → e.getnameinfo (accepts ∷ s.calls) ≡ true
    → e.calloc (accepts ∷ s.calls) ≡ true
    → length (e.uuid (accepts ∷ s.calls)) ≡ key_size
    → ((t : Trace) (sock : ℕ) (bytes : List ℕ) → e.send t sock bytes ≡ minus_one)
    → is_live s.heap (accepted e s) ≡ false
    → (s' : Server) × (tcp_accept e s ≡ ok s')
      × (is_in (accepted e s) s'.hash ≡ true)
      × (is_live s'.heap (accepted e s) ≡ false)
tcp_accept-dangles e s stack got named made sized refused n =
    elim (Option-cases (kcpev_create (e.calloc (accepts ∷ s.calls)) (accepted e s))) [
      | inl full ↦ absurd (unfold kcpev_create in ground (arith, made, full))
      | inr (c, is) ↦
          let (s1, fails) = welcomed_fails e s c stack sized refused in
          let k =
            welcome-Keeps e (to_nat (e.accept s.calls)) (accepted e s) (e.uuid (accepts ∷ s.calls))
              (entered e s c) s1 (ground (arith, fails)) in
          let (s', d, i, f) = drop_client-dangles e s s1 c n k in
          (
            s',
            accepts_client e s c got named is
                ∙ ap (accept_ends (accepted e s)) fails
                ∙ (unfold accept_ends in d),
            i,
            f,
          )
    ]
