-- ===== src/Server/Accept/Entered.antt =====
-- The client that `tcp_accept` makes, and what is done with it once it is in the table.
use kcpev.Base.{
  ℕ, ◌≡◌, refl, subst, inl, inr, Bool-cases, true, none, some, List, ◌∷◌, ℤ, is_nonneg, is_positive,
  to_nat, Run, ok, fault, arith,
}
use kcpev.Conn.{
  command_shake_hand1, server_tcp, Kcpev, accepts, allocates, Exit, Env, World, Exit, returns_void,
}
use kcpev.Send.{sock_send_command}
use kcpev.Life.{kcpev_create, kcpev_init_ev}
use kcpev.Server.State.{Server, with_client}
use kcpev.Server.Callbacks.{tcp_accept, welcome, enter, accept_ends}
use kcpev.Server.Packets.{Keeps, Keeps-trans, with_client-Keeps}

pub welcome-Keeps :
    (e : Env) (sock a : ℕ) (key : List ℕ) (s s' : Server)
    → returns_void (welcome e sock a key) s ≡ ok s'
    → Keeps s s'
unfolding welcome
welcome-Keeps e sock a key s s' h =
    go (with_client a (kcpev_init_ev e (some server_tcp) none) s) refl
  where
    sends_to_client : World → Run (ℤ × World)
    sends_to_client = sock_send_command e sock command_shake_hand1 key

    sent :
        (r : ℤ) (s1 : Server)
        → with_client a (kcpev_init_ev e (some server_tcp) none) s ≡ ok (r, s1)
        → Keeps s s1
        → (m : Run (ℤ × Server)) → with_client a sends_to_client s1 ≡ m
        → Keeps s s'
    sent r s1 f k m g = elim (Bool-cases (is_nonneg r)) [
      | inr bad ↦ subst (Keeps s) (ground (arith, f)) k
      | inl good ↦
          elim m as (λ m. with_client a sends_to_client s1 ≡ m → Keeps s s') [
            | fault ↦ λ g'. absurd (ground (arith, f, g'))
            | ok (r', s2) ↦ λ g'.
                let k' = with_client-Keeps a sends_to_client s1 s2 r' g' in
                subst (Keeps s) (ground (arith, f, g')) (Keeps-trans k k')
          ]
            g
    ]

    go :
        (m : Run (ℤ × Server))
        → with_client a (kcpev_init_ev e (some server_tcp) none) s ≡ m
        → Keeps s s'
    go fault g = absurd (ground (arith, g))
    go (ok (r, s1)) g =
        sent r s1 g (with_client-Keeps a (kcpev_init_ev e (some server_tcp) none) s s1 r g)
          (with_client a sends_to_client s1) refl

-- The address of the client that `tcp_accept` makes.
abbrev pub accepted : Env → Server → ℕ
accepted e s = e.fresh (accepts ∷ s.calls)

-- The client as `tcp_accept` enters it, and the server that then has it.
abbrev pub client_of : Env → Server → Kcpev → Kcpev
client_of e s c = record c {
  has_server = true;
  tcp = record (c.tcp) { sock = to_nat (e.accept s.calls) };
  key = e.uuid (accepts ∷ s.calls);
}

abbrev pub entered : Env → Server → Kcpev → Server
entered e s c =
    enter (accepted e s) (client_of e s c)
      (record s { calls = allocates (accepted e s) ∷ accepts ∷ s.calls })

abbrev pub welcomed : Env → Server → Kcpev → Exit Server (Unit {0})
welcomed e s c =
    welcome e (to_nat (e.accept s.calls)) (accepted e s) (e.uuid (accepts ∷ s.calls))
      (entered e s c)

pub accepts_client :
    (e : Env) (s : Server) (c : Kcpev)
    → is_positive (e.accept s.calls) ≡ true
    → e.getnameinfo (accepts ∷ s.calls) ≡ true
    → kcpev_create (e.calloc (accepts ∷ s.calls)) (accepted e s) ≡ some c
    → tcp_accept e s ≡ accept_ends (accepted e s) (welcomed e s c)
unfolding tcp_accept
accepts_client e s c p n k = ground (arith, p, n, k)
