-- ===== src/Server/Wired/Accepts.antt =====
-- The kcp objects of the server's clients under `tcp_accept`.
use kcpev.Base.{
  ℕ, ◌≡◌, sym, subst, inl, inr, ◌∙◌, Bool, Bool-cases, Option-cases, true, false, none, some, List,
  ◌∷◌, ℤ, is_positive, to_nat, ok, arith,
}
use kcpev.Conn.{
  command_shake_hand1, server_tcp, Kcpev, accepts, Exit, next, error, crash, Env, World,
}
use kcpev.Conn.Keeps.{IsPreorder, Keeps, Ends, Keeps-call, keeps_rules}
use kcpev.Send.{sock_send_command}
use kcpev.Send.Frame.{me-sock_send_command}
use kcpev.Life.{kcpev_create, kcpev_set_ev, kcpev_set_tcp_ev, kcpev_init_ev}
use kcpev.Server.State.{Server, load, with_client}
use kcpev.Server.Callbacks.{tcp_accept, welcome, enter, drop_client, accept_ends}
use kcpev.Server.Accept.Entered.{accepted, client_of, entered, welcomed, accepts_client}
use kcpev.Server.Wired.{IsWired, AllWired, IsWired-same, free-AllWired, with_client-AllWired}

init_ev-IsWired :
    (e : Env) (w w' : World) (r : ℤ)
    → IsWired w.me
    → kcpev_init_ev e (some server_tcp) none w ≡ ok (r, w')
    → IsWired w'.me
unfolding kcpev_init_ev kcpev_set_tcp_ev kcpev_set_ev
init_ev-IsWired e w w' r v h =
    IsWired-same (ground (arith, h)) (ground (arith, h)) (ground (arith, h)) v

send-IsWired :
    (e : Env) (sock : ℕ) (key : List ℕ) (w w' : World) (r : ℤ)
    → IsWired w.me
    → sock_send_command e sock command_shake_hand1 key w ≡ ok (r, w')
    → IsWired w'.me
send-IsWired e sock key w w' r v h =
    subst IsWired (sym (me-sock_send_command e command_shake_hand1 key w sock h)) v

abbrev StaysWired : Server → Server → Type 0
StaysWired s s' = AllWired s.heap → AllWired s'.heap

StaysWired-order : IsPreorder StaysWired
StaysWired-order = record { same = λ s v. v; trans = λ s t u f g v. g (f v) }

module _ (e : Env) (a : ℕ) (s s' : Server) (r : ℤ) where
  init-StaysWired :
      with_client a (kcpev_init_ev e (some server_tcp) none) s ≡ ok (r, s') → StaysWired s s'
  init-StaysWired h v =
      with_client-AllWired a (kcpev_init_ev e (some server_tcp) none) s s' r
        (λ w w' y i k. init_ev-IsWired e w w' y i k) v h

  send-StaysWired :
      (sock : ℕ) (key : List ℕ)
      → with_client a (sock_send_command e sock command_shake_hand1 key) s ≡ ok (r, s')
      → StaysWired s s'
  send-StaysWired sock key h v =
      with_client-AllWired a (sock_send_command e sock command_shake_hand1 key) s s' r
        (λ w w' y i k. send-IsWired e sock key w w' y i k) v h

welcome-StaysWired : (e : Env) (sock a : ℕ) (key : List ℕ) → Keeps StaysWired (welcome e sock a key)
unfolding welcome
welcome-StaysWired e sock a key =
    search (keeps_rules, StaysWired-order, Keeps-call, init-StaysWired, send-StaysWired) depth 14

accept_ends-AllWired :
    (a : ℕ) (x : Exit Server (Unit {0})) (s s' : Server)
    → Ends (StaysWired s) x
    → accept_ends a x ≡ ok s'
    → StaysWired s s'
unfolding accept_ends drop_client
accept_ends-AllWired a (next _ s1) s s' k h v = subst AllWired (ground (arith, h)) (k v)
accept_ends-AllWired a (error s1) s s' k h v = elim (Option-cases (load a s1.heap)) [
  | inl gone ↦ absurd (ground (arith, gone, h))
  | inr (c, there) ↦ subst AllWired (ground (arith, there, h)) (free-AllWired a s1.heap (k v))
]
accept_ends-AllWired a crash s s' k h v = absurd (ground (arith, h))

created-IsWired :
    (e : Env) (s : Server) (made : Bool) (self : ℕ) (c : Kcpev)
    → kcpev_create made self ≡ some c
    → IsWired (client_of e s c)
unfolding kcpev_create
created-IsWired e s false self c h = absurd (ground (arith, h))
created-IsWired e s true self c h = record { kcp = λ has. absurd (ground (arith, h, has)) }

pub accept-AllWired :
    (e : Env) (s s' : Server) → AllWired s.heap → tcp_accept e s ≡ ok s' → AllWired s'.heap
unfolding tcp_accept enter
accept-AllWired e s s' v h = elim (Bool-cases (is_positive (e.accept s.calls))) [
  | inr none_came ↦ subst AllWired (ground (arith, none_came, h)) v
  | inl came ↦ elim (Bool-cases (e.getnameinfo (accepts ∷ s.calls))) [
    | inr unnamed ↦ subst AllWired (ground (arith, came, unnamed, h)) v
    | inl named ↦ elim (Option-cases (kcpev_create (e.calloc (accepts ∷ s.calls)) (accepted e s))) [
      | inl full ↦ subst AllWired (ground (arith, came, named, full, h)) v
      | inr (c, made) ↦
          accept_ends-AllWired (accepted e s) (welcomed e s c) (entered e s c) s'
            ((welcome-StaysWired e (to_nat (e.accept s.calls)) (accepted e s)
                (e.uuid (accepts ∷ s.calls))).at
              (entered e s c))
            (sym (accepts_client e s c came named made) ∙ h)
            (created-IsWired e s (e.calloc (accepts ∷ s.calls)) (accepted e s) c made, v)
    ]
  ]
]
