-- ===== src/Server/Accept/Fails.antt =====
-- The first packet to a new client that cannot be sent.
use kcpev.Base.{
  ℕ, ◌≡◌, refl, ◌∙◌, inl, inr, Bool-cases, none, some, List, ◌∷◌, ◌==◌, length, ℤ, pos, minus_one,
  is_nonneg, to_nat, Run, ok, arith,
}
use kcpev.Conn.{
  command_shake_hand1, server_tcp, Kcpev, accepts, allocates, Trace, Env, HasStack, key_size, World,
  sends, EvIo, io_starts, error,
}
use kcpev.Send.{sock_send_command}
use kcpev.Send.Choice.{sock_send_command_lem}
use kcpev.Header.Packing.{packet}
use kcpev.Life.{set_tcp, kcpev_set_ev, kcpev_set_tcp_ev, kcpev_init_ev}
use kcpev.Server.State.{Server, load, store, with_client}
use kcpev.Server.Callbacks.{welcome, enter}
use kcpev.Server.Accept.Entered.{accepted, client_of, entered, welcomed}

-- The watcher of a new client: with memory or without, the call returns.
init_returns :
    (e : Env) (w : World)
    → (r : ℤ) × (w' : World) × (kcpev_init_ev e (some server_tcp) none w ≡ ok (r, w'))
unfolding kcpev_init_ev kcpev_set_tcp_ev kcpev_set_ev
init_returns e w = elim (Bool-cases (w.me.tcp.sock == 0)) [
  | inl no_sock ↦ (pos 0, w, ground (arith, no_sock))
  | inr has ↦ elim (Bool-cases (e.calloc w.calls)) [
    | inl memory ↦
        let io : EvIo = record { cb = server_tcp; fd = w.me.tcp.sock } in
        (
          pos 0,
          record (set_tcp w (record (w.me.tcp) { evio = some io })) {
            calls = io_starts w.me.self io ∷ allocates w.me.self ∷ w.calls;
          },
          ground (arith, has, memory),
        )
    | inr full ↦
        (minus_one, record w { calls = allocates w.me.self ∷ w.calls }, ground (arith, has, full))
  ]
]

with_client-returns :
    {A : Type 0} (a : ℕ) (f : World → Run (A × World)) (s : Server) (c : Kcpev) (x : A) (w : World)
    → load a s.heap ≡ some c
    → f (record { me = c; calls = s.calls }) ≡ ok (x, w)
    → with_client a f s ≡ ok (x, record s { heap = store a w.me s.heap; calls = w.calls })
unfolding with_client
with_client-returns a f s c x w l g = ground (arith, l, g)

pub welcomed_fails :
    (e : Env) (s : Server) (c : Kcpev)
    → HasStack e
    → length (e.uuid (accepts ∷ s.calls)) ≡ key_size
    → ((t : Trace) (sock : ℕ) (bytes : List ℕ) → e.send t sock bytes ≡ minus_one)
    → (s1 : Server) × (welcomed e s c ≡ error s1)
unfolding welcome load store enter
welcomed_fails e s c stack sized refused =
    let a = accepted e s in
    let key = e.uuid (accepts ∷ s.calls) in
    let sock = to_nat (e.accept s.calls) in
    let (r, w1, f) =
      init_returns e (record { me = client_of e s c; calls = (entered e s c).calls }) in
    let s1 : Server = record (entered e s c) {
      heap = store a w1.me (entered e s c).heap;
      calls = w1.calls;
    } in
    let first =
      with_client-returns a (kcpev_init_ev e (some server_tcp) none) (entered e s c)
        (client_of e s c) r w1 (ground arith) f in
    let (pad, three, g) =
      sock_send_command_lem e stack (record { me = w1.me; calls = w1.calls }) command_shake_hand1
        key (omega (arith, sized)) sock in
    let w2 : World = record {
      me = w1.me;
      calls = sends sock (packet command_shake_hand1 pad key) ∷ w1.calls;
    } in
    let sent : sock_send_command e sock command_shake_hand1 key
          (record { me = w1.me; calls = w1.calls })
        ≡ ok (minus_one, w2) =
      g ∙ rw (refused w1.calls sock (packet command_shake_hand1 pad key)) refl in
    let second =
      with_client-returns a (sock_send_command e sock command_shake_hand1 key) s1 w1.me minus_one w2
        (ground arith) sent in
    elim (Bool-cases (is_nonneg r)) [
      | inr bad ↦ (s1, ground (arith, first))
      | inl good ↦ (
        record s1 { heap = store a w2.me s1.heap; calls = w2.calls },
        ground (arith, first, second),
      )
    ]
