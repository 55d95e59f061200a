-- ===== src/Server/Wired/Packets.antt =====
-- The kcp objects of the server's clients under packets and timers.
use kcpev.Base.{
  ℕ, ◌≡◌, refl, sym, subst, inl, inr, Option-cases, Option, List, ℤ, Run, ok, fault, drop, arith,
}
use kcpev.Ringbuf.{Ringbuf}
use kcpev.Header.{header_size}
use kcpev.Conn.{Kcpev, Env, World, command_udp_invalid}
use kcpev.Send.{set_kcp_invalid, sock_send_command}
use kcpev.Send.Frame.{me-sock_send_command}
use kcpev.Poll.{kcpev_timer_repeat}
use kcpev.Server.State.{Server, load, store, close_client}
use kcpev.Server.Recv.{on_server_recv}
use kcpev.Server.Callbacks.{store_rb, on_server_heartbeat_timer}
use kcpev.Server.Machine.{Update, leaves, steps, on_server_recv-Update}
use kcpev.Server.Wired.{
  IsWired, AllWired, IsWired-same, PeerStep-IsWired, load-IsWired, store-AllWired, free-AllWired,
}

pub packet-AllWired :
    (e : Env) (client : Option ℕ) (s s' : Server) (packet : List ℕ) (ret : ℤ)
    → AllWired s.heap
    → on_server_recv e client s packet ≡ ok (ret, s')
    → AllWired s'.heap
packet-AllWired e client s s' packet ret v h = go (on_server_recv-Update e client s s' packet ret h)
  where
    go : Update (drop header_size packet) s s' → AllWired s'.heap
    go (leaves same) = subst AllWired (sym same) v
    go (steps a c d here heap step) =
        subst AllWired (sym heap)
          (store-AllWired a d s.heap v (PeerStep-IsWired step (load-IsWired a c s.heap v here)))

pub close-AllWired :
    (a : ℕ) (s s' : Server) → AllWired s.heap → close_client a s ≡ ok s' → AllWired s'.heap
unfolding close_client
close-AllWired a s s' v h = elim (Option-cases (load a s.heap)) [
  | inl gone ↦ absurd (ground (arith, gone, h))
  | inr (c, there) ↦ subst AllWired (ground (arith, there, h)) (free-AllWired a s.heap v)
]

pub store_rb-AllWired :
    (a : ℕ) (rb : Option Ringbuf) (s s' : Server)
    → AllWired s.heap
    → store_rb a rb s ≡ ok s'
    → AllWired s'.heap
unfolding store_rb
store_rb-AllWired a rb s s' v h = elim (Option-cases (load a s.heap)) [
  | inl gone ↦ absurd (ground (arith, gone, h))
  | inr (c, there) ↦
      let d : Kcpev = record c { tcp = record (c.tcp) { rb = rb } } in
      let e : store a d s.heap ≡ s'.heap = ground (arith, there, h) in
      subst AllWired e (
        store-AllWired a d s.heap v (IsWired-same refl refl refl (load-IsWired a c s.heap v there)))
]

pub repeats-IsWired :
    (e : Env) (w w' : World) → IsWired w.me → kcpev_timer_repeat e w ≡ ok w' → IsWired w'.me
unfolding kcpev_timer_repeat
repeats-IsWired e w w' v h =
    IsWired-same (ground (arith, h)) (ground (arith, h)) (ground (arith, h)) v

pub beats-IsWired :
    (e : Env) (w w' : World) → IsWired w.me → on_server_heartbeat_timer e w ≡ ok w' → IsWired w'.me
unfolding on_server_heartbeat_timer set_kcp_invalid
beats-IsWired e w w' v h =
    go (sock_send_command e w.me.tcp.sock command_udp_invalid w.me.key cut) refl
  where
    cut : World
    cut = record w { me = set_kcp_invalid w.me }

    go :
        (m : Run (ℤ × World))
        → sock_send_command e w.me.tcp.sock command_udp_invalid w.me.key cut ≡ m
        → IsWired w'.me
    go fault g = IsWired-same (ground (arith, g)) (ground (arith, g)) (ground (arith, g)) v
    go (ok (r, w1)) g =
        let same = me-sock_send_command e command_udp_invalid w.me.key cut w.me.tcp.sock g in
        IsWired-same (ground (arith, g, same)) (ground (arith, g, same)) (ground (arith, g, same)) v
