-- ===== src/Handshake/Datagrams.antt =====
-- The UDP callbacks before kcp can be used: each datagram is a packet for the handler.
use kcpev.Base.{
  ℕ, ◌<◌, ◌≡◌, ap, true, false, none, some, List, [], ◌∷◌, length, ℤ, pos, int_eq, Run, ok, arith,
}
use kcpev.Conn.{receives, Kcpev, Trace, Env, World, ◌>>=◌, check, call, returns_void}
use kcpev.Send.{is_kcp_valid}
use kcpev.Client.{on_client_recv, client_udp_recv}
use kcpev.Server.State.{Server, load, logs_to}
use kcpev.Server.Recv.{on_server_recv}
use kcpev.Server.Callbacks.{from_peer, server_udp_recv, server_udp_recv_all}

pub client_udp_recv-unready :
    (e : Env) (fuel : ℕ) (bytes : List ℕ) (w w' : World)
    → 0 < length bytes
    → is_kcp_valid w.me ≡ false
    → on_client_recv e w bytes ≡ ok (pos 0, w')
    → client_udp_recv e fuel bytes w ≡ ok w'
unfolding client_udp_recv
client_udp_recv-unready e fuel [] w w' long unready h = absurd (omega (arith, long))
client_udp_recv-unready e fuel (x ∷ xs) w w' long unready h = ground (arith, unready, h)

pub server_udp_recv_all-packet :
    (e : Env) (bytes : List ℕ) (s s' : Server)
    → 0 < length bytes
    → on_server_recv e none (logs_to (receives s.base.self bytes) s) bytes ≡ ok (pos 0, s')
    → server_udp_recv_all e bytes s ≡ ok s'
unfolding server_udp_recv_all
server_udp_recv_all-packet e [] s s' long h = absurd (omega (arith, long))
server_udp_recv_all-packet e (x ∷ xs) s s' long h =
    ap
      (λ (m : Run (ℤ × Server)).
        returns_void (do ret ← call (λ _. m); check (int_eq ret (pos 0)))
          (logs_to (receives s.base.self (x ∷ xs)) s))
      h

pub server_udp_recv-unready :
    (e : Env) (fuel a : ℕ) (c : Kcpev) (bytes : List ℕ) (s s' : Server)
    → 0 < length bytes
    → ((t : Trace) → e.getpeername t ≡ true)
    → load a s.heap ≡ some c
    → is_kcp_valid c ≡ false
    → on_server_recv e (some a) (logs_to (receives a bytes) s) bytes ≡ ok (pos 0, s')
    → server_udp_recv e fuel a bytes s ≡ ok s'
unfolding server_udp_recv from_peer
server_udp_recv-unready e fuel a c [] s s' long named there unready h = absurd (omega (arith, long))
server_udp_recv-unready e fuel a c (x ∷ xs) s s' long named there unready h =
    ground (arith, there, unready, h, named (receives a (x ∷ xs) ∷ s.calls))
