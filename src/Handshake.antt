-- ===== src/Handshake.antt =====
-- A whole handshake of a client and a server over UDP.
pub mod Datagrams
pub mod Complete
mod Tests
use kcpev.Base.{ℕ, ◌≡◌, Option, some, none, List, ◌∷◌, ◌++◌, true, pos, ok}
use kcpev.Header.Packing.{packet}
use kcpev.Conn.{command_shake_hand1, command_shake_hand2, sends, Kcp, Kcpev, Trace, Env, World}
use kcpev.Send.{is_kcp_valid}
use kcpev.Client.{on_client_recv, client_udp_recv}
use kcpev.Server.State.{Server, load}
use kcpev.Server.Callbacks.{server_udp_recv, server_udp_recv_all}

-- The client gets the key and sends it to the server's port; the server's client object at address `a`
-- connects and answers; the client is ready and confirms; the server's client is ready. Each datagram
-- that one side gets is the one that the other has sent.
pub record Completes (ec es : Env) (fuel : ℕ) (key pad : List ℕ) (a : ℕ) (w : World) (s : Server)
    : Type 0 where
  pub begun : World
  pub to_port : List ℕ
  pub begins : on_client_recv ec w (packet command_shake_hand1 pad key) ≡ ok (pos 0, begun)
  pub sent_first : (t : Trace) × (begun.calls ≡ sends w.me.udp.sock to_port ∷ t)
  pub answered : Server
  pub answer : List ℕ
  pub answers : server_udp_recv_all es to_port s ≡ ok answered
  pub sent_answer :
      (c : Kcpev) × (t : Trace) × (load a answered.heap ≡ some c)
      × (answered.calls ≡ sends c.udp.sock answer ∷ t)
  pub ready : World
  pub confirmation : List ℕ
  pub gets_ready : client_udp_recv ec fuel answer begun ≡ ok ready
  pub sent_confirmation :
      (later : Trace) × (ready.calls ≡ later ++ (sends w.me.udp.sock confirmation ∷ begun.calls))
  pub accepted : Server
  pub accepts : server_udp_recv es fuel a confirmation answered ≡ ok accepted
  pub client_valid : is_kcp_valid ready.me ≡ true
  pub server_valid :
      (c : Kcpev) × (k k' : Kcp) × (load a accepted.heap ≡ some c)
      × (is_kcp_valid c ≡ true)
      × (ready.me.udp.kcp ≡ some k)
      × (c.udp.kcp ≡ some k')
      × (k.conv ≡ k'.conv)
