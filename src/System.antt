-- ===== src/System.antt =====
-- A client and a server in one system, over a network that may deliver anything.
mod Tests
use kcpev.Base.{ℕ, ◌≡◌, refl, sym, ap, subst, ◌∙◌, true, some, List, length, pos, arith}
use kcpev.Conn.{Kcp, Kcpev, Trace, Env, HasStack, World, conv_of}
use kcpev.Send.{is_usable, is_kcp_valid}
use kcpev.Client.Steps.{ClientStep, Reaches, start, goes_on}
use kcpev.Client.Agreed.{IsAgreed}
use kcpev.Client.Agreed.Runs.{Reaches-IsAgreed}
use kcpev.Server.State.{Server, load}
use kcpev.Server.Steps.{ServerStep, ServerReaches}
use kcpev.Server.Steps
use kcpev.Server.Wired.{AllWired}
use kcpev.Server.Wired.Runs.{ServerReaches-IsWired}

pub record System : Type 0 where
  pub client : World
  pub server : Server

-- One callback of either side; what it reads need not have been sent.
pub data SystemStep (ec es : Env) (s s' : System) : Type 0 where
  client_moves : ClientStep ec s.client s'.client → s'.server ≡ s.server → SystemStep ec es s s'
  server_moves : ServerStep es s.server s'.server → s'.client ≡ s.client → SystemStep ec es s s'

pub data SystemReaches (ec es : Env) (s : System) : System → Type 0 where
  at_start : SystemReaches ec es s s
  moves_on :
      {s1 s2 : System}
      → SystemReaches ec es s s1
      → SystemStep ec es s1 s2
      → SystemReaches ec es s s2

module _ (ec es : Env) where
  client_run : (s s' : System) → SystemReaches ec es s s' → Reaches ec s.client s'.client
  client_run s _ at_start = start
  client_run s s2 (moves_on {s1 = s1} r (client_moves step same)) = goes_on (client_run s s1 r) step
  client_run s s2 (moves_on {s1 = s1} r (server_moves step same)) =
      subst (Reaches ec s.client) (sym same) (client_run s s1 r)

  server_run : (s s' : System) → SystemReaches ec es s s' → ServerReaches es s.server s'.server
  server_run s _ at_start = Steps.start
  server_run s s2 (moves_on {s1 = s1} r (client_moves step same)) =
      subst (ServerReaches es s.server) (sym same) (server_run s s1 r)
  server_run s s2 (moves_on {s1 = s1} r (server_moves step same)) =
      Steps.goes_on (server_run s s1 r) step

-- In every run of a client and a server that return, their callbacks in any order and with any bytes
-- from the network: where the client's UDP can be used, and that of a client of the server with the
-- same key, the kcp objects of both sides have the same number. Every `send` of the client sends all
-- its bytes; new clients of the server are at fresh addresses, and each call of `tcp_accept` leaves
-- both the client and its entry in the table, or neither. At the start the client's kcp object has
-- the number of its key if the client counts as usable, and on the server the one of every client
-- with a UDP socket has.
pub SystemReaches-agree :
    (ec es : Env) (s s' : System) (a : ℕ) (c : Kcpev)
    → HasStack ec
    → ((t : Trace) (sock : ℕ) (bytes : List ℕ) → ec.send t sock bytes ≡ pos (length bytes))
    → IsAgreed s.client.me
    → AllWired s.server.heap
    → SystemReaches ec es s s'
    → load a s'.server.heap ≡ some c
    → c.key ≡ s'.client.me.key
    → is_kcp_valid c ≡ true
    → is_kcp_valid s'.client.me ≡ true
    → (k l : Kcp) × (s'.client.me.udp.kcp ≡ some k) × (c.udp.kcp ≡ some l) × (k.conv ≡ l.conv)
unfolding is_kcp_valid
SystemReaches-agree ec es s s' a c stack sends_all agreed wired run there same valid ready =
    let v =
      Reaches-IsAgreed ec stack sends_all s.client s'.client agreed (client_run ec es s s' run) in
    let (k, has, conv) = v.agreed (ground (arith, ready)) in
    (
      k,
      record { conv = conv_of c.key; output = true },
      has,
      ServerReaches-IsWired es s.server s'.server a c wired (server_run ec es s s' run) there valid,
      conv ∙ ap conv_of (sym same),
    )
