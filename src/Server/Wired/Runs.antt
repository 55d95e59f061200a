-- ===== src/Server/Wired/Runs.antt =====
-- Runs of the server's callbacks and the kcp objects of its clients.
use kcpev.Base.{ℕ, ◌≡◌, true, some, arith}
use kcpev.Conn.{conv_of, Kcpev, Env}
use kcpev.Poll.{timer_with_kcp, timer_with_kcp-returns}
use kcpev.Send.{is_kcp_valid}
use kcpev.Server.State.{Server, load}
use kcpev.Server.Callbacks.{on_server_heartbeat_timer}
use kcpev.Server.Steps.{with_unit, with_unit-returns, IsKept, ServerReaches, ServerReaches-kept}
use kcpev.Server.Wired.{IsWired, AllWired, load-IsWired, with_client-AllWired}
use kcpev.Server.Wired.Packets.{
  packet-AllWired, close-AllWired, store_rb-AllWired, repeats-IsWired, beats-IsWired,
}
use kcpev.Server.Wired.Accepts.{accept-AllWired}

abbrev WiredServer : Server → Type 0
WiredServer s = AllWired s.heap

WiredServer-IsKept : (e : Env) → IsKept e WiredServer
WiredServer-IsKept e = record {
  packet = λ client s s' packet ret h v. packet-AllWired e client s s' packet ret v h;
  log = λ c s v. v;
  ring = λ a rb s s' h v. store_rb-AllWired a rb s s' v h;
  close = λ a s s' h v. close-AllWired a s s' v h;
  repeat = λ a s s' h v.
      with_client-AllWired a (with_unit (timer_with_kcp e)) s s' tt
        (λ w w' y i k.
          repeats-IsWired e w w' i
            (timer_with_kcp-returns e w w' (with_unit-returns (timer_with_kcp e) w w' y k)))
        v h;
  beat = λ a s s' h v.
      with_client-AllWired a (with_unit (on_server_heartbeat_timer e)) s s' tt
        (λ w w' y i k.
          beats-IsWired e w w' i (with_unit-returns (on_server_heartbeat_timer e) w w' y k))
        v h;
  accept = λ s s' new h whole v. accept-AllWired e s s' v h;
}

-- In every run of callbacks of the server that return, in any order and with any bytes from the
-- network: every client for whom UDP can be used has a kcp object with the number of its own key, if at
-- the start every client with a UDP socket had one, new clients are at fresh addresses, and each call
-- of `tcp_accept` leaves both the client and its entry in the table, or neither.
pub ServerReaches-IsWired :
    (e : Env) (s s' : Server) (a : ℕ) (c : Kcpev)
    → AllWired s.heap
    → ServerReaches e s s'
    → load a s'.heap ≡ some c
    → is_kcp_valid c ≡ true
    → c.udp.kcp ≡ some (record { conv = conv_of c.key; output = true })
unfolding is_kcp_valid
ServerReaches-IsWired e s s' a c v run there valid =
    IsWired.kcp
      (load-IsWired a c s'.heap (ServerReaches-kept e WiredServer (WiredServer-IsKept e) s s' run v)
        there)
      (ground (arith, valid))
