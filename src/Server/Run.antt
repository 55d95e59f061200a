-- ===== src/Server/Run.antt =====
-- Runs of the server's callbacks and its table.
use kcpev.Base.{◌≡◌, refl, inl, inr, true, false, ok, arith}
use kcpev.Conn.{Env}
use kcpev.Server.State.{Server, logs_to}
use kcpev.Server.Callbacks.{on_server_heartbeat_timer, tcp_accept}
use kcpev.Poll.{timer_with_kcp}
use kcpev.Server.Table.{is_live, is_in, is_table}
use kcpev.Server.Packets.{Keeps-calls, on_server_recv-Keeps, with_client-Keeps}
use kcpev.Server.Accept.{tcp_accept-is_table}
use kcpev.Server.Accept.Entered.{accepted}
use kcpev.Server.Invariant.{IsTabled, Keeps-IsTabled, close_client-IsTabled, store_rb-Keeps}
use kcpev.Server.Steps.{with_unit, IsKept, ServerReaches, ServerReaches-kept}

accept-IsTabled :
    (e : Env) (s s' : Server)
    → is_live s.heap (accepted e s) ≡ false
    → tcp_accept e s ≡ ok s'
    → is_in (accepted e s) s'.hash ≡ is_live s'.heap (accepted e s)
    → IsTabled s
    → IsTabled s'
unfolding IsTabled
accept-IsTabled e s s' new h whole t = elim (tcp_accept-is_table e s s' t new h) [
  | inl sound ↦ sound
  | inr (entry, gone) ↦ absurd (ground (arith, entry, gone, whole))
]

IsTabled-IsKept : (e : Env) → IsKept e IsTabled
IsTabled-IsKept e = record {
  packet =
      λ client s s' packet ret h. Keeps-IsTabled (on_server_recv-Keeps e client s s' packet ret h);
  log = λ c s. Keeps-IsTabled (Keeps-calls s (logs_to c s) refl refl);
  ring = λ a rb s s' h. Keeps-IsTabled (store_rb-Keeps a rb s s' h);
  close = λ a s s' h t. close_client-IsTabled a s s' t h;
  repeat =
      λ a s s' h. Keeps-IsTabled (with_client-Keeps a (with_unit (timer_with_kcp e)) s s' tt h);
  beat = λ a s s' h.
      Keeps-IsTabled (with_client-Keeps a (with_unit (on_server_heartbeat_timer e)) s s' tt h);
  accept = accept-IsTabled e;
}

-- In every run of callbacks of the server that return, in any order and with any bytes from the
-- network: every entry of the table points to a client that is there, and no client has two entries,
-- if that held at the start, new clients are at fresh addresses, and each call of `tcp_accept` leaves
-- both the client and its entry or neither.
pub ServerReaches-is_table :
    (e : Env) (s s' : Server)
    → is_table s.hash s.heap ≡ true
    → ServerReaches e s s'
    → is_table s'.hash s'.heap ≡ true
unfolding IsTabled
ServerReaches-is_table e s s' t run = ServerReaches-kept e IsTabled (IsTabled-IsKept e) s s' run t
