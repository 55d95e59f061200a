-- ===== src/Client/Agreed/Runs.antt =====
-- The number of the kcp object over a client's runs.
use kcpev.Base.{ℕ, ◌≡◌, refl, List, length, pos, ok, arith}
use kcpev.Conn.{Trace, Env, HasStack, World}
use kcpev.Poll.{kcpev_timer_repeat}
use kcpev.Client.Steps.{IsKept, Reaches, Reaches-kept}
use kcpev.Client.Packets.{on_client_recv-kept}
use kcpev.Client.Agreed.Handshake.{command-Keeps}
use kcpev.Client.Agreed.{
  IsAgreed, StaysAgreed, StaysAgreed-IsPreorder, StaysAgreed-of, StaysAgreed-of_me, kcp_send-Stays,
  kcpev_send-Stays, invalid-Stays,
}

repeat-Stays : (e : Env) (w w' : World) → kcpev_timer_repeat e w ≡ ok w' → StaysAgreed w w'
unfolding kcpev_timer_repeat
repeat-Stays e w w' h = StaysAgreed-of w w' (ground arith) (ground arith) (ground arith)

module _ (e : Env) (stack : HasStack e)
    (sends_all : (t : Trace) (sock : ℕ) (bytes : List ℕ)
      → e.send t sock bytes ≡ pos (length bytes)) where
  StaysAgreed-IsKept : IsKept e StaysAgreed
  StaysAgreed-IsKept = record {
    order = StaysAgreed-IsPreorder;
    packet =
        on_client_recv-kept e StaysAgreed StaysAgreed-IsPreorder
          (λ command msg. command-Keeps e stack sends_all msg command);
    note = λ c w n. StaysAgreed-of_me w _ refl;
    ring = λ rb w. StaysAgreed-of w _ refl refl refl;
    repeat = repeat-Stays e;
    invalid = invalid-Stays;
    kcp_send = kcp_send-Stays e;
    send = kcpev_send-Stays e;
  }

  -- In every run of callbacks that return, in any order and with any bytes from the network, and of
  -- messages that the application sends, where every `send` sends all its bytes: a client whose status
  -- counts as usable has a kcp object with the number of its key, if that held at the start.
  pub Reaches-IsAgreed : (w w' : World) → IsAgreed w.me → Reaches e w w' → IsAgreed w'.me
  Reaches-IsAgreed w w' v r = (Reaches-kept e StaysAgreed StaysAgreed-IsKept w w' r).agreed v
