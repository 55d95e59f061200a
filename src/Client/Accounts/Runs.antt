-- ===== src/Client/Accounts/Runs.antt =====
-- What a client takes over a whole run.
use kcpev.Base.{◌≡◌, refl, ok, arith, true}
use kcpev.Conn.{Call, receives, kcp_inputs, kcp_receives, exits, Env, World}
use kcpev.Poll.{kcpev_timer_repeat}
use kcpev.Accounts.{
  HasMemory, taken, given_back, has, Conserves, Careful, Careful-of_Conserves, Careful-IsPreorder,
  Careful-quiet, IsPaired,
}
use kcpev.Accounts.Calls.{kcp_send-Careful, kcpev_send-Careful}
use kcpev.Client.Steps.{is_note, noted, IsKept, Reaches, Reaches-kept}
use kcpev.Client.Accounts.{packet-Careful, invalid-Careful}

note-Conserves : (e : Env) (c : Call) (w : World) → is_note c ≡ true → Conserves e w (noted c w)
unfolding Conserves taken given_back
note-Conserves e (receives _ _) w n k = omega arith
note-Conserves e (kcp_inputs _ _) w n k = omega arith
note-Conserves e (kcp_receives _) w n k = omega arith
note-Conserves e exits w n k = omega arith
note-Conserves e _ w n k = absurd (cc)

repeat-Conserves : (e : Env) (w w' : World) → kcpev_timer_repeat e w ≡ ok w' → Conserves e w w'
unfolding kcpev_timer_repeat Conserves taken given_back has
repeat-Conserves e w w' h k = ground arith

repeat-Careful : (e : Env) (w w' : World) → kcpev_timer_repeat e w ≡ ok w' → Careful e w w'
unfolding kcpev_timer_repeat
repeat-Careful e w w' h = record {
  paired = λ p. record { paired = λ n. ground (arith, p) };
  conserves = λ p. repeat-Conserves e w w' h;
}

pub Careful-IsKept : (e : Env) → HasMemory e → IsKept e (Careful e)
Careful-IsKept e has_memory = record {
  order = Careful-IsPreorder e;
  packet = packet-Careful e has_memory;
  note = λ c w n. Careful-of_Conserves refl refl (note-Conserves e c w n);
  ring = λ rb w. Careful-quiet w _ refl (ground arith);
  repeat = repeat-Careful e;
  invalid = invalid-Careful e;
  kcp_send = kcp_send-Careful e;
  send = kcpev_send-Careful e;
}

-- In every run of a client's callbacks that return, in any order and with any bytes from the network,
-- and of messages that the application sends, of its sockets, watchers, timers and kcp objects none
-- is lost: what it has taken since the start, with what it had, is what it has given back since, with
-- what it has. `kcpev_malloc` never fails, and no second timer runs without the first at the start.
pub Reaches-Conserves :
    (e : Env) (w w' : World) → HasMemory e → IsPaired w.me → Reaches e w w' → Conserves e w w'
Reaches-Conserves e w w' m p r =
    (Reaches-kept e (Careful e) (Careful-IsKept e m) w w' r).conserves p
