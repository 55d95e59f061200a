-- ===== src/Client/Callbacks.antt =====
-- In every run of its callbacks a client that counts as usable is so.
use kcpev.Base.{◌≡◌, refl, ap, ok, arith}
use kcpev.Conn.{Kcpev, Env, World}
use kcpev.Send.{is_usable, is_kcp_valid, set_kcp_invalid}
use kcpev.Send.Frame.{me-kcp_send_command, me-kcpev_send_command}
use kcpev.Poll.{kcpev_timer_repeat}
use kcpev.Client.Status.{IsSound, on_client_recv-IsSound}
use kcpev.Client.Steps.{IsKept, Reaches, Reaches-kept}

-- A sound connection stays sound.
record StaysSound (w w' : World) : Type 0 where
  sound : IsSound w.me → IsSound w'.me

same_udp : {c c' : Kcpev} → c'.udp ≡ c.udp → IsSound c → IsSound c'
same_udp same v = record {
  usable_valid = λ u. unfold is_kcp_valid is_usable in ground (arith, v, same);
}

StaysSound-of_udp : (w w' : World) → w'.me.udp ≡ w.me.udp → StaysSound w w'
StaysSound-of_udp w w' same = record { sound = λ v. same_udp same v }

repeat-StaysSound : (e : Env) (w w' : World) → kcpev_timer_repeat e w ≡ ok w' → StaysSound w w'
unfolding kcpev_timer_repeat is_kcp_valid is_usable
repeat-StaysSound e w w' h = record {
  sound = λ v. record { usable_valid = λ u. ground (arith, v) };
}

invalid-StaysSound : (w : World) → StaysSound w (record w { me = set_kcp_invalid w.me })
unfolding set_kcp_invalid is_usable
invalid-StaysSound w = record { sound = λ v. record { usable_valid = λ u. ground (arith, v) } }

StaysSound-IsKept : (e : Env) → IsKept e StaysSound
StaysSound-IsKept e = record {
  order = record {
    same = λ w. record { sound = λ v. v };
    trans = λ s t u h g. record { sound = λ v. g.sound (h.sound v) };
  };
  packet = λ w w' p ret h. record { sound = λ v. on_client_recv-IsSound e p w w' ret v h };
  note = λ c w n. StaysSound-of_udp w _ refl;
  ring = λ rb w. StaysSound-of_udp w _ refl;
  repeat = repeat-StaysSound e;
  invalid = invalid-StaysSound;
  kcp_send = λ command msg w w' ret h.
      StaysSound-of_udp w w' (ap (λ (c : Kcpev). c.udp) (me-kcp_send_command e command msg w h));
  send = λ command msg w w' ret h.
      StaysSound-of_udp w w' (ap (λ (c : Kcpev). c.udp) (me-kcpev_send_command e command msg w h));
}

-- In every run of callbacks that return, in any order and with any bytes from the network, and of
-- messages that the application sends: a client that counts as usable by its status has a socket, a
-- kcp object and a timer, if that held at the start.
pub Reaches-IsSound : (e : Env) (w w' : World) → IsSound w.me → Reaches e w w' → IsSound w'.me
Reaches-IsSound e w w' v r = (Reaches-kept e StaysSound (StaysSound-IsKept e) w w' r).sound v
