-- ===== src/Server/Again.antt =====
-- A handshake that begins again while the timers of the last one run.
use kcpev.Base.{◌≡◌, ap, ◌∙◌, true, false, pos, minus_one, ok, arith, refl}
use kcpev.Conn.{is_shaking_hand, is_some, server_heartbeat, Trace, Env, World}
use kcpev.Send.{is_usable, is_kcp_valid}
use kcpev.Life.Timers.{check_create_kcp_timer-twice}
use kcpev.Server.Recv.{shake_hand1_client, shake_hand2_client}
use kcpev.Server.Status.{shake_hand1-Shaken}

refuses-again :
    (e : Env) (w : World)
    → is_shaking_hand w.me.udp.status ≡ true
    → is_some w.me.udp.evt ≡ true
    → shake_hand2_client e w ≡ ok (minus_one, w)
unfolding shake_hand2_client
refuses-again e w shaking timed =
    ground (arith, shaking, check_create_kcp_timer-twice e server_heartbeat w timed)

-- A second COMMAND_SHAKE_HAND1 for a client whose timers still run, such as a datagram that comes
-- twice, makes its UDP unusable if its handler returns 0, and no COMMAND_SHAKE_HAND2 ends that
-- handshake, whatever calls were made before it: the handler refuses it and changes nothing.
pub shake_hand1_client-again :
    (e : Env) (w w' : World) (t : Trace)
    → is_some w.me.udp.evt ≡ true
    → shake_hand1_client e w ≡ ok (pos 0, w')
    → (is_kcp_valid w'.me ≡ false)
      × (shake_hand2_client e (record w' { calls = t }) ≡ ok (minus_one, record w' { calls = t }))
unfolding is_kcp_valid is_usable
shake_hand1_client-again e w w' t timed h =
    let k = (shake_hand1-Shaken e w.me.key w w' (pos 0) h).0 refl in
    (
      ground (arith, k),
      refuses-again e (record w' { calls = t }) (ap is_shaking_hand k.status)
          (ap is_some k.evt ∙ timed),
    )
