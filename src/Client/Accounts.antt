-- ===== src/Client/Accounts.antt =====
-- A client loses nothing of what it takes from the system.
pub mod Life
pub mod Runs
mod Tests
use kcpev.Base.{
  ℕ, ◌+◌, ◌≡◌, List, ◌∷◌, Option, ◌==◌, refl, leb, length, drop, ℤ, pos, int_eq, is_nonneg, some,
  none, ok, arith,
}
use kcpev.Header.{Header, header_size, header_from_net}
use kcpev.Conn.{
  command_heartbeat2, World, Env, UdpStatus, check, fail, Body, ◌>>◌, delivers, conv_of, Kcp, ◌>>=◌,
  call, returns_code, Call,
}
use kcpev.Conn.Keeps.{
  IsPreorder, Keeps, Ends, Keeps-fail, Keeps-bind, Keeps-check, Keeps-modify, Keeps-call,
  keeps_rules, returns_code-Keeps,
}
use kcpev.Send.{set_kcp_invalid}
use kcpev.Life.{logs}
use kcpev.Client.{
  set_conv, client_shake_hand2, client_command, on_client_recv, set_heart, set_status,
  client_heartbeat1, client_data, client_shake_hand1, client_udp_invalid,
}
use kcpev.Client.Packets.{on_client_recv-kept}
use kcpev.Accounts.{
  HasMemory, taken, Careful-of_Conserves, given_back, has, Conserves, Careful, Careful-quiet,
  SameParts, Careful-IsPreorder,
}
use kcpev.Accounts.Calls.{sock_send-Careful, kcp_send-Careful, kcpev_send-Careful, timer-Careful}

module _ (e : Env) where
  heart-Careful : (w : World) → Careful e w (set_heart (e.now w.calls) w)
  heart-Careful w = Careful-quiet w _ refl (ground arith)

  status-Careful : (s : UdpStatus) (w : World) → Careful e w (set_status s w)
  status-Careful s w = Careful-quiet w _ refl (ground arith)

  key-Careful :
      (key : List ℕ) (w : World) → Careful e w (record w { me = record (w.me) { key = key } })
  key-Careful key w = Careful-quiet w _ refl (ground arith)

  pub invalid-Careful : (w : World) → Careful e w (record w { me = set_kcp_invalid w.me })
  unfolding set_kcp_invalid
  invalid-Careful w = Careful-quiet w _ refl (ground arith)

  delivers-Keeps : (self : ℕ) (msg : List ℕ) → Keeps (Careful e) (logs (delivers self msg))
  unfolding Conserves taken given_back
  delivers-Keeps self msg = record { at = λ w. Careful-of_Conserves refl refl (λ k. omega arith) }

set_conv-Keeps : (e : Env) → Keeps (Careful e) set_conv
unfolding set_conv
set_conv-Keeps e = record { at = λ w. ended w w.me.udp.kcp refl }
  where
    ended : (w : World) (k : Option Kcp) → w.me.udp.kcp ≡ k → Ends (Careful e w) (set_conv w)
    ended w none is = simp is tt
    ended w (some k) is = simp is (
        Careful-quiet w
          (record w {
            me = record (w.me) {
              udp = record (w.me.udp) { kcp = some (record k { conv = conv_of w.me.key }) };
            };
          })
          refl (ground (arith, is)))

ruleset careful_rules = (
  delivers-Keeps, set_conv-Keeps, keeps_rules, Careful-IsPreorder, Keeps-call, sock_send-Careful,
  kcp_send-Careful, kcpev_send-Careful, Keeps-modify, heart-Careful, status-Careful, key-Careful,
  invalid-Careful,
)

module _ (e : Env) (has_memory : HasMemory e) (msg : List ℕ) where
  heartbeat1-Keeps : Keeps (Careful e) (client_heartbeat1 e msg)
  unfolding client_heartbeat1
  heartbeat1-Keeps = search careful_rules depth 30

  invalid-Keeps : Keeps (Careful e) (client_udp_invalid msg)
  unfolding client_udp_invalid
  invalid-Keeps = search careful_rules depth 30

  shake_hand1-Keeps : Keeps (Careful e) (client_shake_hand1 e msg)
  unfolding client_shake_hand1
  shake_hand1-Keeps = search careful_rules depth 30

  shake_hand2-Keeps : Keeps (Careful e) (client_shake_hand2 e msg)
  unfolding client_shake_hand2
  shake_hand2-Keeps = search (careful_rules, timer-Careful, has_memory) depth 30

  data-Keeps : Keeps (Careful e) (client_data msg)
  unfolding client_data
  data-Keeps = search careful_rules depth 30

  command-Keeps : (command : ℕ) → Keeps (Careful e) (client_command e command msg)
  unfolding client_command
  command-Keeps command =
      search
        (
          keeps_rules, Careful-IsPreorder, heartbeat1-Keeps, invalid-Keeps, shake_hand1-Keeps,
          shake_hand2-Keeps, data-Keeps,
        )
        depth 30

pub packet-Careful :
    (e : Env) (has_memory : HasMemory e) (w w' : World) (packet : List ℕ) (ret : ℤ)
    → on_client_recv e w packet ≡ ok (ret, w')
    → Careful e w w'
packet-Careful e has_memory w w' packet ret h =
    on_client_recv-kept e (Careful e) (Careful-IsPreorder e)
      (λ command msg. command-Keeps e has_memory msg command) w w' packet ret h
