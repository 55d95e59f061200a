-- ===== src/Client/Agreed.antt =====
-- The kcp object of a client whose UDP can be used has the number of the client's key.
pub mod Handshake
pub mod Runs
mod Tests
pub mod Unsent
use kcpev.Base.{
  ℕ, ◌+◌, ◌≡◌, ◌==◌, refl, ap, subst, sym, ◌∙◌, inl, inr, Bool-cases, Option-cases, Bool, true,
  false, Option, none, some, List, ◌∷◌, length, drop, leb, bytes_eq, ℤ, pos, minus_one, int_eq,
  is_nonneg, Run, ok, fault, arith,
}
use kcpev.Header.{Header, header_size, header_from_net}
use kcpev.Header.Packing.{packet, length-packet}
use kcpev.Conn.{
  command_shake_hand1, command_shake_hand2, udp_ready, udp_shaking_hand, is_shaking_hand, key_size,
  conv_of, client_heartbeat, delivers, Kcp, Kcpev, Trace, Env, HasStack, World, Body, ◌>>=◌, ◌>>◌,
  Exit, next, error, crash, pure, get, modify, check, fail, call,
}
use kcpev.Conn.Keeps.{
  IsPreorder, Keeps, Ends, Keeps-fail, Keeps-bind, Keeps-check, Keeps-modify, Keeps-call,
  keeps_rules, returns_code-Keeps,
}
use kcpev.Conn.Triples.{
  Triple, Outcome, Triple-bind, Triple-call, Triple-guard, Triple-modify, Triple-then,
}
use kcpev.Send.{is_usable, set_kcp_invalid, sock_send_command, kcp_send_command, kcpev_send_command}
use kcpev.Send.Frame.{me-sock_send_command, me-kcp_send_command, me-kcpev_send_command}
use kcpev.Send.Choice.{sock_send_command_lem, after_send}
use kcpev.Life.{logs, check_create_kcp_timer}
use kcpev.Life.Timers.{SameBut, check_create_kcp_timer_lem}
use kcpev.Poll.{kcpev_timer_repeat}
use kcpev.Client.{
  set_status, set_heart, set_conv, client_data, client_shake_hand1, client_shake_hand2,
  client_heartbeat1, client_udp_invalid, client_command, on_client_recv,
}
use kcpev.Client.Steps.{IsKept, Reaches, Reaches-kept}

abbrev pub Numbered : Kcpev → Type 0
Numbered c = (k : Kcp) × (c.udp.kcp ≡ some k) × (k.conv ≡ conv_of c.key)

pub record IsAgreed (c : Kcpev) : Type 0 where
  pub agreed :
      is_usable c.udp.status ≡ true → (k : Kcp) × (c.udp.kcp ≡ some k) × (k.conv ≡ conv_of c.key)

pub record StaysAgreed (w w' : World) : Type 0 where
  pub agreed : IsAgreed w.me → IsAgreed w'.me

pub StaysAgreed-IsPreorder : IsPreorder StaysAgreed
StaysAgreed-IsPreorder = record {
  same = λ w. record { agreed = λ v. v };
  trans = λ s t u h g. record { agreed = λ v. g.agreed (h.agreed v) };
}

pub IsAgreed-of :
    {c c' : Kcpev}
    → c'.udp.status ≡ c.udp.status
    → c'.udp.kcp ≡ c.udp.kcp
    → c'.key ≡ c.key
    → IsAgreed c
    → IsAgreed c'
IsAgreed-of {c} {c'} status kcp key v = record {
  agreed = λ u.
      let (k, has, conv) = v.agreed (ap is_usable (sym status) ∙ u) in
      (k, kcp ∙ has, conv ∙ ap conv_of (sym key));
}

pub StaysAgreed-of :
    (w w' : World)
    → w'.me.udp.status ≡ w.me.udp.status
    → w'.me.udp.kcp ≡ w.me.udp.kcp
    → w'.me.key ≡ w.me.key
    → StaysAgreed w w'
StaysAgreed-of w w' status kcp key = record { agreed = λ v. IsAgreed-of status kcp key v }

pub StaysAgreed-of_me : (w w' : World) → w'.me ≡ w.me → StaysAgreed w w'
StaysAgreed-of_me w w' same =
    StaysAgreed-of w w' (ap (λ (c : Kcpev). c.udp.status) same) (ap (λ (c : Kcpev). c.udp.kcp) same)
      (ap (λ (c : Kcpev). c.key) same)

-- A status that is not usable.
pub unusable : (w w' : World) → is_usable w'.me.udp.status ≡ false → StaysAgreed w w'
unusable w w' not = record {
  agreed = λ v. record { agreed = λ u. absurd (ground (arith, not, u)) };
}

pub sock_send-Stays :
    (e : Env) (sock command : ℕ) (msg : List ℕ) (w w' : World) (ret : ℤ)
    → sock_send_command e sock command msg w ≡ ok (ret, w')
    → StaysAgreed w w'
sock_send-Stays e sock command msg w w' ret h =
    StaysAgreed-of_me w w' (me-sock_send_command e command msg w sock h)

pub kcp_send-Stays :
    (e : Env) (command : ℕ) (msg : List ℕ) (w w' : World) (ret : ℤ)
    → kcp_send_command e command msg w ≡ ok (ret, w')
    → StaysAgreed w w'
kcp_send-Stays e command msg w w' ret h =
    StaysAgreed-of_me w w' (me-kcp_send_command e command msg w h)

pub kcpev_send-Stays :
    (e : Env) (command : ℕ) (msg : List ℕ) (w w' : World) (ret : ℤ)
    → kcpev_send_command e command msg w ≡ ok (ret, w')
    → StaysAgreed w w'
kcpev_send-Stays e command msg w w' ret h =
    StaysAgreed-of_me w w' (me-kcpev_send_command e command msg w h)

pub heart-Stays : (t : ℕ) (w : World) → StaysAgreed w (set_heart t w)
heart-Stays t w = StaysAgreed-of w _ refl refl refl

pub invalid-Stays : (w : World) → StaysAgreed w (record w { me = set_kcp_invalid w.me })
unfolding set_kcp_invalid is_usable
invalid-Stays w = unusable w _ (ground arith)

pub delivers-Keeps : (self : ℕ) (msg : List ℕ) → Keeps StaysAgreed (logs (delivers self msg))
delivers-Keeps self msg = record { at = λ w. StaysAgreed-of_me w _ refl }

abbrev pub Agreed : World → Type 0
Agreed s = IsAgreed s.me

Ends-of_Outcome :
    {A : Type 0} (s : World) (x : Exit World A)
    → (IsAgreed s.me → Outcome (λ _. Agreed) Agreed x)
    → Ends (StaysAgreed s) x
Ends-of_Outcome s (next a t) h = record { agreed = h }
Ends-of_Outcome s (error t) h = record { agreed = h }
Ends-of_Outcome s crash h = tt

pub Keeps-of_Triple :
    {A : Type 0} (m : Body World A) → Triple Agreed m (λ _. Agreed) Agreed → Keeps StaysAgreed m
Keeps-of_Triple m tm = record { at = λ s. Ends-of_Outcome s (m s) (tm.at s) }

pub ruleset agreed_rules = (
  keeps_rules, StaysAgreed-IsPreorder, Keeps-call, Keeps-modify, sock_send-Stays, kcpev_send-Stays,
  heart-Stays, invalid-Stays, delivers-Keeps,
)
