-- ===== src/Delivery/Sending.antt =====
-- The wire under `kcpev_send_tcp`.
use kcpev.Base.{
  ℕ, ◌+◌, ◌≤◌, ◌≡◌, refl, sym, ap, subst, ap₂, ◌∙◌, inl, inr, Bool-cases, List, [], ◌∷◌, ◌++◌,
  append_assoc, append-nil, length, ℤ, pos, int_eq, Run, ok, fault, arith,
}
use kcpev.Header.{header_size, buffer_size}
use kcpev.Header.Packing.{packet, length-packet, drop-packet}
use kcpev.Conn.{command_data, sends, Trace, Env, HasStack, World}
use kcpev.Send.{kcpev_send_tcp}
use kcpev.Send.Choice.{after_send, sock_send_command_lem}
use kcpev.Stream.Pieces.{flat, AllAre, AllAtMost}
use kcpev.Delivery.{wire, send_all, IsData, messages}

-- Packets of messages, each with its header of at most so many bytes.
pub record Sent (bound sock : ℕ) (msgs : List (List ℕ)) (w w' : World) : Type 0 where
  pub packets : List (List ℕ)
  pub on_wire : wire sock w'.calls ≡ wire sock w.calls ++ flat packets
  pub are_data : AllAre IsData packets
  pub bounded : AllAtMost bound packets
  pub content : messages packets ≡ msgs

wire-sends :
    (sock : ℕ) (bytes : List ℕ) (t : Trace)
    → wire sock (sends sock bytes ∷ t) ≡ wire sock t ++ bytes
unfolding wire
wire-sends sock bytes t = ground arith

module _ (e : Env) (stack : HasStack e) (bound : ℕ) (small : bound ≤ buffer_size) where
  kcpev_send_tcp-Sent :
      (msg : List ℕ) (ret : ℤ) (w w' : World)
      → length msg + header_size ≤ bound
      → kcpev_send_tcp e msg w ≡ ok (ret, w')
      → (pad : List ℕ) × (length pad ≡ 3)
        × (w' ≡ after_send w w.me.tcp.sock (packet command_data pad msg))
  unfolding kcpev_send_tcp
  kcpev_send_tcp-Sent msg ret w w' fits h =
      let (pad, f, p) =
        sock_send_command_lem e stack w command_data msg (omega (arith, small)) w.me.tcp.sock in
      (pad, f, ground (arith, p))

  -- One message before the others.
  Sent-next :
      (msg : List ℕ) (msgs : List (List ℕ)) (ret : ℤ) (w w1 w' : World)
      → length msg + header_size ≤ bound
      → kcpev_send_tcp e msg w ≡ ok (ret, w1)
      → Sent bound w1.me.tcp.sock msgs w1 w'
      → Sent bound w.me.tcp.sock (msg ∷ msgs) w w'
  unfolding messages
  Sent-next msg msgs ret w w1 w' fits g rest =
      let (pad, f, same) = kcpev_send_tcp-Sent msg ret w w1 fits g in
      let p = packet command_data pad msg in
      record {
        packets = p ∷ rest.packets;
        on_wire =
            subst
              (λ (v : World).
                wire v.me.tcp.sock w'.calls ≡ wire v.me.tcp.sock v.calls ++ flat rest.packets)
              same rest.on_wire
            ∙ ap (λ x. x ++ flat rest.packets) (wire-sends w.me.tcp.sock p w.calls)
            ∙ append_assoc (wire w.me.tcp.sock w.calls) p (flat rest.packets);
        are_data = (
          record { pad = pad; msg = msg; padded = f; is = refl; short = omega (arith, small) },
          rest.are_data,
        );
        bounded = (omega (arith, length-packet command_data pad msg f), rest.bounded);
        content = ap₂ ◌∷◌ (drop-packet command_data pad msg f) rest.content;
      }

  pub send_all-Sent :
      (msgs : List (List ℕ)) (w w' : World)
      → AllAre (λ msg. length msg + header_size ≤ bound) msgs
      → send_all (kcpev_send_tcp e) msgs w ≡ ok w'
      → Sent bound w.me.tcp.sock msgs w w'
  unfolding send_all messages
  send_all-Sent [] w w' fits h = record {
    packets = [];
    on_wire =
        ap (λ (v : World). wire w.me.tcp.sock v.calls) {x = w'} {y = w} (ground (arith, h))
        ∙ sym (append-nil (wire w.me.tcp.sock w.calls));
    are_data = tt;
    bounded = tt;
    content = refl;
  }
  send_all-Sent (msg ∷ msgs) w w' fits h =
      go (λ w1 h1. send_all-Sent msgs w1 w' fits.1 h1) (kcpev_send_tcp e msg w) refl
    where
      go :
          ((w1 : World)
            → send_all (kcpev_send_tcp e) msgs w1 ≡ ok w'
            → Sent bound w1.me.tcp.sock msgs w1 w')
          → (m : Run (ℤ × World)) → kcpev_send_tcp e msg w ≡ m
          → Sent bound w.me.tcp.sock (msg ∷ msgs) w w'
      go later fault g = absurd (ground (arith, g))
      go later (ok (ret, w1)) g = elim (Bool-cases (int_eq ret (pos 0))) [
        | inl whole ↦ Sent-next msg msgs ret w w1 w' fits.0 g (later w1 (ground (arith, g, whole)))
        | inr part ↦ absurd (ground (arith, g, part))
      ]
