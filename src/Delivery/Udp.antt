-- ===== src/Delivery/Udp.antt =====
-- The same over UDP: what kcp is given on one side and hands out on the other.
use kcpev.Base.{
  ℕ, zero, suc, ◌+◌, ◌<◌, ◌≡◌, refl, sym, ap, ap₂, subst, ◌∙◌, inl, inr, Bool-cases, true, List, [],
  ◌∷◌, ◌++◌, ◌==◌, append_assoc, append-nil, length, ℤ, pos, int_eq, Run, ok, fault, if◌then◌else◌,
  arith,
}
use kcpev.Header.{header_size, buffer_size}
use kcpev.Header.Packing.{packet, length-packet, drop-packet}
use kcpev.Stream.Pieces.{AllAre}
use kcpev.Conn.{command_data, kcp_sends, kcp_receives, Trace, Env, HasStack, World}
use kcpev.Send.{is_kcp_valid, kcpev_send}
use kcpev.Send.Choice.{kcpev_send_command_lem, after_kcp_send}
use kcpev.Delivery.{send_all, IsData, messages}

-- The packets that a connection gave to `ikcp_send`, in order, and its reads by `ikcp_recv`.
unfoldable pub kcp_sent : ℕ → Trace → List (List ℕ)
kcp_sent self [] = []
kcp_sent self (kcp_sends s bytes ∷ t) =
    if s == self then kcp_sent self t ++ (bytes ∷ []) else kcp_sent self t
kcp_sent self (_ ∷ t) = kcp_sent self t

unfoldable pub kcp_reads : ℕ → Trace → ℕ
kcp_reads self [] = 0
kcp_reads self (kcp_receives s ∷ t) = if s == self then suc (kcp_reads self t) else kcp_reads self t
kcp_reads self (_ ∷ t) = kcp_reads self t

unfoldable pub item : ℕ → List (List ℕ) → List ℕ
item n [] = []
item zero (f ∷ fs) = f
item (suc n) (f ∷ fs) = item n fs

-- Packets of messages, each shorter than the buffer.
pub record Given (self : ℕ) (msgs : List (List ℕ)) (w w' : World) : Type 0 where
  pub packets : List (List ℕ)
  pub to_kcp : kcp_sent self w'.calls ≡ kcp_sent self w.calls ++ packets
  pub are_data : AllAre IsData packets
  pub small : AllAre (λ f. length f < buffer_size) packets
  pub content : messages packets ≡ msgs

kcp_sent-sends :
    (self : ℕ) (bytes : List ℕ) (t : Trace)
    → kcp_sent self (kcp_sends self bytes ∷ t) ≡ kcp_sent self t ++ (bytes ∷ [])
unfolding kcp_sent
kcp_sent-sends self bytes t = ground arith

module _ (e : Env) (stack : HasStack e) where
  kcpev_send-Given :
      (msg : List ℕ) (ret : ℤ) (w w' : World)
      → length msg + header_size < buffer_size
      → is_kcp_valid w.me ≡ true
      → kcpev_send e msg w ≡ ok (ret, w')
      → (pad : List ℕ) × (length pad ≡ 3) × (w' ≡ after_kcp_send w (packet command_data pad msg))
  unfolding kcpev_send
  kcpev_send-Given msg ret w w' fits valid h =
      let (pad, f, p) = kcpev_send_command_lem e stack w command_data msg (omega arith) in
      (pad, f, ground (arith, p, valid))

  Given-next :
      (msg : List ℕ) (msgs : List (List ℕ)) (ret : ℤ) (w w1 w' : World)
      → length msg + header_size < buffer_size
      → is_kcp_valid w.me ≡ true
      → kcpev_send e msg w ≡ ok (ret, w1)
      → (is_kcp_valid w1.me ≡ true → Given w1.me.self msgs w1 w')
      → Given w.me.self (msg ∷ msgs) w w'
  unfolding messages
  Given-next msg msgs ret w w1 w' fits valid g later =
      let (pad, f, same) = kcpev_send-Given msg ret w w1 fits valid g in
      let p = packet command_data pad msg in
      let rest = later (ap (λ (v : World). is_kcp_valid v.me) same ∙ valid) in
      record {
        packets = p ∷ rest.packets;
        to_kcp =
            subst
              (λ (v : World).
                kcp_sent v.me.self w'.calls ≡ kcp_sent v.me.self v.calls ++ rest.packets)
              same rest.to_kcp
            ∙ ap (λ x. x ++ rest.packets) (kcp_sent-sends w.me.self p w.calls)
            ∙ append_assoc (kcp_sent w.me.self w.calls) (p ∷ []) rest.packets;
        are_data = (
          record { pad = pad; msg = msg; padded = f; is = refl; short = omega arith },
          rest.are_data,
        );
        small = (omega (arith, length-packet command_data pad msg f), rest.small);
        content = ap₂ ◌∷◌ (drop-packet command_data pad msg f) rest.content;
      }

  pub send_all-Given :
      (msgs : List (List ℕ)) (w w' : World)
      → AllAre (λ msg. length msg + header_size < buffer_size) msgs
      → is_kcp_valid w.me ≡ true
      → send_all (kcpev_send e) msgs w ≡ ok w'
      → Given w.me.self msgs w w'
  unfolding send_all messages
  send_all-Given [] w w' fits valid h = record {
    packets = [];
    to_kcp =
        ap (λ (v : World). kcp_sent w.me.self v.calls) {x = w'} {y = w} (ground (arith, h))
        ∙ sym (append-nil (kcp_sent w.me.self w.calls));
    are_data = tt;
    small = tt;
    content = refl;
  }
  send_all-Given (msg ∷ msgs) w w' fits valid h =
      go (λ w1 v h1. send_all-Given msgs w1 w' fits.1 v h1) (kcpev_send e msg w) refl
    where
      go :
          ((w1 : World)
            → is_kcp_valid w1.me ≡ true
            → send_all (kcpev_send e) msgs w1 ≡ ok w'
            → Given w1.me.self msgs w1 w')
          → (m : Run (ℤ × World)) → kcpev_send e msg w ≡ m
          → Given w.me.self (msg ∷ msgs) w w'
      go later fault g = absurd (ground (arith, g))
      go later (ok (ret, w1)) g = elim (Bool-cases (int_eq ret (pos 0))) [
        | inl taken ↦
            Given-next msg msgs ret w w1 w' fits.0 valid g
              (λ v. later w1 v (ground (arith, g, taken)))
        | inr refused ↦ absurd (ground (arith, g, refused))
      ]
