-- ===== src/Delivery/Polled.antt =====
-- One side sends by `kcpev_send`, the other polls its kcp object.
use kcpev.Base.{
  ℕ, zero, suc, ◌+◌, ◌<◌, ◌≡◌, refl, sym, ap, subst, ◌∙◌, true, List, [], ◌∷◌, ◌++◌,
  append_cancel_left, append-nil, length, drop, ℤ, pos, minus_one, Run, ok, arith,
}
use kcpev.Header.{header_size, buffer_size}
use kcpev.Header.Packing.{length-packet}
use kcpev.Stream.Pieces.{AllAre}
use kcpev.Conn.{Call, kcp_receives, kcp_inputs, Trace, Env, HasStack, World}
use kcpev.Send.{is_kcp_valid, kcpev_send}
use kcpev.Poll.{try_kcp_recv}
use kcpev.Poll.Bounds.{outcome, outcome-zero}
use kcpev.Client.{on_client_recv, client_poll, client_udp_recv}
use kcpev.Delivery.{delivered, exited, send_all, IsData, messages}
use kcpev.Delivery.Receiving.{hands_over, client-Accepts, Gets, Gets-trans}
use kcpev.Delivery.Udp.{kcp_sent, kcp_reads, item, send_all-Given}

abbrev logs_call : Call → World → World
logs_call c w = record w { calls = c ∷ w.calls }

abbrev loop : Env → ℕ → ℕ → ℤ → World → Run (ℤ × World)
loop e self = try_kcp_recv (λ (w : World). w.calls) logs_call self (on_client_recv e) e

item-drop :
    (n : ℕ) (all rest : List (List ℕ)) (f : List ℕ)
    → drop n all ≡ f ∷ rest
    → (item n all ≡ f) × (drop (suc n) all ≡ rest)
unfolding item
item-drop zero [] rest f h = absurd (ground (arith, h))
item-drop (suc n) [] rest f h = absurd (ground (arith, h))
item-drop zero (x ∷ xs) rest f h = (ground (arith, h), ground (arith, h))
item-drop (suc n) (x ∷ xs) rest f h = item-drop n xs rest f h

item-over : (n : ℕ) (all : List (List ℕ)) → drop n all ≡ [] → item n all ≡ []
unfolding item
item-over n [] h = refl
item-over zero (x ∷ xs) h = absurd (ground (arith, h))
item-over (suc n) (x ∷ xs) h = item-over n xs h

module _ (e : Env) (self : ℕ) (all : List (List ℕ))
    (kcp : (t : Trace) → e.kcp_recv t self ≡ item (kcp_reads self t) all) where
  reads-one :
      (fuel : ℕ) (result : ℤ) (w : World) (f : List ℕ)
      → w.me.recv_cb ≡ true
      → e.kcp_recv w.calls self ≡ f
      → IsData f
      → length f < buffer_size
      → loop e self (suc fuel) result w
        ≡ loop e self fuel (pos 0) (hands_over (logs_call (kcp_receives self) w) f)
  unfolding try_kcp_recv
  reads-one fuel result w [] cb got d small =
      absurd (omega (arith, ap length d.is, length-packet 1 d.pad d.msg d.padded))
  reads-one fuel result w (x ∷ xs) cb got d small =
      let a = client-Accepts e in
      let h = a.accepts (logs_call (kcp_receives self) w) (x ∷ xs) cb d in ground (arith, got, h)

  poll-Gets :
      (fuel : ℕ) (result : ℤ) (todo : List (List ℕ)) (w : World)
      → w.me.recv_cb ≡ true
      → AllAre IsData todo
      → AllAre (λ f. length f < buffer_size) todo
      → drop (kcp_reads self w.calls) all ≡ todo
      → length todo < fuel
      → (w' : World) × (loop e self fuel result w ≡ ok (outcome result todo, w'))
        × Gets w w' (messages todo)
  unfolding try_kcp_recv kcp_reads delivered exited messages
  poll-Gets zero result todo w cb d small at h = absurd (omega (arith, h))
  poll-Gets (suc fuel) result [] w cb d small at h =
      let none_left = kcp w.calls ∙ item-over (kcp_reads self w.calls) all at in
      (
        logs_call (kcp_receives self) w,
        rw (none_left, try_kcp_recv) refl,
        record { recv_cb = refl; got = sym (append-nil (delivered w.calls)); runs = refl },
      )
  poll-Gets (suc fuel) result (f ∷ todo) w cb d small at h =
      let (first, rest) = item-drop (kcp_reads self w.calls) all todo f at in
      let w1 = hands_over (logs_call (kcp_receives self) w) f in
      let one : Gets w w1 (drop header_size f ∷ []) = record {
        recv_cb = refl;
        got = refl;
        runs = refl;
      } in
      let (w', p, g) =
        poll-Gets fuel (pos 0) todo w1 cb d.1 small.1 (ground (arith, rest)) (omega arith) in
      (
        w',
        reads-one fuel result w f cb (kcp w.calls ∙ first) d.0 small.0
            ∙ p
            ∙ ap (λ r. ok (r, w')) (outcome-zero todo),
        Gets-trans one g,
      )

client_udp_recv-polls :
    (e : Env) (fuel : ℕ) (bytes : List ℕ) (r : ℤ) (w w' : World)
    → 0 < length bytes
    → is_kcp_valid w.me ≡ true
    → client_poll e fuel (logs_call (kcp_inputs w.me.self bytes) w) ≡ ok (r, w')
    → client_udp_recv e fuel bytes w ≡ ok w'
unfolding client_udp_recv
client_udp_recv-polls e fuel [] r w w' long valid h = absurd (omega (arith, long))
client_udp_recv-polls e fuel (x ∷ xs) r w w' long valid h = ground (arith, valid, h)

-- Messages that one side sends by `kcpev_send` where its UDP can be used, each with the result 0,
-- arrive: when kcp hands a client the packets that the sender gave to its own kcp, one a call of
-- `ikcp_recv` and in order, then a datagram makes `client_udp_recv` return, it does not end the program,
-- and `recv_cb` gets exactly those messages, in order. The client's UDP can be used, it has a `recv_cb`,
-- has read nothing before, the messages with their headers are shorter than a buffer, and the fuel is
-- more than their number.
pub send_kcp-delivers :
    (sender receiver : Env) (fuel : ℕ) (msgs packets : List (List ℕ)) (datagram : List ℕ)
    (w w' c : World)
    → HasStack sender
    → AllAre (λ msg. length msg + header_size < buffer_size) msgs
    → is_kcp_valid w.me ≡ true
    → send_all (kcpev_send sender) msgs w ≡ ok w'
    → kcp_sent w.me.self w'.calls ≡ kcp_sent w.me.self w.calls ++ packets
    → ((t : Trace) → receiver.kcp_recv t c.me.self ≡ item (kcp_reads c.me.self t) packets)
    → kcp_reads c.me.self c.calls ≡ 0
    → is_kcp_valid c.me ≡ true
    → c.me.recv_cb ≡ true
    → 0 < length datagram
    → length packets < fuel
    → (c' : World) × (client_udp_recv receiver fuel datagram c ≡ ok c')
      × (delivered c'.calls ≡ delivered c.calls ++ msgs)
      × (exited c'.calls ≡ exited c.calls)
unfolding kcp_reads delivered exited
send_kcp-delivers sender receiver fuel msgs packets datagram w w' c stack fits valid sent given
      carried unread usable cb long enough =
    let s = send_all-Given sender stack msgs w w' fits valid sent in
    let same : packets ≡ s.packets =
      append_cancel_left (kcp_sent w.me.self w.calls) packets s.packets (sym given ∙ s.to_kcp) in
    let (c', p, g) =
      poll-Gets receiver c.me.self packets carried fuel minus_one packets
        (logs_call (kcp_inputs c.me.self datagram) c) cb
        (subst (AllAre IsData) (sym same) s.are_data)
        (subst (AllAre (λ f. length f < buffer_size)) (sym same) s.small)
        (ap (λ n. drop n packets) unread) enough in
    (
      c',
      client_udp_recv-polls receiver fuel datagram (outcome minus_one packets) c c' long usable p,
      g.got ∙ ap (λ x. delivered c.calls ++ x) (ap messages same ∙ s.content),
      g.runs,
    )
