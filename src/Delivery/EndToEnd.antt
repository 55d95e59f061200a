-- ===== src/Delivery/EndToEnd.antt =====
-- One side sends, the other receives.
use kcpev.Base.{
  ℕ, ◌+◌, ◌≤◌, ◌<◌, ◌≡◌, sym, ap, ◌∙◌, true, List, [], ◌++◌, append_cancel_left, length, ok, arith,
}
use kcpev.Header.{header_size, buffer_size}
use kcpev.Stream.Chunk.{Holds, next_packet-few}
use kcpev.Stream.Store.{Allocates}
use kcpev.Stream.Pieces.{flat, AllAre}
use kcpev.Conn.{Trace, Env, HasStack, World}
use kcpev.Send.{kcpev_send_tcp}
use kcpev.Delivery.{wire, delivered, exited, send_all, client_receives}
use kcpev.Delivery.Sending.{send_all-Sent}
use kcpev.Delivery.Receiving.{AllPieces, client_receives-Gets}

-- Messages that one side sends by `kcpev_send_tcp`, each with the result 0, arrive: when the bytes that
-- went out on its socket come to a client in any pieces, none of them empty, every call of
-- `client_tcp_recv` returns, none ends the program, `recv_cb` gets exactly those messages, in order, and
-- nothing stays pending. The client has a `recv_cb` and nothing pending before, `malloc` succeeds,
-- messages have at most `bound` bytes with their headers and pieces at most `most`, where `bound` fits in
-- a buffer and `bound + most` is at most one more than the size of the ring.
pub send_tcp-delivers :
    (sender receiver : Env) (bound most : ℕ) (msgs pieces : List (List ℕ)) (w w' c : World)
    → HasStack sender
    → ((t : Trace) → Allocates (receiver.malloc t))
    → 0 < bound
    → bound ≤ buffer_size
    → bound + most ≤ buffer_size + 1
    → AllAre (λ msg. length msg + header_size ≤ bound) msgs
    → send_all (kcpev_send_tcp sender) msgs w ≡ ok w'
    → wire w.me.tcp.sock w'.calls ≡ wire w.me.tcp.sock w.calls ++ flat pieces
    → AllPieces most pieces
    → c.me.recv_cb ≡ true
    → Holds c.me.tcp.rb []
    → (c' : World) × (client_receives receiver pieces c ≡ ok c')
      × (delivered c'.calls ≡ delivered c.calls ++ msgs)
      × (exited c'.calls ≡ exited c.calls)
      × Holds c'.me.tcp.rb []
send_tcp-delivers sender receiver bound most msgs pieces w w' c stack alloc positive small room fits
      sent carried sizes cb idle =
    let s = send_all-Sent sender stack bound small msgs w w' fits sent in
    let (c', r, g, h) =
      client_receives-Gets receiver alloc bound most positive room pieces s.packets c [] cb sizes
        s.are_data s.bounded idle positive (next_packet-few [] (omega arith))
        (append_cancel_left (wire w.me.tcp.sock w.calls) (flat pieces) (flat s.packets)
          (sym carried ∙ s.on_wire)) in
    (c', r, g.got ∙ ap (λ x. delivered c.calls ++ x) s.content, g.runs, h)
