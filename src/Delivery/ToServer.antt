-- ===== src/Delivery/ToServer.antt =====
-- A client sends by `kcpev_send_tcp`, the server receives from it.
use kcpev.Base.{
  ℕ, ◌+◌, ◌≤◌, ◌<◌, ◌≡◌, refl, sym, ap, subst, ◌∙◌, true, some, List, [], ◌∷◌, ◌++◌,
  append_cancel_left, length, Run, ok, arith,
}
use kcpev.Header.{header_size, buffer_size}
use kcpev.Stream.Chunk.{Holds, next_packet, next_packet-few}
use kcpev.Stream.Store.{Allocates}
use kcpev.Stream.Pieces.{
  flat, AllAre, AllAtMost, AllAre-right, AllAtMost-right, acts, ended, tcp_recv-Parsed,
}
use kcpev.Conn.{receives, Kcpev, Trace, Env, HasStack, World}
use kcpev.Send.{kcpev_send_tcp}
use kcpev.Server.State.{Server, load, store, logs_to}
use kcpev.Server.Heap.{load_at-store}
use kcpev.Server.Recv.{on_server_recv}
use kcpev.Server.Callbacks.{server_tcp_recv}
use kcpev.Delivery.{wire, send_all, IsData, messages}
use kcpev.Delivery.Sending.{send_all-Sent}
use kcpev.Delivery.Receiving.{AllAre-WellFormed, messages-append, AllPieces}
use kcpev.Delivery.ServerSide.{
  delivered_from, server_receives, hands_to, server-Accepts, GetsFrom, GetsFrom-trans,
  acts-GetsFrom, acts-heap, ringed, server_tcp_recv-ok,
}

server_receives-step :
    (e : Env) (a : ℕ) (bytes : List ℕ) (pieces : List (List ℕ)) (s s1 : Server)
    → server_tcp_recv e a bytes s ≡ ok s1
    → server_receives e a (bytes ∷ pieces) s ≡ server_receives e a pieces s1
unfolding server_receives
server_receives-step e a bytes pieces s s1 h = rw (h, server_receives)

-- What the server is like behind the pieces.
record Received (a : ℕ) (s : Server) (msgs : List (List ℕ)) (m : Run Server) : Type 0 where
  end : Server
  client : Kcpev
  returns : m ≡ ok end
  gets : GetsFrom a s end msgs
  there : load a end.heap ≡ some client
  empty : Holds client.tcp.rb []

module _ (e : Env) (alloc : (t : Trace) → Allocates (e.malloc t))
    (named : (t : Trace) → e.getnameinfo t ≡ true) (a bound most : ℕ) (positive : 0 < bound)
    (room : bound + most ≤ buffer_size + 1) where
  server_receives-Received :
      (pieces fs : List (List ℕ)) (s : Server) (c : Kcpev) (q : List ℕ)
      → s.recv_cb ≡ true
      → load a s.heap ≡ some c
      → AllPieces most pieces
      → AllAre IsData fs
      → AllAtMost bound fs
      → Holds c.tcp.rb q
      → length q < bound
      → next_packet q ≡ []
      → q ++ flat pieces ≡ flat fs
      → Received a s (messages fs) (server_receives e a pieces s)
  unfolding server_receives
  server_receives-Received [] fs s c q cb there n d b h small stop k =
      let (z, y) = ended fs q (AllAre-WellFormed fs d) stop k in
      record {
        end = s;
        client = c;
        returns = refl;
        gets = subst (GetsFrom a s s) (ap messages (sym z)) (acts-GetsFrom a s []);
        there = there;
        empty = subst (Holds c.tcp.rb) y h;
      }
  server_receives-Received ([] ∷ pieces) fs s c q cb there n d b h small stop k =
      absurd (omega (arith, n.0.0))
  server_receives-Received ((x ∷ xs) ∷ pieces) fs s c q cb there n d b h small stop k =
      let got = logs_to (receives a (x ∷ xs)) s in
      let (rb, m, f, h') =
        tcp_recv-Parsed (on_server_recv e (some a)) (hands_to a) (λ (v : Server). v.recv_cb ≡ true)
          IsData (server-Accepts e named a) bound positive (e.malloc got.calls) c.tcp.rb q (x ∷ xs)
          (flat pieces) fs got cb (alloc got.calls) d b h (omega (arith, n.0.1)) k in
      let s1 = acts (hands_to a) got m.done in
      let still : load a s1.heap ≡ some c = ap (load a) (acts-heap a got m.done) ∙ there in
      let s2 : Server = record s1 { heap = store a (ringed rb c) s1.heap } in
      let g1 : GetsFrom a got s1 (messages m.done) = acts-GetsFrom a got m.done in
      let g2 : GetsFrom a s s2 (messages m.done) = record {
        recv_cb = g1.recv_cb;
        got = unfold delivered_from in g1.got;
      } in
      let rest =
        server_receives-Received pieces m.todo s2 (ringed rb c) m.rest (g2.recv_cb ∙ cb)
          (load_at-store a c (ringed rb c) s1.heap still) n.1
          (AllAre-right IsData m.done m.todo (subst (AllAre IsData) m.split d))
          (AllAtMost-right bound m.done m.todo (subst (AllAtMost bound) m.split b)) h' m.short
          m.stopped m.goes_on in
      record {
        end = rest.end;
        client = rest.client;
        returns =
            server_receives-step e a (x ∷ xs) pieces s s2
              (server_tcp_recv-ok e a x xs s s1 c rb there still f)
            ∙ rest.returns;
        gets =
            subst (GetsFrom a s rest.end)
              (sym (messages-append m.done m.todo) ∙ ap messages (sym m.split))
              (GetsFrom-trans g2 rest.gets);
        there = rest.there;
        empty = rest.empty;
      }

-- The same towards the server: messages that a client sends by `kcpev_send_tcp`, each with the result
-- 0, arrive when their bytes come to the server in any pieces, none of them empty: every call of
-- `server_tcp_recv` returns and leaves the client there, with nothing pending, and the server's
-- `recv_cb` gets from this client exactly those messages, in order. The sizes are bounded as for a
-- client that receives, `malloc` and `getnameinfo` succeed, the server has a `recv_cb`, and its client
-- is there with nothing pending.
pub send_tcp-reaches_server :
    (sender receiver : Env) (a bound most : ℕ) (msgs pieces : List (List ℕ)) (w w' : World)
    (s : Server) (c : Kcpev)
    → HasStack sender
    → ((t : Trace) → Allocates (receiver.malloc t))
    → ((t : Trace) → receiver.getnameinfo t ≡ true)
    → 0 < bound
    → bound ≤ buffer_size
    → bound + most ≤ buffer_size + 1
    → AllAre (λ msg. length msg + header_size ≤ bound) msgs
    → send_all (kcpev_send_tcp sender) msgs w ≡ ok w'
    → wire w.me.tcp.sock w'.calls ≡ wire w.me.tcp.sock w.calls ++ flat pieces
    → AllPieces most pieces
    → s.recv_cb ≡ true
    → load a s.heap ≡ some c
    → Holds c.tcp.rb []
    → (s' : Server) × (c' : Kcpev) × (server_receives receiver a pieces s ≡ ok s')
      × (delivered_from a s'.calls ≡ delivered_from a s.calls ++ msgs)
      × (load a s'.heap ≡ some c')
      × Holds c'.tcp.rb []
send_tcp-reaches_server sender receiver a bound most msgs pieces w w' s c stack alloc named positive
      small room fits sent carried sizes cb there idle =
    let p = send_all-Sent sender stack bound small msgs w w' fits sent in
    let r =
      server_receives-Received receiver alloc named a bound most positive room pieces p.packets s c
        [] cb there sizes p.are_data p.bounded idle positive (next_packet-few [] (omega arith))
        (append_cancel_left (wire w.me.tcp.sock w.calls) (flat pieces) (flat p.packets)
          (sym carried ∙ p.on_wire)) in
    (
      r.end,
      r.client,
      r.returns,
      r.gets.got ∙ ap (λ x. delivered_from a s.calls ++ x) p.content,
      r.there,
      r.empty,
    )
