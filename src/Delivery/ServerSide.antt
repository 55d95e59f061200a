-- ===== src/Delivery/ServerSide.antt =====
-- The server's `recv_cb` under `server_tcp_recv`.
use kcpev.Base.{
  ℕ, ◌≡◌, refl, sym, ap, ◌∙◌, true, Option, some, List, [], ◌∷◌, ◌++◌, append_assoc, append-nil,
  drop, pos, Run, ok, fault, ◌==◌, if◌then◌else◌, arith,
}
use kcpev.Ringbuf.{Ringbuf}
use kcpev.Header.{header_size}
use kcpev.Header.Packing.{drop-packet}
use kcpev.Stream.{tcp_recv}
use kcpev.Stream.Pieces.{Accepts, acts}
use kcpev.Conn.{command_data, delivers_server, receives, Kcpev, Trace, Env}
use kcpev.Server.State.{Server, load, store, logs_to}
use kcpev.Server.Recv.{server_data, server_command, on_server_recv}
use kcpev.Server.Callbacks.{store_rb, server_tcp_recv}
use kcpev.Server.Shake.{on_server_recv-packet}
use kcpev.Delivery.{IsData, messages}
use kcpev.Delivery.Receiving.{IsData-WellFormed}

-- The messages that the server's `recv_cb` got from the client at an address, in order.
unfoldable pub delivered_from : ℕ → Trace → List (List ℕ)
delivered_from a [] = []
delivered_from a (delivers_server (some b) msg ∷ t) =
    if b == a then delivered_from a t ++ (msg ∷ []) else delivered_from a t
delivered_from a (_ ∷ t) = delivered_from a t

-- `server_tcp_recv` of one client for each piece that `recv` gives.
unfoldable pub server_receives : Env → ℕ → List (List ℕ) → Server → Run Server
server_receives e a [] s = ok s
server_receives e a (bytes ∷ pieces) s = elim (server_tcp_recv e a bytes s) [
  | fault ↦ fault
  | ok s' ↦ server_receives e a pieces s'
]

abbrev pub hands_to : ℕ → Server → List ℕ → Server
hands_to a s f = logs_to (delivers_server (some a) (drop header_size f)) s

pub server-Accepts :
    (e : Env)
    → ((t : Trace) → e.getnameinfo t ≡ true)
    → (a : ℕ)
    → Accepts (on_server_recv e (some a)) (hands_to a) (λ (s : Server). s.recv_cb ≡ true) IsData
unfolding server_command server_data
server-Accepts e named a = record {
  well = IsData-WellFormed;
  accepts = λ s f cb d.
      ap (on_server_recv e (some a) s) d.is
      ∙ on_server_recv-packet e (some a) s command_data d.pad d.msg d.padded d.short (named s.calls)
      ∙ ground (arith, cb)
      ∙ ap (λ msg. ok (pos 0, logs_to (delivers_server (some a) msg) s))
          (sym (drop-packet command_data d.pad d.msg d.padded) ∙ ap (drop header_size) (sym d.is));
  stays_fine = λ s f cb d. cb;
}

-- What a server keeps while messages of one client are handed over.
pub record GetsFrom (a : ℕ) (s s' : Server) (msgs : List (List ℕ)) : Type 0 where
  pub recv_cb : s'.recv_cb ≡ s.recv_cb
  pub got : delivered_from a s'.calls ≡ delivered_from a s.calls ++ msgs

pub GetsFrom-trans :
    {a : ℕ} {s s1 s2 : Server} {m n : List (List ℕ)}
    → GetsFrom a s s1 m
    → GetsFrom a s1 s2 n
    → GetsFrom a s s2 (m ++ n)
GetsFrom-trans {a} {s} {m} {n} g h = record {
  recv_cb = h.recv_cb ∙ g.recv_cb;
  got = h.got ∙ ap (λ x. x ++ n) g.got ∙ append_assoc (delivered_from a s.calls) m n;
}

delivered_from-delivers :
    (a : ℕ) (msg : List ℕ) (t : Trace)
    → delivered_from a (delivers_server (some a) msg ∷ t) ≡ delivered_from a t ++ (msg ∷ [])
unfolding delivered_from
delivered_from-delivers a msg t = ground arith

pub acts-GetsFrom :
    (a : ℕ) (s : Server) (fs : List (List ℕ)) → GetsFrom a s (acts (hands_to a) s fs) (messages fs)
unfolding messages
acts-GetsFrom a s [] = record { recv_cb = refl; got = sym (append-nil (delivered_from a s.calls)) }
acts-GetsFrom a s (f ∷ fs) =
    GetsFrom-trans
      (record { recv_cb = refl; got = delivered_from-delivers a (drop header_size f) s.calls })
      (acts-GetsFrom a (hands_to a s f) fs)

pub acts-heap :
    (a : ℕ) (s : Server) (fs : List (List ℕ)) → Server.heap (acts (hands_to a) s fs) ≡ s.heap
acts-heap a s [] = refl
acts-heap a s (f ∷ fs) = acts-heap a (hands_to a s f) fs

abbrev pub ringed : Option Ringbuf → Kcpev → Kcpev
ringed rb c = record c { tcp = record (c.tcp) { rb = rb } }

pub server_tcp_recv-ok :
    (e : Env) (a x : ℕ) (xs : List ℕ) (s s1 : Server) (c : Kcpev) (rb : Option Ringbuf)
    → load a s.heap ≡ some c
    → load a s1.heap ≡ some c
    → tcp_recv
        (on_server_recv e (some a))
        (e.malloc (receives a (x ∷ xs) ∷ s.calls))
        c.tcp.rb
        (logs_to (receives a (x ∷ xs)) s)
        (x ∷ xs)
      ≡ ok (pos 0, rb, s1)
    → server_tcp_recv e a (x ∷ xs) s ≡ ok (record s1 { heap = store a (ringed rb c) s1.heap })
unfolding server_tcp_recv store_rb
server_tcp_recv-ok e a x xs s s1 c rb there still h = ground (arith, there, still, h)
