-- ===== src/Delivery/Receiving.antt =====
-- `recv_cb` under `client_tcp_recv`.
use kcpev.Base.{
  ℕ, ◌+◌, ◌^◌, ◌≤◌, ◌<◌, ◌≡◌, refl, sym, ap, subst, ◌∙◌, true, Option, List, [], ◌∷◌, ◌++◌,
  append_assoc, append-nil, length, drop, pos, ok, arith,
}
use kcpev.Ringbuf.{Ringbuf}
use kcpev.Header.{header_size, buffer_size}
use kcpev.Header.Packing.{packet, length-packet, drop-packet}
use kcpev.Stream.{tcp_recv}
use kcpev.Stream.Chunk.{Holds, next_packet}
use kcpev.Stream.Store.{Allocates}
use kcpev.Stream.Frames.{WellFormed}
use kcpev.Stream.Pieces.{
  flat, AllAre, AllAtMost, AllAre-right, AllAtMost-right, Accepts, acts, ended, tcp_recv-Parsed,
}
use kcpev.Conn.{command_data, delivers, receives, Trace, Env, World}
use kcpev.Client.{on_client_recv, client_tcp_recv}
use kcpev.Client.Data.{header_from_net-alone, on_client_recv-data}
use kcpev.Delivery.{delivered, exited, client_receives, IsData, messages}

packet-WellFormed :
    (pad msg : List ℕ)
    → length pad ≡ 3
    → length msg + header_size < 2 ^ 32
    → WellFormed (packet command_data pad msg)
packet-WellFormed pad msg f h = record {
  header = record { size = length msg + header_size; command = command_data };
  reads = header_from_net-alone command_data pad msg f h;
  sized = sym (length-packet command_data pad msg f);
  long = omega (arith, length-packet command_data pad msg f);
}

abbrev pub hands_over : World → List ℕ → World
hands_over w f = record w { calls = delivers w.me.self (drop header_size f) ∷ w.calls }

pub client-Accepts :
    (e : Env) → Accepts (on_client_recv e) hands_over (λ (w : World). w.me.recv_cb ≡ true) IsData
client-Accepts e = record {
  well = λ f d. subst WellFormed (sym d.is) (packet-WellFormed d.pad d.msg d.padded d.short);
  accepts = λ w f cb d.
      ap (on_client_recv e w) d.is
      ∙ on_client_recv-data e w d.pad d.msg cb d.padded d.short
      ∙ ap (λ msg. ok (pos 0, record w { calls = delivers w.me.self msg ∷ w.calls }))
          (sym (drop-packet command_data d.pad d.msg d.padded) ∙ ap (drop header_size) (sym d.is));
  stays_fine = λ w f cb d. cb;
}

-- What a world keeps while messages are handed over.
pub record Gets (w w' : World) (msgs : List (List ℕ)) : Type 0 where
  pub recv_cb : w'.me.recv_cb ≡ w.me.recv_cb
  pub got : delivered w'.calls ≡ delivered w.calls ++ msgs
  pub runs : exited w'.calls ≡ exited w.calls

pub Gets-trans :
    {w w1 w2 : World} {a b : List (List ℕ)} → Gets w w1 a → Gets w1 w2 b → Gets w w2 (a ++ b)
Gets-trans {w} {a} {b} g h = record {
  recv_cb = h.recv_cb ∙ g.recv_cb;
  got = h.got ∙ ap (λ x. x ++ b) g.got ∙ append_assoc (delivered w.calls) a b;
  runs = h.runs ∙ g.runs;
}

acts-Gets : (w : World) (fs : List (List ℕ)) → Gets w (acts hands_over w fs) (messages fs)
unfolding delivered exited messages
acts-Gets w [] = record { recv_cb = refl; got = sym (append-nil (delivered w.calls)); runs = refl }
acts-Gets w (f ∷ fs) =
    let one : Gets w (hands_over w f) (drop header_size f ∷ []) = record {
      recv_cb = refl;
      got = refl;
      runs = refl;
    } in
    Gets-trans one (acts-Gets (hands_over w f) fs)

pub messages-append : (fs gs : List (List ℕ)) → messages (fs ++ gs) ≡ messages fs ++ messages gs
unfolding messages
messages-append [] gs = refl
messages-append (f ∷ fs) gs = ap (◌∷◌ (drop header_size f)) (messages-append fs gs)

-- `recv` gave these bytes, and the ring is to be `rb` behind them.
abbrev with_ring : Option Ringbuf → World → World
with_ring rb w = record w { me = record (w.me) { tcp = record (w.me.tcp) { rb = rb } } }

abbrev got_bytes : List ℕ → World → World
got_bytes bytes w = record w { calls = receives w.me.self bytes ∷ w.calls }

client_tcp_recv-ok :
    (e : Env) (x : ℕ) (xs : List ℕ) (w w' : World) (rb : Option Ringbuf)
    → tcp_recv
        (on_client_recv e)
        (e.malloc (receives w.me.self (x ∷ xs) ∷ w.calls))
        w.me.tcp.rb
        (got_bytes (x ∷ xs) w)
        (x ∷ xs)
      ≡ ok (pos 0, rb, w')
    → client_tcp_recv e (x ∷ xs) w ≡ ok (with_ring rb w')
unfolding client_tcp_recv
client_tcp_recv-ok e x xs w w' rb h = ground (arith, h)

receives-step :
    (e : Env) (bytes : List ℕ) (pieces : List (List ℕ)) (w w1 : World)
    → client_tcp_recv e bytes w ≡ ok w1
    → client_receives e (bytes ∷ pieces) w ≡ client_receives e pieces w1
unfolding client_receives
receives-step e bytes pieces w w1 h = rw (h, client_receives)

pub IsData-WellFormed : (f : List ℕ) → IsData f → WellFormed f
IsData-WellFormed f d = subst WellFormed (sym d.is) (packet-WellFormed d.pad d.msg d.padded d.short)

pub AllAre-WellFormed : (fs : List (List ℕ)) → AllAre IsData fs → AllAre WellFormed fs
AllAre-WellFormed [] d = tt
AllAre-WellFormed (f ∷ fs) d = (IsData-WellFormed f d.0, AllAre-WellFormed fs d.1)

abbrev pub AllPieces : ℕ → List (List ℕ) → Type 0
AllPieces most = AllAre (λ bytes. (0 < length bytes) × (length bytes ≤ most))

module _ (e : Env) (alloc : (t : Trace) → Allocates (e.malloc t)) (bound most : ℕ)
    (positive : 0 < bound) (room : bound + most ≤ buffer_size + 1) where
  pub client_receives-Gets :
      (pieces fs : List (List ℕ)) (w : World) (q : List ℕ)
      → w.me.recv_cb ≡ true
      → AllPieces most pieces
      → AllAre IsData fs
      → AllAtMost bound fs
      → Holds w.me.tcp.rb q
      → length q < bound
      → next_packet q ≡ []
      → q ++ flat pieces ≡ flat fs
      → (w' : World) × (client_receives e pieces w ≡ ok w')
        × Gets w w' (messages fs)
        × Holds w'.me.tcp.rb []
  unfolding client_receives delivered exited
  client_receives-Gets [] fs w q cb n d b h small stop k =
      let (z, y) = ended fs q (AllAre-WellFormed fs d) stop k in
      (
        w,
        refl,
        subst (Gets w w) (ap messages (sym z)) (acts-Gets w []),
        subst (Holds w.me.tcp.rb) y h,
      )
  client_receives-Gets ([] ∷ pieces) fs w q cb n d b h small stop k = absurd (omega (arith, n.0.0))
  client_receives-Gets ((x ∷ xs) ∷ pieces) fs w q cb n d b h small stop k =
      let got = got_bytes (x ∷ xs) w in
      let (rb, m, f, h') =
        tcp_recv-Parsed (on_client_recv e) hands_over (λ (v : World). v.me.recv_cb ≡ true) IsData
          (client-Accepts e) bound positive (e.malloc got.calls) w.me.tcp.rb q (x ∷ xs)
          (flat pieces) fs got cb (alloc got.calls) d b h (omega (arith, n.0.1)) k in
      let w1 = acts hands_over got m.done in
      let g1 : Gets got w1 (messages m.done) = acts-Gets got m.done in
      let g2 : Gets w (with_ring rb w1) (messages m.done) = record {
        recv_cb = g1.recv_cb;
        got = g1.got;
        runs = g1.runs;
      } in
      let (w', r, g3, h'') =
        client_receives-Gets pieces m.todo (with_ring rb w1) m.rest (g2.recv_cb ∙ cb) n.1
          (AllAre-right IsData m.done m.todo (subst (AllAre IsData) m.split d))
          (AllAtMost-right bound m.done m.todo (subst (AllAtMost bound) m.split b)) h' m.short
          m.stopped m.goes_on in
      (
        w',
        receives-step e (x ∷ xs) pieces w (with_ring rb w1) (client_tcp_recv-ok e x xs w w1 rb f)
            ∙ r,
        subst (Gets w w') (sym (messages-append m.done m.todo) ∙ ap messages (sym m.split))
            (Gets-trans g2 g3),
        h'',
      )
