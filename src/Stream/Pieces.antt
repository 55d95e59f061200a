-- ===== src/Stream/Pieces.antt =====
-- A stream of packets against the packet loop: what the loop hands over when a piece of the stream
-- has come, for any handler that accepts the packets.
use kcpev.Base.{
  ℕ, zero, suc, ◌+◌, ◌≤◌, ◌<◌, ◌≡◌, refl, sym, ap, subst, ◌∙◌, Option, List, [], ◌∷◌, ◌++◌,
  append_assoc, append-nil, length, length-append, take-append, take-append_left, drop-append,
  eq-nil_of_length, ℤ, pos, Run, ok, arith,
}
use native.Mathlib.Decide.{dec_le}
use kcpev.Ringbuf.{Ringbuf}
use kcpev.Header.{header_size, buffer_size, header_from_net}
use kcpev.Header.Parsing.{header_from_net-take}
use kcpev.Stream.{tcp_recv}
use kcpev.Stream.Chunk.{Holds, next_packet, next_packet-few, next_packet-some}
use kcpev.Stream.Store.{Allocates}
use kcpev.Stream.Frames.{packet_loop, packets, packet_loop-done, WellFormed}
use kcpev.Stream.Refine.{Follows, tcp_recv_refines}

abbrev pub flat : List (List ℕ) → List ℕ
flat [] = []
flat (f ∷ fs) = f ++ flat fs

abbrev pub AllAre : (List ℕ → Type 0) → List (List ℕ) → Type 0
AllAre P [] = Unit {0}
AllAre P (f ∷ fs) = P f × AllAre P fs

abbrev pub AllAtMost : ℕ → List (List ℕ) → Type 0
AllAtMost n [] = Unit {0}
AllAtMost n (f ∷ fs) = (length f ≤ n) × AllAtMost n fs

pub AllAre-right : (P : List ℕ → Type 0) (fs gs : List (List ℕ)) → AllAre P (fs ++ gs) → AllAre P gs
AllAre-right P [] gs w = w
AllAre-right P (f ∷ fs) gs w = AllAre-right P fs gs w.1

AllAre-left : (P : List ℕ → Type 0) (fs gs : List (List ℕ)) → AllAre P (fs ++ gs) → AllAre P fs
AllAre-left P [] gs w = tt
AllAre-left P (f ∷ fs) gs w = (w.0, AllAre-left P fs gs w.1)

pub AllAtMost-right : (n : ℕ) (fs gs : List (List ℕ)) → AllAtMost n (fs ++ gs) → AllAtMost n gs
AllAtMost-right n [] gs w = w
AllAtMost-right n (f ∷ fs) gs w = AllAtMost-right n fs gs w.1

-- Equal streams that start with `a` and with the shorter `b`.
prefix_of_append :
    (a b c d : List ℕ)
    → a ++ c ≡ b ++ d
    → length b ≤ length a
    → (rest : List ℕ) × (a ≡ b ++ rest) × (rest ++ c ≡ d)
prefix_of_append a [] c d e h = (a, refl, e)
prefix_of_append [] (y ∷ b) c d e h = absurd (omega arith)
prefix_of_append (x ∷ a) (y ∷ b) c d e h =
    let (rest, f, g) = prefix_of_append a b c d (cc) (omega arith) in (rest, cc, g)

header_from_net-append :
    (p rest : List ℕ) → header_size ≤ length p → header_from_net (p ++ rest) ≡ header_from_net p
header_from_net-append p rest h =
    sym (header_from_net-take (p ++ rest) (omega (arith, length-append p rest)))
    ∙ ap header_from_net (take-append_left header_size p rest h)
    ∙ header_from_net-take p h

-- The first packet of a stream that starts with a well-formed one.
next_packet-WellFormed : (f rest : List ℕ) → WellFormed f → next_packet (f ++ rest) ≡ f
next_packet-WellFormed f rest w =
    next_packet-some (f ++ rest) w.header (omega (arith, length-append f rest, w.long))
      (header_from_net-append f rest w.long ∙ w.reads)
    ∙ ground (arith, w, length-append f rest, take-append w.header.size f rest w.sized)

-- A proper piece of a well-formed packet is no packet.
next_packet-piece :
    (p rest : List ℕ) → WellFormed (p ++ rest) → 0 < length rest → next_packet p ≡ []
next_packet-piece p rest w h = elim (dec_le header_size (length p)) [
  | yes big ↦
      next_packet-some p w.header big (sym (header_from_net-append p rest big) ∙ w.reads)
      ∙ ground (arith, w, length-append p rest)
  | no few ↦ next_packet-few p (omega arith)
]

-- A handler that accepts every good packet in a fine state, where its effect is `act`.
pub record Accepts {S : Type 0} (handle : S → List ℕ → Run (ℤ × S)) (act : S → List ℕ → S)
    (Fine : S → Type 0) (Good : List ℕ → Type 0) : Type 0 where
  pub well : (f : List ℕ) → Good f → WellFormed f
  pub accepts : (s : S) (f : List ℕ) → Fine s → Good f → handle s f ≡ ok (pos 0, act s f)
  pub stays_fine : (s : S) (f : List ℕ) → Fine s → Good f → Fine (act s f)

abbrev pub acts : {S : Type 0} → (S → List ℕ → S) → S → List (List ℕ) → S
acts act s [] = s
acts act s (f ∷ fs) = acts act (act s f) fs

pub acts-append :
    {S : Type 0} (act : S → List ℕ → S) (s : S) (fs gs : List (List ℕ))
    → acts act s (fs ++ gs) ≡ acts act (acts act s fs) gs
acts-append act s [] gs = refl
acts-append act s (f ∷ fs) gs = acts-append act (act s f) fs gs

-- What the loop does with the start `q` of a stream of packets: it hands over those that are whole.
pub record Parsed {S : Type 0} (act : S → List ℕ → S) (bound : ℕ) (fs : List (List ℕ)) (s : S)
    (t : List ℕ) (m : Run (ℤ × List ℕ × S)) : Type 0 where
  pub done : List (List ℕ)
  pub todo : List (List ℕ)
  pub rest : List ℕ
  pub split : fs ≡ done ++ todo
  pub returns : m ≡ ok (pos 0, rest, acts act s done)
  pub goes_on : rest ++ t ≡ flat todo
  pub short : length rest < bound
  pub stopped : next_packet rest ≡ []

-- A stream that ends at a place where the loop stops has ended.
pub ended :
    (fs : List (List ℕ)) (q : List ℕ)
    → AllAre WellFormed fs
    → next_packet q ≡ []
    → q ++ [] ≡ flat fs
    → (fs ≡ []) × (q ≡ [])
ended [] q w e k = (refl, sym (append-nil q) ∙ k)
ended (f ∷ fs) q w e k =
    let z : f ≡ [] =
      sym (next_packet-WellFormed f (flat fs) w.0) ∙ ap next_packet (sym k ∙ append-nil q) ∙ e in
    absurd (omega (arith, ap length z, w.0.long))

module _ {S : Type 0} (handle : S → List ℕ → Run (ℤ × S)) (act : S → List ℕ → S) (Fine : S → Type 0)
    (Good : List ℕ → Type 0) (a : Accepts handle act Fine Good) where
  packet_loop-accepts :
      (fuel : ℕ) (f rest : List ℕ) (s : S)
      → Fine s
      → Good f
      → packet_loop handle (suc fuel) (f ++ rest) s ≡ packet_loop handle fuel rest (act s f)
  unfolding packet_loop
  packet_loop-accepts fuel [] rest s i g = absurd (omega (arith, (a.well [] g).long))
  packet_loop-accepts fuel (x ∷ xs) rest s i g =
      let e = next_packet-WellFormed (x ∷ xs) rest (a.well (x ∷ xs) g) in
      let d = drop-append (length (x ∷ xs)) (x ∷ xs) rest (omega arith) in
      ground (arith, e, d, a.accepts s (x ∷ xs) i g)

  pub acts-Fine : (s : S) (fs : List (List ℕ)) → Fine s → AllAre Good fs → Fine (acts act s fs)
  acts-Fine s [] i g = i
  acts-Fine s (f ∷ fs) i g = acts-Fine (act s f) fs (a.stays_fine s f i g.0) g.1

  module _ (bound : ℕ) (positive : 0 < bound) where
    stops :
        (fuel : ℕ) (q t : List ℕ) (fs : List (List ℕ)) (s : S)
        → next_packet q ≡ []
        → q ++ t ≡ flat fs
        → length q < bound
        → Parsed act bound fs s t (packet_loop handle (suc fuel) q s)
    stops fuel q t fs s e k small = record {
      done = [];
      todo = fs;
      rest = q;
      split = refl;
      returns = packet_loop-done handle fuel q s e;
      goes_on = k;
      short = small;
      stopped = e;
    }

    packet_loop-Parsed :
        (fuel : ℕ) (fs : List (List ℕ)) (q t : List ℕ) (s : S)
        → Fine s
        → AllAre Good fs
        → AllAtMost bound fs
        → q ++ t ≡ flat fs
        → length q < fuel
        → Parsed act bound fs s t (packet_loop handle fuel q s)
    packet_loop-Parsed zero fs q t s i w b e h = absurd (omega arith)
    packet_loop-Parsed (suc fuel) [] q t s i w b e h =
        let z : q ≡ [] = eq-nil_of_length q (omega (arith, ap length e, length-append q t)) in
        stops fuel q t [] s (ap next_packet z ∙ next_packet-few [] (omega arith)) e
          (omega (arith, ap length z))
    packet_loop-Parsed (suc fuel) (f ∷ fs) q t s i w b e h =
        let well = a.well f w.0 in
        elim (dec_le (length f) (length q)) [
          | yes whole ↦
              let (rest, x, y) = prefix_of_append q f t (flat fs) e whole in
              let m =
                packet_loop-Parsed fuel fs rest t (act s f) (a.stays_fine s f i w.0) w.1 b.1 y
                  (omega (arith, ap length x, length-append f rest, well.long)) in
              record {
                done = f ∷ m.done;
                todo = m.todo;
                rest = m.rest;
                split = ap (◌∷◌ f) m.split;
                returns =
                    ap (λ z. packet_loop handle (suc fuel) z s) x
                    ∙ packet_loop-accepts fuel f rest s i w.0
                    ∙ m.returns;
                goes_on = m.goes_on;
                short = m.short;
                stopped = m.stopped;
              }
          | no part ↦
              let (rest, x, y) = prefix_of_append f q (flat fs) t (sym e) (omega arith) in
              stops fuel q t (f ∷ fs) s
                (next_packet-piece q rest (subst WellFormed x well)
                  (omega (arith, ap length x, length-append q rest)))
                e (omega (arith, b.0))
        ]

    -- One `recv` of a stream of packets, of which `q` is pending.
    pub tcp_recv-Parsed :
        (alloc : ℕ → Option (List ℕ)) (rb : Option Ringbuf) (q bytes t : List ℕ)
        (fs : List (List ℕ)) (s : S)
        → Fine s
        → Allocates alloc
        → AllAre Good fs
        → AllAtMost bound fs
        → Holds rb q
        → length q + length bytes ≤ buffer_size
        → q ++ (bytes ++ t) ≡ flat fs
        → (rb' : Option Ringbuf) × (p : Parsed act bound fs s t (packets handle (q ++ bytes) s))
          × (tcp_recv handle alloc rb s bytes ≡ ok (pos 0, rb', acts act s p.done))
          × Holds rb' p.rest
    unfolding packets
    tcp_recv-Parsed alloc rb q bytes t fs s i al w b h room k =
        let m =
          packet_loop-Parsed (length (q ++ bytes) + 1) fs (q ++ bytes) t s i w b
            (append_assoc q bytes t ∙ k) (omega arith) in
        let (rb', f, h') =
          subst (λ x. Follows x (tcp_recv handle alloc rb s bytes)) m.returns
            (tcp_recv_refines handle alloc rb q bytes s al h room) in
        (rb', m, f, h')
