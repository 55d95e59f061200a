-- ===== src/Stream/Segments.antt =====
-- The packets of a TCP stream arrive whole and in order however the stream is cut into pieces.
use kcpev.Base.{
  ℕ, ◌+◌, ◌≤◌, ◌<◌, ◌≡◌, refl, sym, ap, subst, ◌∙◌, true, false, Option, none, List, [], ◌∷◌, ◌++◌,
  append_assoc, append-nil, length, ℤ, pos, int_eq, Run, ok, ◌>>=◌, arith,
}
use kcpev.Ringbuf.{Ringbuf}
use kcpev.Header.{buffer_size}
use kcpev.Stream.{tcp_recv}
use kcpev.Stream.Chunk.{Holds, next_packet, next_packet-few}
use kcpev.Stream.Store.{Allocates}
use kcpev.Stream.Frames.{WellFormed}
use kcpev.Stream.Pieces.{
  flat, AllAre, AllAtMost, AllAre-right, AllAtMost-right, Accepts, acts, ended, tcp_recv-Parsed,
}

-- A handler that accepts every packet and logs it.
abbrev pub log : List (List ℕ) → List ℕ → Run (ℤ × List (List ℕ))
log seen packet = ok (pos 0, seen ++ (packet ∷ []))

abbrev logged : List (List ℕ) → List ℕ → List (List ℕ)
logged seen packet = seen ++ (packet ∷ [])

log-Accepts : Accepts log logged (λ seen. Unit {0}) WellFormed
log-Accepts = record {
  well = λ f w. w;
  accepts = λ seen f i w. refl;
  stays_fine = λ seen f i w. tt;
}

acts-logged : (seen fs : List (List ℕ)) → acts logged seen fs ≡ seen ++ fs
acts-logged seen [] = sym (append-nil seen)
acts-logged seen (f ∷ fs) = acts-logged (seen ++ (f ∷ [])) fs ∙ append_assoc seen (f ∷ []) fs

-- The connection over the pieces that `recv` gives, with the ring from one to the next; it ends at
-- an error. `allocs` is `malloc` at each piece.
pub receive :
    List ((ℕ → Option (List ℕ)) × List ℕ)
    → Option Ringbuf
    → List (List ℕ)
    → Run (ℤ × Option Ringbuf × List (List ℕ))
receive [] rb seen = ok (pos 0, rb, seen)
receive ((alloc, bytes) ∷ pieces) rb seen = do
  (ret, rb', seen') ← tcp_recv log alloc rb seen bytes
  elim (int_eq ret (pos 0)) [ true ↦ receive pieces rb' seen' | false ↦ ok (ret, rb', seen') ]

abbrev pub stream_of : List ((ℕ → Option (List ℕ)) × List ℕ) → List ℕ
stream_of [] = []
stream_of ((_, bytes) ∷ pieces) = bytes ++ stream_of pieces

abbrev pub AllReceivable : ℕ → List ((ℕ → Option (List ℕ)) × List ℕ) → Type 0
AllReceivable n [] = Unit {0}
AllReceivable n ((alloc, bytes) ∷ pieces) =
    Allocates alloc × (length bytes ≤ n) × AllReceivable n pieces

receive-step :
    (alloc : ℕ → Option (List ℕ)) (bytes : List ℕ) (pieces : List ((ℕ → Option (List ℕ)) × List ℕ))
    (rb rb' : Option Ringbuf) (seen seen' : List (List ℕ))
    → tcp_recv log alloc rb seen bytes ≡ ok (pos 0, rb', seen')
    → receive ((alloc, bytes) ∷ pieces) rb seen ≡ receive pieces rb' seen'
unfolding receive
receive-step alloc bytes pieces rb rb' seen seen' e = rw (e, receive)

module _ (bound most : ℕ) (positive : 0 < bound) (room : bound + most ≤ buffer_size + 1) where
  receive_all :
      (pieces : List ((ℕ → Option (List ℕ)) × List ℕ)) (fs seen : List (List ℕ))
      (rb : Option Ringbuf) (q : List ℕ)
      → AllReceivable most pieces
      → AllAre WellFormed fs
      → AllAtMost bound fs
      → Holds rb q
      → length q < bound
      → next_packet q ≡ []
      → q ++ stream_of pieces ≡ flat fs
      → (rb' : Option Ringbuf) × (receive pieces rb seen ≡ ok (pos 0, rb', seen ++ fs))
        × Holds rb' []
  unfolding receive
  receive_all [] fs seen rb q a w b h small e k =
      let (z, y) = ended fs q w e k in
      (
        rb,
        ap (λ x. ok (pos 0, rb, x)) (sym (append-nil seen) ∙ ap (◌++◌ seen) (sym z)),
        subst (Holds rb) y h,
      )
  receive_all ((alloc, bytes) ∷ pieces) fs seen rb q a w b h small e k =
      let (rb', m, f, h') =
        tcp_recv-Parsed log logged (λ x. Unit {0}) WellFormed log-Accepts bound positive alloc rb q
          bytes (stream_of pieces) fs seen tt a.0 w b h (omega (arith, a.1)) k in
      let (rb'', g, h'') =
        receive_all pieces m.todo (seen ++ m.done) rb' m.rest a.2
          (AllAre-right WellFormed m.done m.todo (subst (AllAre WellFormed) m.split w))
          (AllAtMost-right bound m.done m.todo (subst (AllAtMost bound) m.split b)) h' m.short
          m.stopped m.goes_on in
      (
        rb'',
        receive-step alloc bytes pieces rb rb' seen (seen ++ m.done)
              (f ∙ ap (λ x. ok (pos 0, rb', x)) (acts-logged seen m.done))
            ∙ g
            ∙ ap (λ x. ok (pos 0, rb'', x))
                (append_assoc seen m.done m.todo ∙ ap (◌++◌ seen) (sym m.split)),
        h'',
      )

-- However a stream of well-formed packets is cut into pieces, a new connection hands over exactly
-- those packets, in order, and ends with nothing pending: if the packets have at most `bound` bytes
-- and the pieces at most `most`, with `bound + most` at most one more than the size of the ring,
-- and `malloc` succeeds.
pub receive_stream :
    (bound most : ℕ) (pieces : List ((ℕ → Option (List ℕ)) × List ℕ)) (fs : List (List ℕ))
    → 0 < bound
    → bound + most ≤ buffer_size + 1
    → AllReceivable most pieces
    → AllAre WellFormed fs
    → AllAtMost bound fs
    → stream_of pieces ≡ flat fs
    → (rb : Option Ringbuf) × (receive pieces none [] ≡ ok (pos 0, rb, fs)) × Holds rb []
receive_stream bound most pieces fs p r a w b k =
    receive_all bound most p r pieces fs [] none [] a w b refl p (next_packet-few [] (omega arith))
      k
