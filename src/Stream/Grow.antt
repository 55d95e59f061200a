-- ===== src/Stream/Grow.antt =====
-- `on_tcp_recv` when the ring is too full for the bytes: the loop that moves the pending bytes to a
-- larger ring is right, but the larger ring is not kept.
use kcpev.Base.{
  ℕ, zero, suc, ◌+◌, ◌-◌, ◌≤◌, ◌<◌, ◌≡◌, refl, sym, ap, ap₂, subst, ◌∙◌, ◌⊎◌, inl, inr, false,
  Option, some, List, [], ◌∷◌, ◌++◌, append_assoc, append-nil, ◌==◌, length, take, drop,
  length-take, length-drop, length-append, eq-nil_of_length, pos, Run, ok, arith,
}
use kcpev.Ringbuf.{Ringbuf}
use kcpev.Ringbuf
use kcpev.Ringbuf.Layout.{IsValid, contents, length-contents}
use kcpev.Ringbuf.Put.{put_appends, put_refuses}
use kcpev.Ringbuf.Read.{new-IsValid, get_pending_size_lem, get_next_chunk_lem, mark_consumed_lem}
use kcpev.Header.{buffer_size}
use kcpev.Stream.{no_pending, move_chunks, grow, store, store_new, on_tcp_recv}
use kcpev.Stream.Chunk.{Holds}
use kcpev.Stream.Store.{Allocates}

take-append-drop_self {ℓ} :
    {A : Type ℓ} (k : ℕ) (q : List A) → take k q ++ drop (length (take k q)) q ≡ q
take-append-drop_self zero q = refl
take-append-drop_self (suc k) [] = refl
take-append-drop_self (suc k) (x ∷ q) = ap (◌∷◌ x) (take-append-drop_self k q)

move_chunks_step :
    (fuel : ℕ) (r new_r s t : Ringbuf) (x : ℕ) (xs : List ℕ)
    → Ringbuf.get_next_chunk r ≡ ok (x ∷ xs)
    → Ringbuf.put new_r (x ∷ xs) ≡ ok (pos 0, t)
    → Ringbuf.mark_consumed r (length (x ∷ xs)) ≡ ok s
    → move_chunks (suc fuel) r new_r ≡ move_chunks fuel s t
unfolding move_chunks
move_chunks_step fuel r new_r s t x xs e f g = ground arith

-- One round of the loop: it moves the next chunk, and neither loses nor reorders bytes.
record Round (r new_r : Ringbuf) : Type 0 where
  old : Ringbuf
  new : Ringbuf
  steps : (fuel : ℕ) → move_chunks (suc fuel) r new_r ≡ move_chunks fuel old new
  old_valid : IsValid old
  new_valid : IsValid new
  old_sized : old.n ≡ r.n
  new_sized : new.n ≡ new_r.n
  fewer : length (contents old) < length (contents r)
  same : contents new ++ contents old ≡ contents new_r ++ contents r

move_chunks-Round :
    (x : ℕ) (xs : List ℕ) {r new_r : Ringbuf}
    → IsValid r
    → IsValid new_r
    → length (contents new_r) + length (contents r) ≤ new_r.n
    → take (r.n - r.o) (contents r) ≡ x ∷ xs
    → Round r new_r
move_chunks-Round x xs {r} {new_r} v w fits e =
    let long = ap length e in
    let took = length-take (r.n - r.o) (contents r) in
    let (t, p, wt, ct, nt) =
      put_appends (x ∷ xs) w (omega (arith, long, took, length-contents w)) in
    let (s, p', vs, cs, ns) =
      (mark_consumed_lem (length (x ∷ xs)) v).0 (omega (arith, long, took, length-contents v)) in
    let whole : (x ∷ xs) ++ drop (length (x ∷ xs)) (contents r) ≡ contents r =
      subst (λ c. c ++ drop (length c) (contents r) ≡ contents r) e
        (take-append-drop_self (r.n - r.o) (contents r)) in
    record {
      old = s;
      new = t;
      steps = λ fuel. move_chunks_step fuel r new_r s t x xs (get_next_chunk_lem v ∙ ap ok e) p p';
      old_valid = vs;
      new_valid = wt;
      old_sized = ns;
      new_sized = nt;
      fewer = omega (arith, ap length cs, length-drop (length (x ∷ xs)) (contents r), long, took);
      same =
          ap₂ ◌++◌ ct cs
          ∙ append_assoc (contents new_r) (x ∷ xs) (drop (length (x ∷ xs)) (contents r))
          ∙ ap (◌++◌ (contents new_r)) whole;
    }

-- A round happens unless nothing is pending.
next_or_nothing :
    {r new_r : Ringbuf}
    → IsValid r
    → IsValid new_r
    → length (contents new_r) + length (contents r) ≤ new_r.n
    → (contents r ≡ []) ⊎ Round r new_r
next_or_nothing {r} {new_r} v w fits = go (take (r.n - r.o) (contents r)) refl
  where
    go :
        (chunk : List ℕ) → take (r.n - r.o) (contents r) ≡ chunk → (contents r ≡ []) ⊎ Round r new_r
    go [] e = inl (
        eq-nil_of_length (contents r)
          (omega (arith, ap length e, length-take (r.n - r.o) (contents r), v.output_in)))
    go (x ∷ xs) e = inr (move_chunks-Round x xs v w fits e)

move_chunks_end :
    (fuel : ℕ) {r : Ringbuf} (new_r : Ringbuf)
    → IsValid r
    → contents r ≡ []
    → move_chunks (suc fuel) r new_r ≡ ok (r, some new_r)
unfolding move_chunks
move_chunks_end fuel {r} new_r v e =
    let chunk : take (r.n - r.o) (contents r) ≡ [] =
      eq-nil_of_length (take (r.n - r.o) (contents r))
        (omega (arith, ap length e, length-take (r.n - r.o) (contents r))) in
    rw (get_next_chunk_lem v, chunk)

-- The loop ends with every pending byte in the new ring, in order, and the old one empty.
record Moved (n : ℕ) (q : List ℕ) (m : Run (Ringbuf × Option Ringbuf)) : Type 0 where
  old : Ringbuf
  new : Ringbuf
  returns : m ≡ ok (old, some new)
  old_valid : IsValid old
  old_empty : contents old ≡ []
  old_sized : old.n ≡ n
  new_valid : IsValid new
  new_holds : contents new ≡ q

move_chunks-Moved :
    (fuel : ℕ) {r new_r : Ringbuf}
    → IsValid r
    → IsValid new_r
    → length (contents r) < fuel
    → length (contents new_r) + length (contents r) ≤ new_r.n
    → Moved r.n (contents new_r ++ contents r) (move_chunks fuel r new_r)
move_chunks-Moved zero v w h fits = absurd (omega arith)
move_chunks-Moved (suc fuel) {r} {new_r} v w h fits = elim (next_or_nothing v w fits) [
  | inl nothing ↦ record {
    old = r;
    new = new_r;
    returns = move_chunks_end fuel new_r v nothing;
    old_valid = v;
    old_empty = nothing;
    old_sized = refl;
    new_valid = w;
    new_holds = rw nothing (sym (append-nil (contents new_r)));
  }
  | inr m ↦
      let rest =
        move_chunks-Moved fuel {r = m.old} {new_r = m.new} m.old_valid m.new_valid
          (omega (arith, h, m.fewer))
          (omega (
            arith,
            fits,
            m.new_sized,
            ap length m.same,
            length-append (contents m.new) (contents m.old),
            length-append (contents new_r) (contents r),
          )) in
      record {
        old = rest.old;
        new = rest.new;
        returns = m.steps fuel ∙ rest.returns;
        old_valid = rest.old_valid;
        old_empty = rest.old_empty;
        old_sized = rest.old_sized ∙ m.old_sized;
        new_valid = rest.new_valid;
        new_holds = rest.new_holds ∙ m.same;
      }
]

-- When a connection's ring cannot take the bytes of a `recv`, at most 65,536, beside those it holds,
-- and `malloc` succeeds, `on_tcp_recv` returns 0, no error, and the ring is left empty: both the
-- pending bytes and the new ones are lost.
pub on_tcp_recv_overflow :
    (alloc : ℕ → Option (List ℕ)) (r : Ringbuf) (q bytes : List ℕ)
    → Allocates alloc
    → Holds (some r) q
    → length bytes ≤ buffer_size
    → buffer_size < length q + length bytes
    → (r' : Ringbuf) × (on_tcp_recv alloc (some r) bytes ≡ ok (0, some r')) × Holds (some r') []
unfolding on_tcp_recv no_pending store_new store grow
on_tcp_recv_overflow alloc r q bytes a (v, c, s) small over =
    let (m, am, lm) = a (r.n + buffer_size) in
    let (t, e, w, ct, nt) = new-IsValid m (r.n + buffer_size) (omega arith) (omega (arith, s)) lm in
    let full = put_refuses bytes v (omega (arith, length-contents v, ap length c)) in
    let moved =
      move_chunks-Moved (r.u + 1) v w (omega (arith, length-contents v))
        (omega (arith, ap length ct, length-contents v, nt, v)) in
    let busy : (Ringbuf.get_pending_size r == 0) ≡ false =
      ground (arith, get_pending_size_lem v, ap length c) in
    (
      moved.old,
      ground (arith, busy, full, am, e, moved.returns),
      (moved.old_valid, moved.old_empty, moved.old_sized ∙ s),
    )
