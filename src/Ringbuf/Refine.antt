-- ===== src/Ringbuf/Refine.antt =====
-- The ring as a bounded queue of bytes: a client cannot tell the two apart by any sequence of calls.
use kcpev.Base.{
  ℕ, ◌-◌, ◌≡◌, refl, sym, ap, subst, inl, inr, Bool-cases, Option, none, some, List, [], ◌∷◌, ◌++◌,
  length, take, drop, ltb, if◌then◌else◌, ℤ, pos, minus_one, Run, ok, fault, ◌>>=◌, arith,
}
use kcpev.Ringbuf.Layout.{IsValid, contents, length-contents}
use kcpev.Ringbuf.Put.{put_appends, put_refuses}
use kcpev.Ringbuf.Read.{copy_data_lem, mark_consumed_lem, clear-IsValid}
use kcpev.Ringbuf.{Ringbuf, put, get_pending_size, mark_consumed, clear, copy_data}

-- A client's calls, and what it sees of each.
pub data Op : Type 0 where
  puts : List ℕ → Op
  consumes : ℕ → Op
  copies : ℕ → Op
  measures : Op
  clears : Op

pub data Reply : Type 0 where
  status : ℤ → Reply
  bytes : Option (List ℕ) → Reply
  size : ℕ → Reply
  done : Reply

pub step : Ringbuf → Op → Run (Reply × Ringbuf)
step r (puts bs) = do (code, r') ← put r bs; ok (status code, r')
step r (consumes len) = do r' ← mark_consumed r len; ok (done, r')
step r (copies len) = do out ← copy_data r len; ok (bytes out, r)
step r measures = ok (size (get_pending_size r), r)
step r clears = ok (done, clear r)

pub run : Ringbuf → List Op → Run (List Reply)
run r [] = ok []
run r (op ∷ ops) = do (a, r') ← step r op; rest ← run r' ops; ok (a ∷ rest)

-- The specification: a queue of at most `cap` bytes, oldest first.
module _ (cap : ℕ) where
  pub queue_step : List ℕ → Op → Run (Reply × List ℕ)
  queue_step q (puts bs) =
      if ltb (cap - length q) (length bs)
      then ok (status minus_one, q)
      else ok (status (pos 0), q ++ bs)
  queue_step q (consumes len) = if ltb (length q) len then fault else ok (done, drop len q)
  queue_step q (copies len) = ok (bytes (if ltb (length q) len then none else some (take len q)), q)
  queue_step q measures = ok (size (length q), q)
  queue_step q clears = ok (done, [])

  pub queue_run : List ℕ → List Op → Run (List Reply)
  queue_run q [] = ok []
  queue_run q (op ∷ ops) = do (a, q') ← queue_step q op; rest ← queue_run q' ops; ok (a ∷ rest)

-- One call gives the reply of the queue, and a valid ring of the same size that holds its bytes.
record Follows (n : ℕ) (a : Reply) (q : List ℕ) (m : Run (Reply × Ringbuf)) : Type 0 where
  next : Ringbuf
  returns : m ≡ ok (a, next)
  valid : IsValid next
  holds : contents next ≡ q
  sized : next.n ≡ n

abbrev Agrees : ℕ → Run (Reply × List ℕ) → Run (Reply × Ringbuf) → Type 0
Agrees n (ok (a, q)) m = Follows n a q m
Agrees n fault m = m ≡ fault

size-clear : (r : Ringbuf) → (clear r).n ≡ r.n
unfolding clear
size-clear r = refl

-- The calls whose outcome depends on the state.
module _ {r : Ringbuf} (v : IsValid r) where
  puts-Agrees :
      (bs : List ℕ) → Agrees r.n (queue_step r.n (contents r) (puts bs)) (step r (puts bs))
  unfolding step queue_step
  puts-Agrees bs = elim (Bool-cases (ltb (r.n - length (contents r)) (length bs))) [
    | inl full ↦
        let e = put_refuses bs v (ground (arith, length-contents v)) in
        rw (full, e) (record { next = r; returns = refl; valid = v; holds = refl; sized = refl })
    | inr room ↦
        let (r', e, w, c, s) = put_appends bs v (ground (arith, length-contents v)) in
        rw room (record { next = r'; returns = rw e; valid = w; holds = c; sized = s })
  ]

  consumes-Agrees :
      (len : ℕ) → Agrees r.n (queue_step r.n (contents r) (consumes len)) (step r (consumes len))
  unfolding step queue_step
  consumes-Agrees len = elim (Bool-cases (ltb (length (contents r)) len)) [
    | inl more ↦
        let e = (mark_consumed_lem len v).1 (ground (arith, length-contents v)) in rw (more, e)
    | inr fits ↦
        let (r', e, w, c, s) = (mark_consumed_lem len v).0 (ground (arith, length-contents v)) in
        rw fits (record { next = r'; returns = rw e; valid = w; holds = c; sized = s })
  ]

  copies-Agrees :
      (len : ℕ) → Agrees r.n (queue_step r.n (contents r) (copies len)) (step r (copies len))
  unfolding step queue_step
  copies-Agrees len = record {
    next = r;
    returns = rw (copy_data_lem len v, length-contents v);
    valid = v;
    holds = refl;
    sized = refl;
  }

  step-Agrees : (op : Op) → Agrees r.n (queue_step r.n (contents r) op) (step r op)
  unfolding step queue_step get_pending_size
  step-Agrees (puts bs) = puts-Agrees bs
  step-Agrees (consumes len) = consumes-Agrees len
  step-Agrees (copies len) = copies-Agrees len
  step-Agrees measures = record {
    next = r;
    returns = ap (λ n. ok (size n, r)) (sym (length-contents v));
    valid = v;
    holds = refl;
    sized = refl;
  }
  step-Agrees clears = record {
    next = clear r;
    returns = refl;
    valid = (clear-IsValid v).0;
    holds = (clear-IsValid v).1;
    sized = size-clear r;
  }

run_agrees :
    (ops : List Op) {r : Ringbuf} {cap : ℕ} {q : List ℕ}
    → IsValid r
    → contents r ≡ q
    → r.n ≡ cap
    → run r ops ≡ queue_run cap q ops
unfolding run queue_run
run_agrees [] v c s = refl
run_agrees (op ∷ ops) {r} {cap} {q} v c s =
    go (λ r' q' w d z. run_agrees ops {r = r'} {cap = cap} {q = q'} w d z) (queue_step cap q op)
      refl
  where
    agrees : Agrees cap (queue_step cap q op) (step r op)
    agrees =
        subst (λ n. Agrees n (queue_step n q op) (step r op)) s
          (subst (λ x. Agrees r.n (queue_step r.n x op) (step r op)) c (step-Agrees v op))

    go :
        ((r' : Ringbuf) (q' : List ℕ)
          → IsValid r'
          → contents r' ≡ q'
          → r'.n ≡ cap
          → run r' ops ≡ queue_run cap q' ops)
        → (m : Run (Reply × List ℕ)) → queue_step cap q op ≡ m
        → run r (op ∷ ops) ≡ queue_run cap q (op ∷ ops)
    go rest fault e =
        let f : step r op ≡ fault = subst (λ m. Agrees cap m (step r op)) e agrees in rw (e, f)
    go rest (ok (a, q')) e =
        let f : Follows cap a q' (step r op) = subst (λ m. Agrees cap m (step r op)) e agrees in
        rw (e, f.returns, rest f.next q' f.valid f.holds f.sized)

-- On every valid ring each sequence of calls gives the replies that a queue of the pending bytes,
-- bounded by the size of the ring, gives; a call faults exactly where the queue's does.
pub run_refines :
    {r : Ringbuf} (ops : List Op) → IsValid r → run r ops ≡ queue_run r.n (contents r) ops
run_refines ops v = run_agrees ops v refl refl
