-- ===== src/Poll/Bounds.antt =====
-- The polling loop of kcp: it ends and hands over every message in order.
use kcpev.Base.{
  ℕ, zero, suc, ◌<◌, ◌≡◌, refl, ap, ◌∙◌, List, [], ◌∷◌, ◌++◌, append_assoc, append-nil, length, ℤ,
  pos, Run, ok, arith,
}
use kcpev.Header.{buffer_size}
use kcpev.Conn.{Call, kcp_receives, Trace, Env}
use kcpev.Poll.{try_kcp_recv}

-- The state of a reader of kcp that accepts every message: the calls, and the messages so far.
abbrev pub Reader : Type 0
Reader = Trace × List (List ℕ)

abbrev pub reads : Reader → List ℕ → Run (ℤ × Reader)
reads s msg = ok (pos 0, (s.0, s.1 ++ (msg ∷ [])))

abbrev pub calls_of : Reader → Trace
calls_of s = s.0

abbrev pub logs_read : Call → Reader → Reader
logs_read c s = (c ∷ s.0, s.1)

-- The calls after `n` more messages were read.
abbrev pub after_reads : ℕ → ℕ → Trace → Trace
after_reads self zero t = t
after_reads self (suc n) t = after_reads self n (kcp_receives self ∷ t)

-- `ikcp_recv` hands out the messages of a queue, one a call, and then nothing; each has a byte at
-- least and is shorter than the buffer.
pub data Queued (e : Env) (self : ℕ) : Trace → List (List ℕ) → Type 0 where
  drained : {t : Trace} → e.kcp_recv t self ≡ [] → Queued e self t []
  queued :
      {t : Trace} {x : ℕ} {xs : List ℕ} {rest : List (List ℕ)}
      → e.kcp_recv t self ≡ x ∷ xs
      → length (x ∷ xs) < buffer_size
      → Queued e self (kcp_receives self ∷ t) rest
      → Queued e self t ((x ∷ xs) ∷ rest)

-- 0 once a message was accepted.
abbrev pub outcome : ℤ → List (List ℕ) → ℤ
outcome result [] = result
outcome result (_ ∷ _) = pos 0

pub outcome-zero : (msgs : List (List ℕ)) → outcome (pos 0) msgs ≡ pos 0
outcome-zero [] = refl
outcome-zero (_ ∷ _) = refl

-- Where kcp hands out a queue of messages that fit in the buffer and the handler accepts each, a loop
-- with one round more than there are messages, or with still more, ends without a fault, with the
-- result 0, or the one it started from where there are none; the handler gets all the messages, in
-- order.
pub try_kcp_recv-Queued :
    (e : Env) (self fuel : ℕ) (result : ℤ) (t : Trace) (seen msgs : List (List ℕ))
    → Queued e self t msgs
    → length msgs < fuel
    → (t' : Trace) × (try_kcp_recv calls_of logs_read self reads e fuel result (t, seen)
        ≡ ok (outcome result msgs, (t', seen ++ msgs)))
unfolding try_kcp_recv
try_kcp_recv-Queued e self zero result t seen msgs q h = absurd (omega arith)
try_kcp_recv-Queued e self (suc fuel) result t seen [] (drained f) h =
    (kcp_receives self ∷ t, rw (f, append-nil seen, try_kcp_recv) refl)
try_kcp_recv-Queued e self (suc fuel) result t seen (_ ∷ rest) (queued {x = x} {xs = xs} f small q)
      h =
    let (t', g) =
      try_kcp_recv-Queued e self fuel (pos 0) (kcp_receives self ∷ t) (seen ++ ((x ∷ xs) ∷ [])) rest
        q (omega arith) in
    (
      t',
      step x xs f small
          ∙ g
          ∙ ap (λ r. ok (r, (t', (seen ++ ((x ∷ xs) ∷ [])) ++ rest))) (outcome-zero rest)
          ∙ ap (λ r. ok (pos 0, (t', r))) (append_assoc seen ((x ∷ xs) ∷ []) rest),
    )
  where
    step :
        (x : ℕ) (xs : List ℕ)
        → e.kcp_recv t self ≡ x ∷ xs
        → length (x ∷ xs) < buffer_size
        → try_kcp_recv calls_of logs_read self reads e (suc fuel) result (t, seen)
          ≡ try_kcp_recv calls_of logs_read self reads e fuel
              (pos 0)
              (kcp_receives self ∷ t, seen ++ ((x ∷ xs) ∷ []))
    step x xs f small = ground (arith, f)
