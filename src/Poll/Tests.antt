-- ===== src/Poll/Tests.antt =====
-- Polling a queue of two messages.
use kcpev.Base.{ℕ, ◌≡◌, refl, List, [], ◌∷◌, pos, minus_one, ok, arith}
use kcpev.Conn.{Trace, Env}
use kcpev.Conn.Sample.{sample_env}
use kcpev.Poll.{try_kcp_recv}
use kcpev.Poll.Bounds.{reads, calls_of, logs_read, Queued, drained, queued, try_kcp_recv-Queued}

-- The messages by the number of reads before.
abbrev message : Trace → List ℕ
message [] = 5 ∷ 6 ∷ []
message (_ ∷ []) = 7 ∷ []
message (_ ∷ _ ∷ _) = []

abbrev env : Env
env = record (sample_env []) { kcp_recv = λ t self. message t }

messages-Queued : Queued env 7 [] ((5 ∷ 6 ∷ []) ∷ (7 ∷ []) ∷ [])
messages-Queued = queued refl (omega arith) (queued refl (omega arith) (drained refl))

try_kcp_recv-Queued_example :
    (t' : Trace) × (try_kcp_recv calls_of logs_read 7 reads env 3 minus_one ([], [])
      ≡ ok (pos 0, (t', (5 ∷ 6 ∷ []) ∷ (7 ∷ []) ∷ [])))
try_kcp_recv-Queued_example =
    try_kcp_recv-Queued env 7 3 minus_one [] [] ((5 ∷ 6 ∷ []) ∷ (7 ∷ []) ∷ []) messages-Queued
      (omega arith)
