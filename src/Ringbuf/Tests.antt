-- ===== src/Ringbuf/Tests.antt =====
-- The ring's theorems at a ring of four bytes whose two pending bytes run over the end.
use kcpev.Base.{◌≤◌, ◌<◌, ◌≡◌, refl, some, List, [], ◌∷◌, pos, ok, fault, arith}
use kcpev.Ringbuf.{Ringbuf, put, mark_consumed, copy_data}
use kcpev.Ringbuf.Layout.{IsValid, contents}
use kcpev.Ringbuf.Put.{put_appends}
use kcpev.Ringbuf.Read.{copy_data_lem, mark_consumed_lem}
use kcpev.Ringbuf.Refine.{Op, puts, consumes, copies, measures, clears, run, queue_run, run_refines}

abbrev ring : Ringbuf
ring = record { n = 4; u = 2; i = 1; o = 3; d = 20 ∷ 0 ∷ 0 ∷ 10 ∷ [] }

ring-IsValid : IsValid ring
ring-IsValid = record {
  storage = refl;
  nonempty = omega arith;
  small = omega arith;
  output_in = omega arith;
  used_in = omega arith;
  input_at = refl;
}

abbrev ops : List Op
ops =
    puts (30 ∷ 40 ∷ []) ∷ puts (50 ∷ []) ∷ copies 3 ∷ consumes 3 ∷ measures ∷ clears ∷ copies 1 ∷ []

run_refines_example : run ring ops ≡ queue_run 4 (10 ∷ 20 ∷ []) ops
run_refines_example = run_refines ops ring-IsValid

put_appends_example :
    (r' : Ringbuf) × (put ring (30 ∷ 40 ∷ []) ≡ ok (pos 0, r'))
    × IsValid r'
    × (contents r' ≡ 10 ∷ 20 ∷ 30 ∷ 40 ∷ [])
    × (r'.n ≡ 4)
put_appends_example = put_appends (30 ∷ 40 ∷ []) ring-IsValid (omega arith)

copy_data_lem_example : copy_data ring 2 ≡ ok (some (10 ∷ 20 ∷ []))
copy_data_lem_example = copy_data_lem 2 ring-IsValid

mark_consumed_lem_example :
    (1 ≤ 2
      → (r' : Ringbuf) × (mark_consumed ring 1 ≡ ok r')
        × IsValid r'
        × (contents r' ≡ 20 ∷ [])
        × (r'.n ≡ 4))
    × (2 < 1 → mark_consumed ring 1 ≡ fault)
mark_consumed_lem_example = mark_consumed_lem 1 ring-IsValid
