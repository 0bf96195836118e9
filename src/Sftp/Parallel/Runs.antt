-- ===== src/Sftp/Parallel/Runs.antt =====
-- Runs of parallel reads.
use asyncssh.Base.{ok, length, ◌+◌, ℕ, ◌≤◌, ◌≡◌, refl, arith, List, [], ◌∷◌}
use asyncssh.Sftp.Parallel.{
  Task, Outcome, Completion, start_one, start_rounds, start_tasks, pick, split_done, finish_task,
  finish_tasks, iter_round, iter_rounds, begin, iter, place, reassemble, read_run,
}
use asyncssh.Sftp.Parallel.Cover.{within, covered}
use asyncssh.Sftp.Parallel.Finishing.{Delivered, Delivers, FitPieces}
use asyncssh.Sftp.Parallel.Exact.{Ends, iter_exact}
use asyncssh.Sftp.Parallel.Reading.{Reads, slice, read_run-slice}

abbrev file : ℕ → ℕ
file x = x + x + 7

-- The second of the tasks ends, with a single byte.
abbrev one_byte : Completion (List ℕ)
one_byte = (1, λ t. Outcome.completed 1 (slice file t.offset 1))

-- The first ends with all that it was asked for.
abbrev whole_block : Completion (List ℕ)
whole_block = (0, λ t. Outcome.completed t.size (slice file t.offset t.size))

abbrev schedule : List (List (Completion (List ℕ)))
schedule =
    (one_byte ∷ [])
    ∷ (one_byte ∷ whole_block ∷ [])
    ∷ (one_byte ∷ [])
    ∷ (whole_block ∷ [])
    ∷ (whole_block ∷ [])
    ∷ (one_byte ∷ [])
    ∷ (one_byte ∷ [])
    ∷ []

read_out_of_order : read_run 3 2 4 7 schedule ≡ ok (15 ∷ 17 ∷ 19 ∷ 21 ∷ 23 ∷ 25 ∷ 27 ∷ [])
unfolding read_run iter iter_rounds iter_round begin start_tasks start_rounds start_one split_done
    pick finish_tasks finish_task reassemble place slice
read_out_of_order = refl

-- A block that comes back empty is given up without an error, and zeros stand in its place.
empty_block :
    read_run 1 2 0 2 (((0, λ t. Outcome.completed 0 []) ∷ []) ∷ (whole_block ∷ []) ∷ [])
    ≡ ok (0 ∷ 9 ∷ [])
unfolding read_run iter iter_rounds iter_round begin start_tasks start_rounds start_one split_done
    pick finish_tasks finish_task reassemble place slice
empty_block = refl

one_byte-Delivered : (t : Task) → 1 ≤ t.size → Delivered (Reads file) t (one_byte.1 t)
one_byte-Delivered t h = (1, slice file t.offset 1, refl, omega arith, h, (refl, omega arith))

whole_block-Delivered : (t : Task) → 1 ≤ t.size → Delivered (Reads file) t (whole_block.1 t)
whole_block-Delivered t h = (t.size, slice file t.offset t.size, refl, h, omega arith, (refl, h))

one_byte-alone : (1 ≤ length (one_byte ∷ [])) × Delivers (Reads file) (one_byte ∷ [])
one_byte-alone = (omega arith, (one_byte-Delivered, tt))

whole_block-alone : (1 ≤ length (whole_block ∷ [])) × Delivers (Reads file) (whole_block ∷ [])
whole_block-alone = (omega arith, (whole_block-Delivered, tt))

schedule-Ends : Ends (Reads file) schedule
schedule-Ends = (
  one_byte-alone,
  (
    (omega arith, (one_byte-Delivered, (whole_block-Delivered, tt))),
    (
      one_byte-alone,
      (whole_block-alone, (whole_block-alone, (one_byte-alone, (one_byte-alone, tt)))),
    ),
  ),
)

iter_exact_example :
    let r = iter 3 2 4 7 schedule in
    (r.raised ≡ [])
    × (r.io.pending ≡ [])
    × ((x : ℕ) → covered x r.yielded ≡ within x 4 7)
    × FitPieces (Reads file) r.yielded
iter_exact_example =
    iter_exact (Reads file) 3 2 4 7 schedule (omega arith) (omega arith) (omega arith) schedule-Ends

read_run-slice_example : read_run 3 2 4 7 schedule ≡ ok (slice file 4 7)
read_run-slice_example =
    read_run-slice file 3 2 4 7 schedule (omega arith) (omega arith) (omega arith) schedule-Ends
