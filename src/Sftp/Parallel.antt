-- ===== src/Sftp/Parallel.antt =====
-- Parallel reads and writes of a file: the class _SFTPParallelIO of asyncssh/sftp.py and its reader.
pub mod Cover
mod Starting
mod Finishing
mod Exact
pub mod Reading
mod Runs
use asyncssh.Base.{
  ℕ, zero, suc, ◌+◌, ◌-◌, min, Bool, true, false, not, ◌&&◌, Option, none, some, List, [], ◌∷◌,
  ◌++◌, length, take, drop, replicate, is_empty, ltb, ◌==◌, if◌then◌else◌, Error, Result, ok, err,
}

-- A task that was started for a range of the file.
pub record Task : Type 0 where
  pub offset : ℕ
  pub size : ℕ

-- How a task ends: with the number of bytes transferred and what `run_task` returns beside it, with SFTPEOFError,
-- or with another SFTPError or an OSError.
pub data Outcome (R : Type 0) : Type 0 where
  completed : ℕ → R → Outcome R
  at_eof : Outcome R
  failed : Error → Outcome R

-- `_block_size`, `_max_requests`, `_offset`, `_bytes_left` and `_pending`, a set, as a list without order.
pub record ParallelIo : Type 0 where
  pub block_size : ℕ
  pub max_requests : ℕ
  pub offset : ℕ
  pub bytes_left : ℕ
  pub pending : List Task

-- What `iter` yields, with the number of bytes.
pub record Piece (R : Type 0) : Type 0 where
  pub offset : ℕ
  pub count : ℕ
  pub result : R

-- A completed task among those that wait: its place, up to the last one, and how it ended.
abbrev pub Completion : Type 0 → Type 0
Completion R = ℕ × (Task → Outcome R)

-- The body of the loop of `_start_tasks`.
unfoldable pub start_one : ParallelIo → ParallelIo
start_one s =
    let size = min s.bytes_left s.block_size in
    record s {
      pending = s.pending ++ record { offset = s.offset; size = size } ∷ [];
      offset = s.offset + size;
      bytes_left = s.bytes_left - size;
    }

-- The loop, on fuel.
unfoldable pub start_rounds : ℕ → ParallelIo → ParallelIo
unfolding start_one
start_rounds zero s = s
start_rounds (suc n) s =
    let rest = start_rounds n (start_one s) in
    if not (s.bytes_left == 0) && ltb (length s.pending) s.max_requests then rest else s

-- `_start_tasks`; each round adds a task.
unfoldable pub start_tasks : ParallelIo → ParallelIo
unfolding start_rounds
start_tasks s = start_rounds s.max_requests s

unfoldable pub pick : ℕ → Task → List Task → Task × List Task
pick zero t ts = (t, ts)
pick (suc n) t [] = (t, [])
pick (suc n) t (u ∷ ts) = let found = pick n u ts in (found.0, t ∷ found.1)

-- A run of `iter`: its object, what it has yielded, and the exceptions that it has collected.
pub record Iteration (R : Type 0) : Type 0 where
  pub io : ParallelIo
  pub yielded : List (Piece R)
  pub raised : List Error

module _ {R : Type 0} where
  -- `asyncio.wait`: the tasks that are done, with their outcomes, and those that still wait.
  unfoldable pub split_done : List (Completion R) → List Task → List (Task × Outcome R) × List Task
  unfolding pick
  split_done [] pending = ([], pending)
  split_done (c ∷ cs) [] = ([], [])
  split_done ((i, run) ∷ cs) (t ∷ ts) =
      let found = pick i t ts in
      let rest = split_done cs found.1 in ((found.0, run found.0) ∷ rest.0, rest.1)

  -- The body of the loop over the tasks that are done; exceptions are collected.
  unfoldable pub finish_task : Task → Outcome R → Iteration R → Iteration R
  finish_task t (Outcome.completed count result) r =
      let io = r.io in
      let yielded =
        r.yielded ++ record { offset = t.offset; count = count; result = result } ∷ [] in
      if not (count == 0) && ltb count t.size
      then record r {
        yielded = yielded;
        io = record io {
          pending = io.pending ++ record { offset = t.offset + count; size = t.size - count } ∷ [];
        };
      }
      else record r { yielded = yielded }
  finish_task t Outcome.at_eof r = let io = r.io in record r { io = record io { bytes_left = 0 } }
  finish_task t (Outcome.failed e) r = record r { raised = r.raised ++ e ∷ [] }

  unfoldable pub finish_tasks : List (Task × Outcome R) → Iteration R → Iteration R
  unfolding finish_task
  finish_tasks [] r = r
  finish_tasks ((t, outcome) ∷ done) r = finish_tasks done (finish_task t outcome r)

  -- One round of the loop of `iter`; if a task failed, the others are cancelled and the first error is raised.
  unfoldable pub iter_round : List (Completion R) → Iteration R → Iteration R
  unfolding split_done finish_tasks start_tasks
  iter_round cs r =
      let io = r.io in
      let split = split_done cs io.pending in
      let after = finish_tasks split.0 (record r { io = record io { pending = split.1 } }) in
      let io' = after.io in
      if is_empty after.raised
      then record after { io = start_tasks io' }
      else record after { io = record io' { pending = [] } }

  -- The loop of `iter`: as long as tasks wait, some of them end.
  unfoldable pub iter_rounds : List (List (Completion R)) → Iteration R → Iteration R
  unfolding iter_round
  iter_rounds [] r = r
  iter_rounds (cs ∷ schedule) r =
      let rest = iter_rounds schedule (iter_round cs r) in if is_empty r.io.pending then r else rest

  -- `__init__` and the start of `iter`, for a range of the file
  unfoldable pub begin : ℕ → ℕ → ℕ → ℕ → Iteration R
  unfolding start_tasks
  begin block_size max_requests offset size = record {
    io = start_tasks (record {
      block_size = block_size;
      max_requests = max_requests;
      offset = offset;
      bytes_left = size;
      pending = [];
    });
    yielded = [];
    raised = [];
  }

  unfoldable pub iter : ℕ → ℕ → ℕ → ℕ → List (List (Completion R)) → Iteration R
  unfolding begin iter_rounds
  iter block_size max_requests offset size schedule =
      iter_rounds schedule (begin block_size max_requests offset size)

-- A round of `_SFTPFileReader.run`: the block is put in its place, over zeros if there is nothing yet.
unfoldable pub place : ℕ → List ℕ → List ℕ → List ℕ
place pos block result =
    let padded = result ++ replicate (pos - length result) 0 in
    take pos padded ++ (block ++ drop (pos + length block) padded)

unfoldable pub reassemble : ℕ → List (Piece (List ℕ)) → List ℕ → List ℕ
unfolding place
reassemble start [] result = result
reassemble start (p ∷ ps) result = reassemble start ps (place (p.offset - start) p.result result)

-- `_SFTPFileReader.run`; the first error that `iter` raises passes through.
unfoldable pub read_run : ℕ → ℕ → ℕ → ℕ → List (List (Completion (List ℕ))) → Result (List ℕ)
unfolding iter reassemble
read_run block_size max_requests offset size schedule =
    let r = iter block_size max_requests offset size schedule in
    elim r.raised [ [] ↦ ok (reassemble offset r.yielded []) | (e ∷ es) ↦ err e ]
