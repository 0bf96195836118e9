-- ===== src/Sftp/Parallel/Starting.antt =====
-- New tasks take over what is left of the range.
use asyncssh.Base.{
  ℕ, zero, suc, ◌+◌, min, ◌≤◌, ◌≡◌, refl, arith, Bool, false, not, ◌&&◌, List, [], ◌∷◌, length,
  All-append, ltb, ◌==◌, is_empty, ◌∙◌, Bool-cases, inl, inr, length-append,
}
use asyncssh.Sftp.Parallel.{Task, ParallelIo, start_one, start_rounds, start_tasks}
use asyncssh.Sftp.Parallel.Cover.{
  within, within_split, planned, planned-snoc, total, total-snoc, Sized,
}

-- How often the tasks and the rest of the range cover `x`, and what they have left to do.
abbrev pub account : ℕ → ParallelIo → ℕ
account x s = planned x s.pending + within x s.offset s.bytes_left

abbrev pub remaining : ParallelIo → ℕ
remaining s = total s.pending + s.bytes_left

-- The state `t` is one that comes of `s` when tasks are started.
pub record Started (s t : ParallelIo) : Type 0 where
  pub block : t.block_size ≡ s.block_size
  pub most : t.max_requests ≡ s.max_requests
  pub accounts : (x : ℕ) → account x t ≡ account x s
  pub keeps : remaining t ≡ remaining s
  pub sized : Sized s.pending → Sized t.pending
  pub more : length s.pending ≤ length t.pending

start_one-Started :
    (s : ParallelIo) → 1 ≤ s.block_size → (s.bytes_left == 0) ≡ false → Started s (start_one s)
unfolding start_one
start_one-Started s b e =
    let size = min s.bytes_left s.block_size in
    let task : Task = record { offset = s.offset; size = size } in
    record {
      block = refl;
      most = refl;
      accounts = λ x. omega (
        arith,
        planned-snoc x s.pending task,
        within_split x s.offset size s.bytes_left (omega arith),
      );
      keeps = omega (arith, total-snoc s.pending task);
      sized = λ h. All-append (λ t. 1 ≤ t.size) s.pending (task ∷ []) h (ground arith, tt);
      more = omega (arith, length-append s.pending (task ∷ []));
    }

Started-refl : (s : ParallelIo) → Started s s
Started-refl s = record {
  block = refl;
  most = refl;
  accounts = λ x. refl;
  keeps = refl;
  sized = λ h. h;
  more = omega arith;
}

Started-trans : {s t u : ParallelIo} → Started s t → Started t u → Started s u
Started-trans g h = record {
  block = h.block ∙ g.block;
  most = h.most ∙ g.most;
  accounts = λ x. h.accounts x ∙ g.accounts x;
  keeps = h.keeps ∙ g.keeps;
  sized = λ k. h.sized (g.sized k);
  more = omega arith;
}

-- Whether the loop goes on.
abbrev goes_on : ParallelIo → Bool
goes_on s = not (s.bytes_left == 0) && ltb (length s.pending) s.max_requests

start_rounds-Started : (n : ℕ) (s : ParallelIo) → 1 ≤ s.block_size → Started s (start_rounds n s)
unfolding start_rounds
start_rounds-Started zero s b = Started-refl s
start_rounds-Started (suc n) s b = elim (Bool-cases (goes_on s)) [
  | inl on ↦ rw (on) (
      let one = start_one-Started s b (ground arith) in
      Started-trans one (start_rounds-Started n (start_one s) (omega (arith, one.block))))
  | inr off ↦ rw (off) (Started-refl s)
]

nonempty : (ts : List Task) → 1 ≤ length ts → is_empty ts ≡ false
nonempty [] h = absurd (omega arith)
nonempty (t ∷ ts) h = refl

length-pos : (ts : List Task) → 1 ≤ total ts → 1 ≤ length ts
unfolding total
length-pos [] h = absurd (omega arith)
length-pos (t ∷ ts) h = omega arith

length-start_one : (s : ParallelIo) → length (start_one s).pending ≡ length s.pending + 1
unfolding start_one
length-start_one s = length-append s.pending _

busy_rounds :
    (n : ℕ) (s : ParallelIo)
    → 1 ≤ s.block_size
    → 1 ≤ n
    → 1 ≤ s.max_requests
    → 1 ≤ remaining s
    → is_empty (start_rounds n s).pending ≡ false
unfolding start_rounds
busy_rounds zero s b i m r = absurd (omega arith)
busy_rounds (suc n) s b i m r = elim (Bool-cases (goes_on s)) [
  | inl on ↦
      let one = start_one-Started s b (ground arith) in
      let rest = start_rounds-Started n (start_one s) (omega (arith, one.block)) in
      rw (on) (
        nonempty (start_rounds n (start_one s)).pending
          (omega (arith, rest.more, length-start_one s)))
  | inr off ↦ rw (off) (nonempty s.pending (ground (arith, length-pos s.pending)))
]

pub start_tasks-Started : (s : ParallelIo) → 1 ≤ s.block_size → Started s (start_tasks s)
unfolding start_tasks
start_tasks-Started s b = start_rounds-Started s.max_requests s b

-- Tasks wait as long as there is something to do.
pub start_tasks_busy :
    (s : ParallelIo)
    → 1 ≤ s.block_size
    → 1 ≤ s.max_requests
    → 1 ≤ remaining s
    → is_empty (start_tasks s).pending ≡ false
unfolding start_tasks
start_tasks_busy s b m r = busy_rounds s.max_requests s b m m r
