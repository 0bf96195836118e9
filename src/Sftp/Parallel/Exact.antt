-- ===== src/Sftp/Parallel/Exact.antt =====
-- Each byte of the range is transferred once, in whatever order the tasks end and however little each transfers.
use asyncssh.Base.{
  ℕ, zero, suc, ◌+◌, ◌≤◌, ◌≡◌, refl, arith, false, List, [], ◌∷◌, length, All, is_empty, ap,
  Bool-cases, inl, inr, ◌⊎◌,
}
use asyncssh.Sftp.Parallel.{
  Task, ParallelIo, Completion, Iteration, split_done, finish_tasks, iter_round, iter_rounds, begin,
  iter,
}
use asyncssh.Sftp.Parallel.Cover.{within, within_none, planned, covered, total, Sized}
use asyncssh.Sftp.Parallel.Starting.{remaining, start_tasks-Started, start_tasks_busy}
use asyncssh.Sftp.Parallel.Finishing.{
  Delivers, FitPieces, shares, finish_tasks-EndedAll, split_done-Parts,
}

nothing : (ts : List Task) → Sized ts → total ts ≡ 0 → ts ≡ []
unfolding total
nothing [] h z = refl
nothing (t ∷ ts) h z = absurd (omega arith)

pos_cases : (n : ℕ) → (n ≡ 0) ⊎ (1 ≤ n)
pos_cases zero = inl refl
pos_cases (suc n) = inr (omega arith)

module _ {R : Type 0} (Fits : ℕ → ℕ → R → Type 0) where
  -- Between two rounds of `iter` over the `size` positions from `start`.
  record Sound (start size : ℕ) (r : Iteration R) : Type 0 where
    block : 1 ≤ r.io.block_size
    most : 1 ≤ r.io.max_requests
    exact : (x : ℕ) → shares Fits x r ≡ within x start size
    sized : Sized r.io.pending
    busy : 1 ≤ remaining r.io → is_empty r.io.pending ≡ false
    calm : r.raised ≡ []
    fits : FitPieces Fits r.yielded

  -- A schedule says which tasks end in each round; one ends at least.
  abbrev pub Ends : List (List (Completion R)) → Type 0
  Ends = All (λ cs. (1 ≤ length cs) × Delivers Fits cs)

  begin-Sound :
      (block_size max_requests start size : ℕ)
      → 1 ≤ block_size
      → 1 ≤ max_requests
      → Sound start size (begin block_size max_requests start size)
        × (remaining (begin {R = R} block_size max_requests start size).io ≡ size)
  unfolding begin covered planned total
  begin-Sound block_size max_requests start size b m =
      let s : ParallelIo = record {
        block_size = block_size;
        max_requests = max_requests;
        offset = start;
        bytes_left = size;
        pending = [];
      } in
      let new = start_tasks-Started s b in
      (
        record {
          block = omega (arith, new.block);
          most = omega (arith, new.most);
          exact = λ x. omega (arith, new.accounts x);
          sized = new.sized tt;
          busy = λ h. start_tasks_busy s b m (omega (arith, new.keeps));
          calm = refl;
          fits = tt;
        },
        omega (arith, new.keeps),
      )

  length-split_done :
      (cs : List (Completion R)) (pending : List Task)
      → 1 ≤ length cs
      → is_empty pending ≡ false
      → 1 ≤ length (split_done cs pending).0
  unfolding split_done
  length-split_done [] pending h e = absurd (omega arith)
  length-split_done (c ∷ cs) [] h e = ground arith
  length-split_done ((i, run) ∷ cs) (t ∷ ts) h e = omega arith

  iter_round-Sound :
      (start size : ℕ) (cs : List (Completion R)) (r : Iteration R)
      → 1 ≤ length cs
      → Delivers Fits cs
      → is_empty r.io.pending ≡ false
      → Sound start size r
      → Sound start size (iter_round cs r) × (remaining (iter_round cs r).io + 1 ≤ remaining r.io)
  unfolding iter_round
  iter_round-Sound start size cs r n d p g =
      let io = r.io in
      let split = split_done cs r.io.pending in
      let parts = split_done-Parts Fits cs r.io.pending d g.sized in
      let waiting : Iteration R = record r { io = record io { pending = split.1 } } in
      let after = finish_tasks split.0 waiting in
      let done = finish_tasks-EndedAll Fits split.0 waiting parts.delivered in
      let calm : after.raised ≡ [] = done.calm g.calm in
      let block : 1 ≤ after.io.block_size = omega (arith, done.block, g.block) in
      let most : 1 ≤ after.io.max_requests = omega (arith, done.most, g.most) in
      let new = start_tasks-Started after.io block in
      let some_ : 1 ≤ length split.0 = length-split_done cs r.io.pending n p in
      rw (ap is_empty calm) (
        record {
          block = omega (arith, new.block, block);
          most = omega (arith, new.most, most);
          exact = λ x. omega (arith, new.accounts x, done.accounts x, parts.accounts x, g.exact x);
          sized = new.sized (done.sized parts.sized);
          busy = λ h. start_tasks_busy after.io block most (omega (arith, h, new.keeps));
          calm = calm;
          fits = done.fits g.fits;
        },
        omega (arith, new.keeps, done.less, parts.keeps, some_),
      )

  -- What is left when nothing waits.
  finished :
      (start size : ℕ) (r : Iteration R)
      → Sound start size r
      → remaining r.io ≡ 0
      → (r.raised ≡ [])
        × (r.io.pending ≡ [])
        × ((x : ℕ) → covered x r.yielded ≡ within x start size)
        × FitPieces Fits r.yielded
  finished start size r g z =
      let none_ : r.io.pending ≡ [] = nothing r.io.pending g.sized (omega (arith, z)) in
      let rest : r.io.bytes_left ≡ 0 = omega (arith, z) in
      (
        g.calm,
        none_,
        λ x.
            unfold planned in
            omega (
              arith,
              g.exact x,
              ap (planned x) none_,
              ap (within x r.io.offset) rest,
              within_none x r.io.offset,
            ),
        g.fits,
      )

  iter_rounds-exact :
      (start size : ℕ) (schedule : List (List (Completion R))) (r : Iteration R)
      → remaining r.io ≤ length schedule
      → Ends schedule
      → Sound start size r
      → Sound start size (iter_rounds schedule r) × (remaining (iter_rounds schedule r).io ≡ 0)
  unfolding iter_rounds
  iter_rounds-exact start size [] r l d g = (g, omega (arith, l))
  iter_rounds-exact start size (cs ∷ schedule) r l (now, later) g =
      elim (Bool-cases (is_empty r.io.pending)) [
        | inl none_ ↦ rw (none_) (
          g,
          elim (pos_cases (remaining r.io)) [ inl z ↦ z | inr more ↦ ground (arith, g.busy more) ],
        )
        | inr waits ↦
            let (next, less) = iter_round-Sound start size cs r now.0 now.1 waits g in
            rw (waits) (
              iter_rounds-exact start size schedule (iter_round cs r) (omega (arith, less, l)) later
                next)
      ]

  -- If in each round one task or more ends, and each that ends has transferred one byte or more and no more than it
  -- was asked for, then after as many rounds as the range has bytes, or sooner, no task waits and none has failed,
  -- and what was yielded covers each position of the range once and no other.
  pub iter_exact :
      (block_size max_requests start size : ℕ) (schedule : List (List (Completion R)))
      → 1 ≤ block_size
      → 1 ≤ max_requests
      → size ≤ length schedule
      → Ends schedule
      → let r = iter block_size max_requests start size schedule in
        (r.raised ≡ [])
        × (r.io.pending ≡ [])
        × ((x : ℕ) → covered x r.yielded ≡ within x start size)
        × FitPieces Fits r.yielded
  unfolding iter
  iter_exact block_size max_requests start size schedule b m l d =
      let (g, whole) = begin-Sound block_size max_requests start size b m in
      let (h, z) =
        iter_rounds-exact start size schedule (begin block_size max_requests start size)
          (omega (arith, whole, l)) d g in
      finished start size (iter_rounds schedule (begin block_size max_requests start size)) h z
