-- ===== src/Sftp/Parallel/Finishing.antt =====
-- Tasks that end account for what they transferred, and for what is left of their ranges.
use asyncssh.Base.{
  ℕ, zero, suc, ◌+◌, ◌-◌, ◌≤◌, ◌≡◌, refl, arith, not, ◌&&◌, List, [], ◌∷◌, length, All, All-append,
  ltb, ◌==◌, ap, ◌∙◌, Bool-cases, inl, inr,
}
use asyncssh.Sftp.Parallel.{
  Task, Outcome, Piece, Completion, Iteration, pick, split_done, finish_task, finish_tasks,
}
use asyncssh.Sftp.Parallel.Cover.{
  within, within_split, planned, planned-snoc, covered, covered-snoc, total, total-snoc, Sized,
}
use asyncssh.Sftp.Parallel.Starting.{account, remaining}

module _ {R : Type 0} (Fits : ℕ → ℕ → R → Type 0) where
  -- A task that transfers one byte or more, and no more than it was asked for.
  abbrev pub Delivered : Task → Outcome R → Type 0
  Delivered t outcome =
      (count : ℕ) × (result : R) × (outcome ≡ Outcome.completed count result)
      × (1 ≤ count)
      × (count ≤ t.size)
      × Fits t.offset count result

  -- However the tasks that end are chosen, they transfer something.
  abbrev pub Delivers : List (Completion R) → Type 0
  Delivers = All (λ c. (t : Task) → 1 ≤ t.size → Delivered t (c.1 t))

  abbrev pub FitPieces : List (Piece R) → Type 0
  FitPieces = All (λ p. Fits p.offset p.count p.result)

  -- How often a run covers `x`, with what is planned.
  abbrev pub shares : ℕ → Iteration R → ℕ
  shares x r = covered x r.yielded + account x r.io

  -- What the end of one task makes of a run.
  pub record Ended (t : Task) (r s : Iteration R) : Type 0 where
    pub block : s.io.block_size ≡ r.io.block_size
    pub most : s.io.max_requests ≡ r.io.max_requests
    pub accounts : (x : ℕ) → shares x s ≡ shares x r + within x t.offset t.size
    pub less : remaining s.io + 1 ≤ remaining r.io + t.size
    pub sized : Sized r.io.pending → Sized s.io.pending
    pub calm : r.raised ≡ [] → s.raised ≡ []
    pub fits : FitPieces r.yielded → FitPieces s.yielded

  finish_task-Ended :
      (t : Task) (count : ℕ) (result : R) (r : Iteration R)
      → 1 ≤ count
      → count ≤ t.size
      → Fits t.offset count result
      → Ended t r (finish_task t (Outcome.completed count result) r)
  unfolding finish_task
  finish_task-Ended t count result r c l f =
      let piece : Piece R = record { offset = t.offset; count = count; result = result } in
      let fits = λ (h : FitPieces r.yielded).
        All-append (λ p. Fits p.offset p.count p.result) r.yielded (piece ∷ []) h (f, tt) in
      elim (Bool-cases (not (count == 0) && ltb count t.size)) [
        | inl short ↦
            let again : Task = record { offset = t.offset + count; size = t.size - count } in
            rw (short) (record {
              block = refl;
              most = refl;
              accounts = λ x. omega (
                arith,
                covered-snoc x r.yielded piece,
                planned-snoc x r.io.pending again,
                within_split x t.offset count t.size l,
              );
              less = omega (arith, total-snoc r.io.pending again);
              sized =
                  λ h. All-append (λ t. 1 ≤ t.size) r.io.pending (again ∷ []) h (ground arith, tt);
              calm = λ e. e;
              fits = fits;
            })
        | inr whole ↦
            let same : count ≡ t.size = ground arith in
            rw (whole) (record {
              block = refl;
              most = refl;
              accounts = λ x.
                  omega (arith, covered-snoc x r.yielded piece, ap (λ n. within x t.offset n) same);
              less = omega arith;
              sized = λ h. h;
              calm = λ e. e;
              fits = fits;
            })
      ]

  abbrev pub tasks : List (Task × Outcome R) → List Task
  tasks [] = []
  tasks ((t, outcome) ∷ done) = t ∷ tasks done

  abbrev pub AllDelivered : List (Task × Outcome R) → Type 0
  AllDelivered = All (λ d. Delivered d.0 d.1)

  -- What the end of several tasks makes of a run.
  pub record EndedAll (done : List (Task × Outcome R)) (r s : Iteration R) : Type 0 where
    pub block : s.io.block_size ≡ r.io.block_size
    pub most : s.io.max_requests ≡ r.io.max_requests
    pub accounts : (x : ℕ) → shares x s ≡ shares x r + planned x (tasks done)
    pub less : remaining s.io + length done ≤ remaining r.io + total (tasks done)
    pub sized : Sized r.io.pending → Sized s.io.pending
    pub calm : r.raised ≡ [] → s.raised ≡ []
    pub fits : FitPieces r.yielded → FitPieces s.yielded

  pub finish_tasks-EndedAll :
      (done : List (Task × Outcome R)) (r : Iteration R)
      → AllDelivered done
      → EndedAll done r (finish_tasks done r)
  unfolding finish_tasks planned total
  finish_tasks-EndedAll [] r h = record {
    block = refl;
    most = refl;
    accounts = λ x. omega arith;
    less = omega arith;
    sized = λ h. h;
    calm = λ e. e;
    fits = λ h. h;
  }
  finish_tasks-EndedAll ((t, outcome) ∷ done) r ((count, result, e, c, l, f), h) = rw (e) (
      let one = finish_task-Ended t count result r c l f in
      let next = finish_task t (Outcome.completed count result) r in
      let rest = finish_tasks-EndedAll done next h in
      record {
        block = rest.block ∙ one.block;
        most = rest.most ∙ one.most;
        accounts = λ x. omega (arith, rest.accounts x, one.accounts x);
        less = omega (arith, rest.less, one.less);
        sized = λ k. rest.sized (one.sized k);
        calm = λ k. rest.calm (one.calm k);
        fits = λ k. rest.fits (one.fits k);
      })

  pick_parts :
      (i : ℕ) (t : Task) (ts : List Task)
      → ((x : ℕ)
          → within x (pick i t ts).0.offset (pick i t ts).0.size + planned x (pick i t ts).1
            ≡ planned x (t ∷ ts))
        × ((pick i t ts).0.size + total (pick i t ts).1 ≡ total (t ∷ ts))
        × (Sized (t ∷ ts) → Sized ((pick i t ts).0 ∷ (pick i t ts).1))
  unfolding pick planned total
  pick_parts zero t ts = (λ x. refl, refl, λ h. h)
  pick_parts (suc i) t [] = (λ x. refl, refl, λ h. h)
  pick_parts (suc i) t (u ∷ ts) =
      let (p, q, s) = pick_parts i u ts in
      (λ x. omega (arith, p x), omega (arith, q), λ h. ((s h.1).0, (h.0, (s h.1).1)))

  -- The tasks that ended and those that still wait are those that waited.
  pub record Parts (pending : List Task) (split : List (Task × Outcome R) × List Task)
      : Type 0 where
    pub accounts : (x : ℕ) → planned x (tasks split.0) + planned x split.1 ≡ planned x pending
    pub keeps : total (tasks split.0) + total split.1 ≡ total pending
    pub sized : Sized split.1
    pub delivered : AllDelivered split.0

  pub split_done-Parts :
      (cs : List (Completion R)) (pending : List Task)
      → Delivers cs
      → Sized pending
      → Parts pending (split_done cs pending)
  unfolding split_done planned total
  split_done-Parts [] pending d s = record {
    accounts = λ x. omega arith;
    keeps = omega arith;
    sized = s;
    delivered = tt;
  }
  split_done-Parts (c ∷ cs) [] d s = record {
    accounts = λ x. omega arith;
    keeps = omega arith;
    sized = tt;
    delivered = tt;
  }
  split_done-Parts ((i, run) ∷ cs) (t ∷ ts) (now, later) s =
      let found = pick i t ts in
      let (p, q, k) = pick_parts i t ts in
      let rest = split_done-Parts cs found.1 later (k s).1 in
      record {
        accounts = λ x. unfold planned in omega (arith, p x, rest.accounts x);
        keeps = omega (arith, q, rest.keeps);
        sized = rest.sized;
        delivered = (now found.0 (k s).0, rest.delivered);
      }
