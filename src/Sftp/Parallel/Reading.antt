-- ===== src/Sftp/Parallel/Reading.antt =====
-- A parallel read returns the bytes of the file.
use asyncssh.Base.{
  ok, ℕ, zero, suc, ◌+◌, ◌-◌, ◌≤◌, ◌<◌, ◌≡◌, refl, arith, some, List, [], ◌∷◌, ◌++◌, length, sym,
  All, ap, ◌∙◌, inl, inr, ◌⊎◌, take, drop, replicate, get_elem?, length-append, length-take,
  length-drop, length-replicate,
}
use asyncssh.Sftp.Parallel.{Piece, Completion, place, reassemble, iter, read_run}
use asyncssh.Sftp.Parallel.Cover.{within, covered, within_range, within_cases, within_one}
use asyncssh.Sftp.Parallel.Exact.{Ends, iter_exact}

-- The bytes of a file at the `n` positions from `o`.
unfoldable pub slice : (ℕ → ℕ) → ℕ → ℕ → List ℕ
slice file o zero = []
slice file o (suc n) = file o ∷ slice file (suc o) n

module _ {A : Type 0} where
  get_elem?-append_front :
      (xs ys : List A) (i : ℕ) → i < length xs → get_elem? (xs ++ ys) i ≡ get_elem? xs i
  get_elem?-append_front [] ys i h = absurd (omega arith)
  get_elem?-append_front (x ∷ xs) ys zero h = refl
  get_elem?-append_front (x ∷ xs) ys (suc i) h = get_elem?-append_front xs ys i (omega arith)

  get_elem?-append_back :
      (xs ys : List A) (i : ℕ)
      → length xs ≤ i
      → get_elem? (xs ++ ys) i ≡ get_elem? ys (i - length xs)
  get_elem?-append_back [] ys i h = ap (get_elem? ys) (omega arith)
  get_elem?-append_back (x ∷ xs) ys zero h = absurd (omega arith)
  get_elem?-append_back (x ∷ xs) ys (suc i) h =
      get_elem?-append_back xs ys i (omega arith) ∙ ap (get_elem? ys) (omega arith)

  get_elem?-take : (n i : ℕ) (xs : List A) → i < n → get_elem? (take n xs) i ≡ get_elem? xs i
  get_elem?-take zero i xs h = absurd (omega arith)
  get_elem?-take (suc n) i [] h = refl
  get_elem?-take (suc n) zero (x ∷ xs) h = refl
  get_elem?-take (suc n) (suc i) (x ∷ xs) h = get_elem?-take n i xs (omega arith)

  get_elem?-drop : (n i : ℕ) (xs : List A) → get_elem? (drop n xs) i ≡ get_elem? xs (n + i)
  get_elem?-drop zero i xs = ap (get_elem? xs) (omega arith)
  get_elem?-drop (suc n) i [] = refl
  get_elem?-drop (suc n) i (x ∷ xs) = get_elem?-drop n i xs ∙ ap (get_elem? (x ∷ xs)) later
    where
      later : suc (n + i) ≡ suc n + i
      later = omega arith

  lt-length_of_get_elem? : (xs : List A) (i : ℕ) {x : A} → get_elem? xs i ≡ some x → i < length xs
  lt-length_of_get_elem? [] i h = cc
  lt-length_of_get_elem? (x ∷ xs) zero h = omega arith
  lt-length_of_get_elem? (x ∷ xs) (suc i) h = omega (arith, lt-length_of_get_elem? xs i h)

  get_elem?-ext :
      (xs ys : List A)
      → ((i : ℕ) → i < length ys → get_elem? xs i ≡ get_elem? ys i)
      → length xs ≤ length ys
      → xs ≡ ys
  get_elem?-ext [] [] h l = refl
  get_elem?-ext [] (y ∷ ys) h l = absurd (ground (arith, h 0 (omega arith)))
  get_elem?-ext (x ∷ xs) [] h l = absurd (omega arith)
  get_elem?-ext (x ∷ xs) (y ∷ ys) h l =
      cc (h 0 (omega arith), get_elem?-ext xs ys (λ i k. h (suc i) (omega arith)) (omega arith))

get_elem?-slice :
    (file : ℕ → ℕ) (o n i : ℕ) → i < n → get_elem? (slice file o n) i ≡ some (file (o + i))
unfolding slice
get_elem?-slice file o zero i h = absurd (omega arith)
get_elem?-slice file o (suc n) zero h = ap (λ k. some (file k)) (omega arith)
get_elem?-slice file o (suc n) (suc i) h =
    get_elem?-slice file (suc o) n i (omega arith) ∙ ap (λ k. some (file k)) (omega arith)

length-slice : (file : ℕ → ℕ) (o n : ℕ) → length (slice file o n) ≡ n
unfolding slice
length-slice file o zero = refl
length-slice file o (suc n) = ap suc (length-slice file (suc o) n)

-- The bytes of `result`, with zeros up to `pos`.
abbrev padded : ℕ → List ℕ → List ℕ
padded pos result = result ++ replicate (pos - length result) 0

length-padded :
    (pos : ℕ) (result : List ℕ) → length (padded pos result) ≡ length result + (pos - length result)
length-padded pos result = omega (
  arith,
  length-append result (replicate {A = ℕ} (pos - length result) 0),
  length-replicate {A = ℕ} (pos - length result) 0,
)

length-front : (pos : ℕ) (result : List ℕ) → length (take pos (padded pos result)) ≡ pos
length-front pos result =
    omega (arith, length-take pos (padded pos result), length-padded pos result)

-- Where a block is put, it is read.
place_inside :
    (pos : ℕ) (block result : List ℕ) (i : ℕ)
    → pos ≤ i
    → i < pos + length block
    → get_elem? (place pos block result) i ≡ get_elem? block (i - pos)
unfolding place
place_inside pos block result i h k =
    let front = take pos (padded pos result) in
    let back = drop (pos + length block) (padded pos result) in
    let f = length-front pos result in
    get_elem?-append_back front (block ++ back) i (omega (arith, f))
    ∙ get_elem?-append_front block back (i - length front) (omega (arith, f))
    ∙ ap (λ n. get_elem? block (i - n)) f

-- What a block is put over stays where the block does not reach.
place_outside :
    (pos : ℕ) (block result : List ℕ) (i : ℕ)
    → i < length result
    → (i < pos) ⊎ (pos + length block ≤ i)
    → get_elem? (place pos block result) i ≡ get_elem? result i
unfolding place
place_outside pos block result i l (inl h) =
    let f = length-front pos result in
    get_elem?-append_front (take pos (padded pos result)) _ i (omega (arith, f))
    ∙ get_elem?-take pos i (padded pos result) h
    ∙ get_elem?-append_front result _ i l
place_outside pos block result i l (inr h) =
    let front = take pos (padded pos result) in
    let back = drop (pos + length block) (padded pos result) in
    let f = length-front pos result in
    get_elem?-append_back front (block ++ back) i (omega (arith, f))
    ∙ get_elem?-append_back block back (i - length front) (omega (arith, f))
    ∙ get_elem?-drop (pos + length block) (i - length front - length block) (padded pos result)
    ∙ ap (get_elem? (padded pos result)) (omega (arith, f))
    ∙ get_elem?-append_front result _ i l

length-place :
    (pos : ℕ) (block result : List ℕ) (n : ℕ)
    → length result ≤ n
    → pos + length block ≤ n
    → length (place pos block result) ≤ n
unfolding place
length-place pos block result n h k =
    let back = drop (pos + length block) (padded pos result) in
    omega (
      arith,
      length-front pos result,
      length-append (take pos (padded pos result)) (block ++ back),
      length-append block back,
      length-drop (pos + length block) (padded pos result),
      length-padded pos result,
    )

-- A piece that holds the bytes of the file, one or more.
abbrev pub Reads : (ℕ → ℕ) → ℕ → ℕ → List ℕ → Type 0
Reads file offset count block = (block ≡ slice file offset count) × (1 ≤ count)

abbrev InRange : ℕ → ℕ → Piece (List ℕ) → Type 0
InRange start size p = (start ≤ p.offset) × (p.offset + p.count ≤ start + size)

module _ (file : ℕ → ℕ) (start size : ℕ) where
  -- Pieces that cover no position outside of the range lie in it.
  pieces-InRange :
      (ps : List (Piece (List ℕ)))
      → All (λ p. Reads file p.offset p.count p.result) ps
      → ((x : ℕ) → covered x ps ≤ within x start size)
      → All (InRange start size) ps
  unfolding covered
  pieces-InRange [] h c = tt
  pieces-InRange (p ∷ ps) (now, later) c = (
    within_range p.offset p.count start size now.1 (omega (arith, c p.offset))
        (omega (arith, c (p.offset + p.count - 1))),
    pieces-InRange ps later (λ x. omega (arith, c x)),
  )

  -- The same, after one piece, where `more` counts the pieces that follow.
  after_piece :
      (p : Piece (List ℕ)) (result : List ℕ) (i : ℕ)
      → Reads file p.offset p.count p.result
      → InRange start size p
      → (more : ℕ)
      → (get_elem? result i ≡ some (file (start + i)))
        ⊎ (1 ≤ within (start + i) p.offset p.count + more)
      → (get_elem? (place (p.offset - start) p.result result) i ≡ some (file (start + i)))
        ⊎ (1 ≤ more)
  after_piece p result i now first more known =
      let whole : length p.result ≡ p.count =
        ap length now.0 ∙ length-slice file p.offset p.count in
      elim (within_cases (start + i) p.offset p.count) [
        | inl (lo, hi) ↦ inl (
            place_inside (p.offset - start) p.result result i (omega arith) (omega arith)
            ∙ ap (λ l. get_elem? l (i - (p.offset - start))) now.0
            ∙ get_elem?-slice file p.offset p.count (i - (p.offset - start)) (omega arith)
            ∙ ap (λ k. some (file k)) (omega arith))
        | inr (apart, none_) ↦ elim known [
          | inl e ↦ inl (
              place_outside (p.offset - start) p.result result i (lt-length_of_get_elem? result i e)
                (elim apart [
                  | inl a ↦ inl (omega (arith, first))
                  | inr a ↦ inr (omega (arith, whole, first))
                ])
              ∙ e)
          | inr c ↦ inr (omega (arith, c))
        ]
      ]

  -- A position that has been read, or is covered by the pieces that follow, is right at the end.
  reassemble_right :
      (ps : List (Piece (List ℕ))) (result : List ℕ) (i : ℕ)
      → All (λ p. Reads file p.offset p.count p.result) ps
      → All (InRange start size) ps
      → (get_elem? result i ≡ some (file (start + i))) ⊎ (1 ≤ covered (start + i) ps)
      → get_elem? (reassemble start ps result) i ≡ some (file (start + i))
  unfolding reassemble covered
  reassemble_right [] result i h r (inl e) = e
  reassemble_right [] result i h r (inr c) = absurd (omega (arith, c))
  reassemble_right (p ∷ ps) result i (now, later) (first, r) known =
      reassemble_right ps (place (p.offset - start) p.result result) i later r
        (after_piece p result i now first (covered (start + i) ps) known)

  length-reassemble :
      (ps : List (Piece (List ℕ))) (result : List ℕ)
      → All (λ p. Reads file p.offset p.count p.result) ps
      → All (InRange start size) ps
      → length result ≤ size
      → length (reassemble start ps result) ≤ size
  unfolding reassemble
  length-reassemble [] result h r l = l
  length-reassemble (p ∷ ps) result (now, later) (first, r) l =
      length-reassemble ps (place (p.offset - start) p.result result) later r (
        length-place (p.offset - start) p.result result size l
          (omega (arith, ap length now.0, length-slice file p.offset p.count, first)))

-- A parallel read whose tasks each return one byte or more of the file, and no more than they were asked for, returns
-- the bytes of the file, whatever the order in which they end, after as many rounds as it has bytes, or sooner.
pub read_run-slice :
    (file : ℕ → ℕ) (block_size max_requests start size : ℕ)
    (schedule : List (List (Completion (List ℕ))))
    → 1 ≤ block_size
    → 1 ≤ max_requests
    → size ≤ length schedule
    → Ends (Reads file) schedule
    → read_run block_size max_requests start size schedule ≡ ok (slice file start size)
unfolding read_run
read_run-slice file block_size max_requests start size schedule b m l ends =
    let r = iter block_size max_requests start size schedule in
    let (calm, done, exact, fits) =
      iter_exact (Reads file) block_size max_requests start size schedule b m l ends in
    let range = pieces-InRange file start size r.yielded fits (λ x. omega (arith, exact x)) in
    rw (read_run, calm)
      (ap ok (
        get_elem?-ext (reassemble start r.yielded []) (slice file start size)
          (λ i h.
            let below : i < size = omega (arith, length-slice file start size) in
            reassemble_right file start size r.yielded [] i fits range (
              inr (
                omega (
                  arith,
                  exact (start + i),
                  within_one (start + i) start size (omega arith) (omega arith),
                )))
            ∙ sym (get_elem?-slice file start size i below))
          (omega (
            arith,
            length-reassemble file start size r.yielded [] fits range (omega arith),
            length-slice file start size,
          ))))
