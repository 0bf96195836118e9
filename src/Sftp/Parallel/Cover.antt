-- ===== src/Sftp/Parallel/Cover.antt =====
-- Which ranges cover a position of the file, and how often.
use asyncssh.Base.{
  ◌⊎◌, ℕ, ◌+◌, ◌-◌, ◌≤◌, ◌<◌, ◌≡◌, arith, false, ◌&&◌, List, [], ◌∷◌, ◌++◌, All, ltb, leb,
  if◌then◌else◌, is_empty,
}
use asyncssh.Sftp.Parallel.{Task, Piece}

-- 1 if `x` is one of the `n` positions from `o`, and 0 otherwise
unfoldable pub within : ℕ → ℕ → ℕ → ℕ
within x o n = if leb o x && ltb x (o + n) then 1 else 0

pub within_split : (x o m n : ℕ) → m ≤ n → within x o n ≡ within x o m + within x (o + m) (n - m)
unfolding within
within_split x o m n h = ground arith

pub within_none : (x o : ℕ) → within x o 0 ≡ 0
unfolding within
within_none x o = ground arith

-- How often tasks, and how often pieces that were transferred, cover `x`.
unfoldable pub planned : ℕ → List Task → ℕ
planned x [] = 0
planned x (t ∷ ts) = within x t.offset t.size + planned x ts

unfoldable pub covered : {R : Type 0} → ℕ → List (Piece R) → ℕ
covered x [] = 0
covered x (p ∷ ps) = within x p.offset p.count + covered x ps

pub planned-snoc :
    (x : ℕ) (ts : List Task) (t : Task)
    → planned x (ts ++ t ∷ []) ≡ planned x ts + within x t.offset t.size
unfolding planned
planned-snoc x [] t = omega arith
planned-snoc x (u ∷ ts) t = omega (arith, planned-snoc x ts t)

pub covered-snoc :
    {R : Type 0} (x : ℕ) (ps : List (Piece R)) (p : Piece R)
    → covered x (ps ++ p ∷ []) ≡ covered x ps + within x p.offset p.count
unfolding covered
covered-snoc x [] p = omega arith
covered-snoc x (q ∷ ps) p = omega (arith, covered-snoc x ps p)

-- The bytes that tasks are for.
unfoldable pub total : List Task → ℕ
total [] = 0
total (t ∷ ts) = t.size + total ts

pub total-snoc : (ts : List Task) (t : Task) → total (ts ++ t ∷ []) ≡ total ts + t.size
unfolding total
total-snoc [] t = omega arith
total-snoc (u ∷ ts) t = omega (arith, total-snoc ts t)

-- No task is for nothing.
abbrev pub Sized : List Task → Type 0
Sized = All (λ t. 1 ≤ t.size)

pub Sized-total : (ts : List Task) → Sized ts → is_empty ts ≡ false → 1 ≤ total ts
unfolding total
Sized-total [] h e = ground arith
Sized-total (t ∷ ts) h e = omega arith

pub within_range :
    (o n s m : ℕ)
    → 1 ≤ n
    → within o o n ≤ within o s m
    → within (o + n - 1) o n ≤ within (o + n - 1) s m
    → (s ≤ o) × (o + n ≤ s + m)
unfolding within
within_range o n s m h k l = ground arith

pub within_cases :
    (x o n : ℕ) → ((o ≤ x) × (x < o + n)) ⊎ (((x < o) ⊎ (o + n ≤ x)) × (within x o n ≡ 0))
unfolding within
within_cases x o n = ground arith

pub within_one : (x o n : ℕ) → o ≤ x → x < o + n → within x o n ≡ 1
unfolding within
within_one x o n h k = ground arith
