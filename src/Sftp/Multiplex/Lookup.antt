-- ===== src/Sftp/Multiplex/Lookup.antt =====
-- What stands in the table of requests, and how often, after it changes.
use asyncssh.Base.{
  ℕ, ◌+◌, ◌≡◌, arith, some, List, [], ◌∷◌, ◌++◌, All, ◌==◌, if◌then◌else◌, Bool-cases, inl, inr,
}
use asyncssh.Sftp.Multiplex.{Settled, set_item, pop_item}

-- How often a waiter stands in the table, and how often it ended.
unfoldable pub held : ℕ → List (ℕ × ℕ) → ℕ
held x [] = 0
held x ((k, w) ∷ rs) = (if x == w then 1 else 0) + held x rs

unfoldable pub endings : ℕ → List (ℕ × Settled) → ℕ
endings x [] = 0
endings x ((w, how) ∷ ss) = (if x == w then 1 else 0) + endings x ss

pub endings-snoc :
    (x w : ℕ) (how : Settled) (ss : List (ℕ × Settled))
    → endings x (ss ++ (w, how) ∷ []) ≡ endings x ss + (if x == w then 1 else 0)
unfolding endings
endings-snoc x w how [] = omega arith
endings-snoc x w how ((v, h) ∷ ss) = omega (arith, endings-snoc x w how ss)

-- A new key is added.
pub held-set_item :
    (x k w : ℕ) (rs : List (ℕ × ℕ))
    → All (λ r. ¬ (r.0 ≡ k)) rs
    → held x (set_item k w rs) ≡ held x rs + (if x == w then 1 else 0)
unfolding held set_item
held-set_item x k w [] h = omega arith
held-set_item x k w ((i, v) ∷ rs) (now, later) = ground (arith, held-set_item x k w rs later)

pub held-pop_item :
    (x k w : ℕ) (rs : List (ℕ × ℕ))
    → (pop_item k rs).0 ≡ some w
    → held x rs ≡ held x (pop_item k rs).1 + (if x == w then 1 else 0)
unfolding held pop_item
held-pop_item x k w [] h = cc
held-pop_item x k w ((i, v) ∷ rs) h = elim (Bool-cases (i == k)) [
  | inl e ↦ ground arith
  | inr e ↦ ground (arith, held-pop_item x k w rs)
]

module _ (P : ℕ × ℕ → Type 0) where
  pub All-set_item : (k w : ℕ) (rs : List (ℕ × ℕ)) → P (k, w) → All P rs → All P (set_item k w rs)
  unfolding set_item
  All-set_item k w [] p h = (p, tt)
  All-set_item k w ((i, v) ∷ rs) p (now, later) = elim (Bool-cases (i == k)) [
    | inl e ↦ let same : k ≡ i = ground arith in rw (e) (rw (← same) (p, later))
    | inr e ↦ rw (e) (now, All-set_item k w rs p later)
  ]

  pub All-pop_item : (k : ℕ) (rs : List (ℕ × ℕ)) → All P rs → All P (pop_item k rs).1
  unfolding pop_item
  All-pop_item k [] h = tt
  All-pop_item k ((i, v) ∷ rs) (now, later) = elim (Bool-cases (i == k)) [
    | inl e ↦ rw (e) later
    | inr e ↦ rw (e) (now, All-pop_item k rs later)
  ]

  pub pop_item-found :
      (k w : ℕ) (rs : List (ℕ × ℕ)) → All P rs → (pop_item k rs).0 ≡ some w → P (k, w)
  unfolding pop_item
  pop_item-found k w [] h e = cc
  pop_item-found k w ((i, v) ∷ rs) (now, later) e = elim (Bool-cases (i == k)) [
    | inl b ↦
        let key : i ≡ k = ground arith in
        let value : v ≡ w = ground arith in rw (← key, ← value) now
    | inr b ↦ pop_item-found k w rs later (ground arith)
  ]
