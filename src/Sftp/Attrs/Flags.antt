-- ===== src/Sftp/Attrs/Flags.antt =====
-- Flags as the list of their bits, lowest first.
use native.Mathlib.Nat.{div-div-eq-div-mul, zero-div, pow-succ'}
use asyncssh.Base.{
  sym, ℕ, zero, suc, ◌+◌, ◌*◌, ◌/◌, ◌%◌, ◌^◌, ◌≡◌, refl, arith, ap, ◌∙◌, Bool, true, false, not,
  ◌&&◌, ◌||◌, List, [], ◌∷◌, length, ◌==◌, if◌then◌else◌,
}
use asyncssh.Sftp.Attrs.Decode.{has, exceeds}

abbrev pub bit : Bool → ℕ
bit true = 1
bit false = 0

unfoldable pub word : List Bool → ℕ
word [] = 0
word (b ∷ bs) = bit b + 2 * word bs

unfoldable pub bit_at : ℕ → List Bool → Bool
bit_at k [] = false
bit_at zero (b ∷ bs) = b
bit_at (suc k) (b ∷ bs) = bit_at k bs

-- Whether one of the bits is not in `valid`.
unfoldable pub clash : List Bool → ℕ → Bool
clash [] valid = false
clash (b ∷ bs) valid =
    let rest = clash bs (valid / 2) in if has valid 1 then rest else if b then true else rest

halve : (b : Bool) (n : ℕ) → (bit b + 2 * n) / 2 ≡ n
halve true n = omega arith
halve false n = omega arith

lowest : (b : Bool) (n : ℕ) → has (bit b + 2 * n) 1 ≡ b
lowest true n = ground arith
lowest false n = ground arith

choose :
    (b valid rest : Bool)
    → (b && not valid || rest) ≡ (if valid then rest else if b then true else rest)
choose true true rest = refl
choose true false rest = refl
choose false true rest = refl
choose false false rest = refl

pub exceeds-word :
    (bs : List Bool) (valid : ℕ) → exceeds (length bs) (word bs) valid ≡ clash bs valid
unfolding exceeds word clash
exceeds-word [] valid = refl
exceeds-word (b ∷ bs) valid =
    rw (lowest b (word bs), halve b (word bs), exceeds-word bs (valid / 2))
      (choose b (has valid 1) (clash bs (valid / 2)))

pub has-word : (k : ℕ) (bs : List Bool) → has (word bs) (2 ^ k) ≡ bit_at k bs
unfolding word bit_at
has-word k [] = rw (zero-div (2 ^ k))
has-word zero (b ∷ bs) = lowest b (word bs)
has-word (suc k) (b ∷ bs) =
    ap (λ n. n % 2 == 1)
      (ap (λ m. (bit b + 2 * word bs) / m) (pow-succ' 2 k)
        ∙ sym (div-div-eq-div-mul (bit b + 2 * word bs) 2 (2 ^ k))
        ∙ ap (λ n. n / 2 ^ k) (halve b (word bs)))
    ∙ has-word k bs
