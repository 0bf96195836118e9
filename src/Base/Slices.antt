-- ===== src/Base/Slices.antt =====
-- Python's slices of byte strings, where an index may be negative.
use Prim.Native.Nat.{ℕ, zero, suc, ◌-◌, ◌≤◌}
use mathlib.Core.Path.{◌≡◌, refl, ap}
use native.Mathlib.Omega.{arith}
use mathlib.Core.List.{List, [], ◌∷◌, ◌++◌}
use mathlib.Core.Bool.{Bool, false}
use asyncssh.Base.Tests.{leb, ltb, if◌then◌else◌}
use asyncssh.Base.Lists.{length, take, drop, take-append-drop}
use asyncssh.Base.Int.{ℤ, pos, negsuc}

-- `m - n`, as an integer
unfoldable pub diff : ℕ → ℕ → ℤ
diff m n = if leb n m then pos (m - n) else negsuc (n - m - 1)

-- Where an index of a slice points in a string of `len` bytes; a negative one counts from the end.
unfoldable pub position : ℕ → ℤ → ℕ
position len (pos n) = n
position len (negsuc n) = len - suc n

-- `data[:i]`
unfoldable pub slice_to : ℤ → List ℕ → List ℕ
unfolding position
slice_to i bytes = take (position (length bytes) i) bytes

-- `data[i:]`
unfoldable pub slice_from : ℤ → List ℕ → List ℕ
unfolding position
slice_from i bytes = drop (position (length bytes) i) bytes

-- `data[i:j]`
unfoldable pub slice : ℤ → ℤ → List ℕ → List ℕ
unfolding position
slice i j bytes = drop (position (length bytes) i) (take (position (length bytes) j) bytes)

-- `len(data) < i`
unfoldable pub shorter : ℕ → ℤ → Bool
shorter len (pos n) = ltb len n
shorter len (negsuc n) = false

pub take-append_le : (n : ℕ) (xs ys : List ℕ) → n ≤ length xs → take n (xs ++ ys) ≡ take n xs
take-append_le zero xs ys h = refl
take-append_le (suc n) [] ys h = absurd (omega arith)
take-append_le (suc n) (x ∷ xs) ys h = ap (λ t. x ∷ t) (take-append_le n xs ys (omega arith))

pub drop-append_le : (n : ℕ) (xs ys : List ℕ) → n ≤ length xs → drop n (xs ++ ys) ≡ drop n xs ++ ys
drop-append_le zero xs ys h = refl
drop-append_le (suc n) [] ys h = absurd (omega arith)
drop-append_le (suc n) (x ∷ xs) ys h = drop-append_le n xs ys (omega arith)

pub take-take : (m n : ℕ) (xs : List ℕ) → m ≤ n → take m (take n xs) ≡ take m xs
take-take zero n xs h = refl
take-take (suc m) zero xs h = absurd (omega arith)
take-take (suc m) (suc n) [] h = refl
take-take (suc m) (suc n) (x ∷ xs) h = ap (λ t. x ∷ t) (take-take m n xs (omega arith))

-- A cut before the first one makes no difference.
pub drop-take-append_drop :
    (m n : ℕ) (xs : List ℕ) → m ≤ n → drop m (take n xs) ++ drop n xs ≡ drop m xs
drop-take-append_drop zero n xs h = take-append-drop n xs
drop-take-append_drop (suc m) zero xs h = absurd (omega arith)
drop-take-append_drop (suc m) (suc n) [] h = refl
drop-take-append_drop (suc m) (suc n) (x ∷ xs) h = drop-take-append_drop m n xs (omega arith)
