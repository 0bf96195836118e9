-- ===== src/Base/Bytes.antt =====
-- Python's `int.to_bytes`, `int.from_bytes` and `int.bit_length`, for byte strings as lists of numbers.
use Prim.Native.Nat.{ℕ, zero, suc, ◌+◌, ◌*◌, ◌/◌, ◌%◌, ◌^◌, ◌≤◌, ◌<◌}
use mathlib.Core.Path.{◌≡◌, refl}
use mathlib.Core.List.{List, [], ◌∷◌, ◌++◌}
use native.Mathlib.Omega.{arith}
use native.Mathlib.Nat.{pow-suc}
use asyncssh.Base.Tests.{ltb, if◌then◌else◌}
use asyncssh.Base.Lists.{length, length-append, All, All-append}
use asyncssh.Base.Failure.{Result, ok, err, overflow_error}

abbrev pub IsByte : ℕ → Type 0
IsByte b = b < 256

-- The digits of `v` in base 256, the highest first, for `v` below 256 ^ n.
unfoldable pub big_endian : ℕ → ℕ → List ℕ
big_endian zero v = []
big_endian (suc n) v = big_endian n (v / 256) ++ (v % 256) ∷ []

-- `v.to_bytes(n, 'big')`
unfoldable pub to_bytes : ℕ → ℕ → Result (List ℕ)
to_bytes n v = if ltb v (256 ^ n) then ok (big_endian n v) else err overflow_error

pub to_bytes_fits : (n v : ℕ) → v < 256 ^ n → to_bytes n v ≡ ok (big_endian n v)
unfolding to_bytes
to_bytes_fits n v h = ground arith

-- `int.from_bytes(data, 'big')`, from an accumulator
unfoldable pub from_bytes_acc : ℕ → List ℕ → ℕ
from_bytes_acc acc [] = acc
from_bytes_acc acc (b ∷ bs) = from_bytes_acc (acc * 256 + b) bs

unfoldable pub from_bytes : List ℕ → ℕ
unfolding from_bytes_acc
from_bytes bs = from_bytes_acc 0 bs

from_bytes_acc-snoc :
    (acc : ℕ) (xs : List ℕ) (b : ℕ)
    → from_bytes_acc acc (xs ++ b ∷ []) ≡ from_bytes_acc acc xs * 256 + b
unfolding from_bytes_acc
from_bytes_acc-snoc acc [] b = refl
from_bytes_acc-snoc acc (x ∷ xs) b = from_bytes_acc-snoc (acc * 256 + x) xs b

from_bytes-snoc : (xs : List ℕ) (b : ℕ) → from_bytes (xs ++ b ∷ []) ≡ from_bytes xs * 256 + b
unfolding from_bytes
from_bytes-snoc xs b = from_bytes_acc-snoc 0 xs b

pub length-big_endian : (n v : ℕ) → length (big_endian n v) ≡ n
unfolding big_endian
length-big_endian zero v = refl
length-big_endian (suc n) v =
    omega (
      arith,
      length-append (big_endian n (v / 256)) ((v % 256) ∷ []),
      length-big_endian n (v / 256),
    )

pub big_endian-IsByte : (n v : ℕ) → All IsByte (big_endian n v)
unfolding big_endian
big_endian-IsByte zero v = tt
big_endian-IsByte (suc n) v =
    All-append IsByte (big_endian n (v / 256)) _ (big_endian-IsByte n (v / 256)) (omega arith, tt)

pub from_bytes-big_endian : (n v : ℕ) → v < 256 ^ n → from_bytes (big_endian n v) ≡ v
unfolding big_endian
from_bytes-big_endian zero v h = unfold from_bytes in omega arith
from_bytes-big_endian (suc n) v h = omega (
  arith,
  from_bytes-snoc (big_endian n (v / 256)) (v % 256),
  from_bytes-big_endian n (v / 256) (omega (arith, pow-suc 256 n)),
)

mul_mono : (k m p : ℕ) → k ≤ m → k * p ≤ m * p
mul_mono k m p h = grind arith

from_bytes_acc-lt :
    (acc : ℕ) (xs : List ℕ) → All IsByte xs → from_bytes_acc acc xs < (acc + 1) * 256 ^ length xs
unfolding from_bytes_acc
from_bytes_acc-lt acc [] h = omega arith
from_bytes_acc-lt acc (x ∷ xs) h = rw (pow-suc 256 (length xs)) (
    omega (
      arith,
      from_bytes_acc-lt (acc * 256 + x) xs h.1,
      mul_mono (acc * 256 + x + 1) ((acc + 1) * 256) (256 ^ length xs) (omega arith),
    ))

pub from_bytes-lt : (xs : List ℕ) → All IsByte xs → from_bytes xs < 256 ^ length xs
unfolding from_bytes
from_bytes-lt xs h = omega (arith, from_bytes_acc-lt 0 xs h)
