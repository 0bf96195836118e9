-- ===== src/Base/Int.antt =====
-- Python's integers: `bit_length`, and two's complement in `to_bytes` and `from_bytes`.
use Prim.Native.Nat.{ℕ, zero, suc, ◌-◌, ◌*◌, ◌/◌, ◌^◌, ◌≤◌, ◌<◌}
use mathlib.Core.Path.{◌≡◌, refl}
use mathlib.Core.List.{List}
use native.Mathlib.Omega.{arith}
use native.Mathlib.Nat.{pow-suc}
use asyncssh.Base.Tests.{ltb, leb, ◌==◌, if◌then◌else◌}
use asyncssh.Base.Lists.{length}
use asyncssh.Base.Failure.{Result, ok, err, overflow_error}
use asyncssh.Base.Bytes.{big_endian, length-big_endian, from_bytes, from_bytes-big_endian}

-- `negsuc n` is -(n + 1).
pub data ℤ : Type 0 where
  pos : ℕ → ℤ
  negsuc : ℕ → ℤ

-- The absolute value.
abbrev pub nat_abs : ℤ → ℕ
nat_abs (pos n) = n
nat_abs (negsuc n) = suc n

unfoldable pub bit_length_fuel : ℕ → ℕ → ℕ
bit_length_fuel zero n = 0
bit_length_fuel (suc f) n = let rest = bit_length_fuel f (n / 2) in if n == 0 then 0 else suc rest

unfoldable pub bit_length_ℕ : ℕ → ℕ
unfolding bit_length_fuel
bit_length_ℕ n = bit_length_fuel n n

-- `v.bit_length()`
unfoldable pub bit_length : ℤ → ℕ
unfolding bit_length_ℕ
bit_length v = bit_length_ℕ (nat_abs v)

double_bounds :
    (n b : ℕ)
    → suc n / 2 < 2 ^ b
    → (0 < suc n / 2 → 2 ^ b ≤ 2 * (suc n / 2))
    → (suc n / 2 ≡ 0 → b ≡ 0)
    → (suc n < 2 ^ suc b) × (2 ^ suc b ≤ 2 * suc n)
double_bounds n zero lo hi z = omega arith
double_bounds n (suc b) lo hi z =
    let h : 0 < suc n / 2 = ground (arith, z) in rw (pow-suc 2 (suc b)) (omega (arith, lo, hi h))

bit_length_fuel_bounds :
    (f n : ℕ)
    → n ≤ f
    → (n < 2 ^ bit_length_fuel f n)
      × (0 < n → (0 < bit_length_fuel f n) × (2 ^ bit_length_fuel f n ≤ 2 * n))
      × (n ≡ 0 → bit_length_fuel f n ≡ 0)
unfolding bit_length_fuel
bit_length_fuel_bounds zero n h = (omega arith, λ p. absurd (omega arith), λ p. refl)
bit_length_fuel_bounds (suc f) zero h = (omega arith, λ p. absurd (omega arith), λ p. refl)
bit_length_fuel_bounds (suc f) (suc n) h =
    let (lo, hi, z) = bit_length_fuel_bounds f (suc n / 2) (omega arith) in
    let (below, above) = double_bounds n (bit_length_fuel f (suc n / 2)) lo (λ p. (hi p).1) z in
    (ground (arith, below), λ p. ground (arith, above), λ p. absurd (omega arith))

-- `bit_length` is the number of digits in base 2.
pub bit_length_ℕ_bounds :
    (n : ℕ)
    → (n < 2 ^ bit_length_ℕ n)
      × (0 < n → (0 < bit_length_ℕ n) × (2 ^ bit_length_ℕ n ≤ 2 * n))
      × (n ≡ 0 → bit_length_ℕ n ≡ 0)
unfolding bit_length_ℕ
bit_length_ℕ_bounds n = bit_length_fuel_bounds n n (omega arith)

-- `v` lies in the range of `l` bytes in two's complement.
abbrev pub FitsSigned : ℕ → ℤ → Type 0
FitsSigned l (pos n) = 2 * n < 256 ^ l
FitsSigned l (negsuc n) = 2 * suc n ≤ 256 ^ l

-- `v.to_bytes(l, 'big', signed=True)`
unfoldable pub to_bytes_signed : ℕ → ℤ → Result (List ℕ)
to_bytes_signed l (pos n) =
    if ltb (2 * n) (256 ^ l) then ok (big_endian l n) else err overflow_error
to_bytes_signed l (negsuc n) =
    if leb (2 * suc n) (256 ^ l) then ok (big_endian l (256 ^ l - suc n)) else err overflow_error

-- `int.from_bytes(data, 'big', signed=True)`
unfoldable pub from_bytes_signed : List ℕ → ℤ
from_bytes_signed bs =
    let v = from_bytes bs in
    let m = 256 ^ length bs in if ltb (2 * v) m then pos v else negsuc (m - v - 1)

-- The two's complement digits of an integer that fits.
unfoldable pub signed_digits : ℕ → ℤ → List ℕ
signed_digits l (pos n) = big_endian l n
signed_digits l (negsuc n) = big_endian l (256 ^ l - suc n)

pub to_bytes_signed-FitsSigned :
    (l : ℕ) (v : ℤ) → FitsSigned l v → to_bytes_signed l v ≡ ok (signed_digits l v)
unfolding to_bytes_signed signed_digits
to_bytes_signed-FitsSigned l (pos n) h = ground arith
to_bytes_signed-FitsSigned l (negsuc n) h = ground arith

pub length-signed_digits : (l : ℕ) (v : ℤ) → length (signed_digits l v) ≡ l
unfolding signed_digits
length-signed_digits l (pos n) = length-big_endian l n
length-signed_digits l (negsuc n) = length-big_endian l (256 ^ l - suc n)

pub from_bytes_signed-signed_digits :
    (l : ℕ) (v : ℤ) → FitsSigned l v → from_bytes_signed (signed_digits l v) ≡ v
unfolding from_bytes_signed signed_digits
from_bytes_signed-signed_digits l (pos n) h =
    rw (length-big_endian l n, from_bytes-big_endian l n (omega arith)) (ground arith)
from_bytes_signed-signed_digits l (negsuc n) h =
    rw
      (
        length-big_endian l (256 ^ l - suc n),
        from_bytes-big_endian l (256 ^ l - suc n) (omega arith),
      )
      (ground arith)
