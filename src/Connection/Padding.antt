-- ===== src/Connection/Padding.antt =====
-- How much padding a packet gets, and that it comes off again.
use asyncssh.Base.{
  ℕ, ◌+◌, ◌*◌, ◌-◌, ◌/◌, ◌%◌, ◌≤◌, ◌<◌, ◌≡◌, arith, Bool-cases, inl, inr, ==_iff, ◌==◌, ltb,
}
use native.Mathlib.Nat.{mul-mod_left, div-add-mod', mod-lt, mod-eq_of_lt, mod_self}
use asyncssh.Connection.Send.{padding}

zero_rest : (x b : ℕ) → 0 < b → x % b ≡ 0 → x + (b - x % b) % b ≡ x / b * b
zero_rest x b h e =
    let p : b - x % b ≡ b = omega (arith, e) in
    rw (p, mod_self b) (omega (arith, div-add-mod' x b, e))

some_rest : (x b : ℕ) → 0 < b → 0 < x % b → x + (b - x % b) % b ≡ (x / b + 1) * b
some_rest x b h e =
    let p : (b - x % b) % b ≡ b - x % b = mod-eq_of_lt (omega arith) in
    let q : (x / b + 1) * b ≡ x / b * b + b = grind arith in
    rw (p) (omega (arith, q, div-add-mod' x b, mod-lt x h))

-- The number that is added to `x` makes a multiple of `b`.
round_up : (x b : ℕ) → 0 < b → (k : ℕ) × (x + (b - x % b) % b ≡ k * b)
round_up x b h = elim (Bool-cases (x % b == 0)) [
  | inl e ↦ (x / b, zero_rest x b h ((==_iff _ _).0 e))
  | inr e ↦ (x / b + 1, some_rest x b h (ground (arith, e)))
]

succ_mul : (k b : ℕ) → (k + 1) * b ≡ k * b + b
succ_mul k b = grind arith

-- The padding has at least four bytes, and less than four bytes more than a block.
pub padding_bounds :
    (enchdrlen blocksize size : ℕ)
    → 8 ≤ blocksize
    → (4 ≤ padding enchdrlen blocksize size) × (padding enchdrlen blocksize size < blocksize + 4)
unfolding padding
padding_bounds e b n h = ground (arith, mod-lt (b - (e + n) % b) {m = b} (omega arith))

-- Header, payload and padding fill whole blocks.
pub padding_aligned :
    (enchdrlen blocksize size : ℕ)
    → 8 ≤ blocksize
    → (k : ℕ) × (enchdrlen + size + padding enchdrlen blocksize size ≡ k * blocksize)
unfolding padding
padding_aligned e b n h =
    let (k, q) = round_up (e + n) b (omega arith) in
    elim (Bool-cases (ltb ((b - (e + n) % b) % b) 4)) [
      | inl small ↦ (k + 1, rw (small) (omega (arith, q, succ_mul k b)))
      | inr large ↦ (k, rw (large) (omega (arith, q)))
    ]

-- For blocks of at least eight bytes the padding has at least four bytes, less than four more than a block, and
-- fills the last block of header, payload and padding.
pub padding_fills :
    (enchdrlen blocksize size : ℕ)
    → 8 ≤ blocksize
    → (4 ≤ padding enchdrlen blocksize size)
      × (padding enchdrlen blocksize size < blocksize + 4)
      × ((enchdrlen + size + padding enchdrlen blocksize size) % blocksize ≡ 0)
padding_fills e b n h =
    let (lo, hi) = padding_bounds e b n h in
    let (k, whole) = padding_aligned e b n h in (lo, hi, rw (whole) (mul-mod_left k b))
