-- ===== src/Packet/Mpint.antt =====
-- `MPInt` and `get_mpint` of asyncssh/packet.py.
use mathlib.Core.List.{append_assoc}
use native.Mathlib.Nat.{pow-suc, pow-le-pow_right, one-le-pow}
use native.Mathlib.Numerals.{towards_suc}
use asyncssh.Base.{
  ℕ, zero, suc, ◌+◌, ◌-◌, ◌*◌, ◌/◌, ◌%◌, ◌≤◌, ◌<◌, ◌^◌, ◌≡◌, refl, ap, arith, ◌⊎◌, inl, inr, ◌≢◌,
  true, List, ◌++◌, length, ok, >>=-eq-ok, ◌==◌, if◌then◌else◌, not, ◌&&◌, length-append,
}
use asyncssh.Base.Bytes.{to_bytes, to_bytes_fits, big_endian, length-big_endian}
use asyncssh.Base.Int.{
  ℤ, pos, negsuc, nat_abs, bit_length, bit_length_ℕ_bounds, FitsSigned, signed_digits,
  to_bytes_signed-FitsSigned, length-signed_digits, from_bytes_signed-signed_digits,
}
use asyncssh.Packet.{get_mpint, mpint, mpint_size, is_lowest}
use asyncssh.Packet.RoundTrip.{cursor, get_string-sized}

eight_more : (s : ℕ) → 2 ^ (s + 8) ≡ 256 * 2 ^ s
eight_more s = simp towards_suc (omega arith)

-- 256 ^ l is 2 ^ (8 * l).
pub pow_byte : (l : ℕ) → 256 ^ l ≡ 2 ^ (8 * l)
pow_byte zero = refl
pow_byte (suc l) =
    let e : 8 * suc l ≡ 8 * l + 8 = omega arith in
    rw (e, eight_more (8 * l)) (omega (arith, pow-suc 256 l, pow_byte l))

pow256_le : (a b : ℕ) → a ≤ b → 256 ^ a ≤ 256 ^ b
pow256_le a b h = pow-le-pow_right (omega arith) h

pub pow_le : (a b : ℕ) → a ≤ b → 2 ^ a ≤ 2 ^ b
pow_le a b h = pow-le-pow_right (omega arith) h

pow_pos : (n : ℕ) → 0 < 2 ^ n
pow_pos n = one-le-pow n 2 (omega arith)

bit_length_bounds :
    (v : ℤ)
    → (nat_abs v < 2 ^ bit_length v)
      × (0 < nat_abs v → (0 < bit_length v) × (2 ^ bit_length v ≤ 2 * nat_abs v))
      × (nat_abs v ≡ 0 → bit_length v ≡ 0)
unfolding bit_length
bit_length_bounds v = bit_length_ℕ_bounds (nat_abs v)

-- A size with room for one bit more than the magnitude `m` has, and no room for another byte.
module _ (m b l : ℕ) (lo : m < 2 ^ b) (hi : 2 ^ b ≤ 2 * m) (wide : b < 8 * l)
    (tight : 8 * l ≤ b + 8) where
  fits : 2 * m < 256 ^ l
  fits = rw (pow_byte l) (omega (arith, pow_le (suc b) (8 * l) wide, pow-suc 2 b))

  no_byte_spare : 256 ^ (l - 1) ≤ 2 * m
  no_byte_spare = rw (pow_byte (l - 1)) (omega (arith, pow_le (8 * (l - 1)) b (omega arith)))

  no_byte_spare_strict : (8 * l ≡ b + 8 → 2 * m ≢ 2 ^ b) → 256 ^ (l - 1) < 2 * m
  no_byte_spare_strict ne = rw (pow_byte (l - 1)) (
      ground (
        arith,
        pow_le (8 * (l - 1)) b (omega arith),
        pow_le (suc (8 * (l - 1))) b,
        pow-suc 2 (8 * (l - 1)),
        pow_pos (8 * (l - 1)),
      ))

-- The least integer of whole bytes, -2 ^ (8 * l - 1), takes exactly those bytes.
lowest_fits : (m l : ℕ) → 2 * m ≡ 2 ^ (8 * l) → 0 < l → (2 * m ≤ 256 ^ l) × (256 ^ (l - 1) < 2 * m)
lowest_fits m zero h p = absurd (omega arith)
lowest_fits m (suc l) h p = (
  rw (pow_byte (suc l)) (omega arith),
  let e : suc l - 1 ≡ l = omega arith in
      rw (e, pow_byte l)
        (omega (
          arith,
          pow_le (suc (8 * l)) (8 * suc l) (omega arith),
          pow-suc 2 (8 * l),
          pow_pos (8 * l),
        )),
)

-- The bytes of `v` suffice, and one byte less would not.
record IsTight (l : ℕ) (v : ℤ) : Type 0 where
  room : FitsSigned l v
  least : (k : ℕ) → k < l → ¬ FitsSigned k v

size_pos :
    (n : ℕ)
    → 0 < bit_length (pos (suc n))
    → (bit_length (pos (suc n)) < 8 * mpint_size (pos (suc n)))
      × (8 * mpint_size (pos (suc n)) ≤ bit_length (pos (suc n)) + 8)
unfolding mpint_size
size_pos n h = ground arith

-- The bump of `size_negsuc`, once the number of bits is known.
mpint_size-negsuc :
    (n b : ℕ)
    → bit_length (negsuc n) ≡ suc b
    → mpint_size (negsuc n)
      ≡ (suc b + (if suc b % 8 == 0 && true && not (suc n == 2 ^ b) then 1 else 0) + 7) / 8
unfolding mpint_size
mpint_size-negsuc n b h =
    ap (λ l. (l + (if l % 8 == 0 && true && not (is_lowest (negsuc n) l) then 1 else 0) + 7) / 8) h

size_negsuc :
    (n b : ℕ)
    → bit_length (negsuc n) ≡ suc b
    → ((suc b < 8 * mpint_size (negsuc n))
        × (8 * mpint_size (negsuc n) ≤ suc b + 8)
        × (8 * mpint_size (negsuc n) ≡ suc b + 8 → suc n ≢ 2 ^ b))
      ⊎ ((8 * mpint_size (negsuc n) ≡ suc b) × (suc n ≡ 2 ^ b))
size_negsuc n b h = ground (arith, mpint_size-negsuc n b h)

-- A smaller size has room for less.
FitsSigned-mono : (k l : ℕ) (v : ℤ) → k ≤ l → FitsSigned k v → FitsSigned l v
FitsSigned-mono k l (pos n) h f = omega (arith, pow256_le k l h)
FitsSigned-mono k l (negsuc n) h f = omega (arith, pow256_le k l h)

IsTight-from_last : (l : ℕ) (v : ℤ) → FitsSigned l v → ¬ FitsSigned (l - 1) v → IsTight l v
IsTight-from_last l v room last = record {
  room = room;
  least = λ k h f. last (FitsSigned-mono k (l - 1) v (omega arith) f);
}

size_zero : mpint_size (pos 0) ≡ 0
unfolding mpint_size bit_length
size_zero = refl

pos-IsTight : (n : ℕ) → IsTight (mpint_size (pos n)) (pos n)
pos-IsTight zero = rw size_zero (record { room = omega arith; least = λ k h f. elim h [ ] })
pos-IsTight (suc n) =
    let (lo, hi, z) = bit_length_bounds (pos (suc n)) in
    let (positive, double) = hi (omega arith) in
    let (wide, tight) = size_pos n positive in
    let b = bit_length (pos (suc n)) in
    let l = mpint_size (pos (suc n)) in
    IsTight-from_last l (pos (suc n)) (fits (suc n) b l lo double wide tight)
      (λ f. omega (arith, no_byte_spare (suc n) b l lo double wide tight))

negsuc-IsTight : (n : ℕ) → IsTight (mpint_size (negsuc n)) (negsuc n)
negsuc-IsTight n =
    let (lo, hi, z) = bit_length_bounds (negsuc n) in
    let (positive, double) = hi (omega arith) in
    let b = bit_length (negsuc n) - 1 in
    let l = mpint_size (negsuc n) in
    let e : bit_length (negsuc n) ≡ suc b = omega arith in
    elim (size_negsuc n b e) [
      | inl (wide, tight, bumped) ↦
          IsTight-from_last l (negsuc n)
            (omega (arith, fits (suc n) (suc b) l (rw e at lo) (rw e at double) wide tight))
            (λ f. omega (
              arith,
              no_byte_spare_strict (suc n) (suc b) l (rw e at lo) (rw e at double) wide tight
                  (λ p q. bumped p (omega (arith, pow-suc 2 b))),
            ))
      | inr (exact, lowest) ↦
          let (room, last) =
            lowest_fits (suc n) l (rw exact (omega (arith, pow-suc 2 b))) (omega arith) in
          IsTight-from_last l (negsuc n) room (λ f. omega arith)
    ]

mpint_size-IsTight : (v : ℤ) → IsTight (mpint_size v) v
mpint_size-IsTight (pos n) = pos-IsTight n
mpint_size-IsTight (negsuc n) = negsuc-IsTight n

-- An encoded integer is its size in four bytes, then that many bytes of two's complement.
mpint-eq-ok :
    (v : ℤ) (enc : List ℕ)
    → mpint v ≡ ok enc
    → (size : List ℕ) × (to_bytes 4 (mpint_size v) ≡ ok size)
      × (enc ≡ size ++ signed_digits (mpint_size v) v)
unfolding mpint
mpint-eq-ok v enc h =
    let (size, sized, e) = >>=-eq-ok (to_bytes 4 (mpint_size v)) _ h in
    (size, sized, cc (e, to_bytes_signed-FitsSigned (mpint_size v) v (mpint_size-IsTight v).room))

-- An integer that `MPInt` encodes, whatever stands before and behind it, is what `get_mpint` reads,
-- and exactly its bytes are consumed.
pub get_mpint-mpint :
    (v : ℤ) (enc front rest : List ℕ)
    → mpint v ≡ ok enc
    → get_mpint (cursor front (enc ++ rest)) ≡ (ok v, cursor (front ++ enc) rest)
unfolding get_mpint
get_mpint-mpint v enc front rest h =
    let (size, sized, e) = mpint-eq-ok v enc h in
    let l = mpint_size v in
    let digits = signed_digits l v in
    let e' : length digits ≡ l = length-signed_digits l v in
    rw (
      e,
      get_string-sized size digits front rest (rw e' sized),
      from_bytes_signed-signed_digits l v (mpint_size-IsTight v).room,
      append_assoc front size digits,
    )

-- `MPInt` encodes every integer whose digits can be counted in four bytes, in as few bytes as two's
-- complement allows: the digits take `mpint_size v` bytes, and no smaller number of bytes has room.
pub mpint_minimal :
    (v : ℤ)
    → mpint_size v < 2 ^ 32
    → (enc : List ℕ) × (mpint v ≡ ok enc)
      × (length enc ≡ 4 + mpint_size v)
      × ((k : ℕ) → k < mpint_size v → ¬ FitsSigned k v)
unfolding mpint
mpint_minimal v h =
    let l = mpint_size v in
    (
      big_endian 4 l ++ signed_digits l v,
      rw (to_bytes_fits 4 l h, to_bytes_signed-FitsSigned l v (mpint_size-IsTight v).room),
      omega (
        arith,
        length-append (big_endian 4 l) (signed_digits l v),
        length-big_endian 4 l,
        length-signed_digits l v,
      ),
      (mpint_size-IsTight v).least,
    )
