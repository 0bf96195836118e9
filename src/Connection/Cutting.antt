-- ===== src/Connection/Cutting.antt =====
-- Where the parts of an encrypted packet lie in the receive buffer.
use asyncssh.Base.{
  ℕ, ◌+◌, ◌-◌, ◌≤◌, ◌≡◌, arith, false, List, ◌++◌, length, length-append, take-append, drop-append,
}
use mathlib.Core.List.{append_assoc}
use asyncssh.Base.Int.{pos}
use asyncssh.Base.Slices.{diff, slice_to, slice_from, slice, shorter}

pub diff_pos : (m n : ℕ) → n ≤ m → diff m n ≡ pos (m - n)
unfolding diff
diff_pos m n h = ground arith

-- What stands in the buffer once the first block has been taken out of it: the rest of the packet, the MAC,
-- and what follows.
module _ (body mac rest : List ℕ) (n m : ℕ) (hn : length body ≡ n) (hm : length mac ≡ m) where
  pub slice_to-body : slice_to (pos n) (body ++ (mac ++ rest)) ≡ body
  unfolding slice_to
  slice_to-body = take-append n body (mac ++ rest) hn

  both : length (body ++ mac) ≡ n + m
  both = omega (arith, length-append body mac, hn, hm)

  pub slice-mac : slice (pos n) (pos (n + m)) (body ++ (mac ++ rest)) ≡ mac
  unfolding slice
  slice-mac =
      rw (← append_assoc body mac rest, take-append (n + m) (body ++ mac) rest both)
        (drop-append n body mac hn)

  pub slice_from-rest : slice_from (pos (n + m)) (body ++ (mac ++ rest)) ≡ rest
  unfolding slice_from
  slice_from-rest = rw (← append_assoc body mac rest) (drop-append (n + m) (body ++ mac) rest both)

  pub shorter-none : shorter (length (body ++ (mac ++ rest))) (pos (n + m)) ≡ false
  unfolding shorter
  shorter-none = ground (arith, length-append body (mac ++ rest), length-append mac rest, hn, hm)
