-- ===== src/Socks/Steps.antt =====
-- Single rounds of the loop of data_received of SSHSOCKSForwarder, and what a wait for input finds.
use asyncssh.Base.{
  ℕ, suc, ◌≤◌, ◌≡◌, refl, ap, arith, Bool, true, false, Option, none, some, List, [], ◌∷◌, ◌++◌,
  length, length-append, take-append, drop-append, mem, ltb, leb, ◌==◌, Bool-cases, inl, inr,
  if◌then◌else◌, ok, err,
}
use asyncssh.Socks.Machine.{until_nul, exactly, Forwarder, Step, returns, raises, dispatch}
use asyncssh.Socks.Receive.{Input, found, waiting, too_long, split_nul, next_input, is_idle, rounds}

le→leb : (m n : ℕ) → m ≤ n → leb m n ≡ true
le→leb m n h = ground arith

pub next_input_exactly :
    (k : ℕ) (bytes rest : List ℕ)
    → length bytes ≡ k
    → next_input (exactly k) (bytes ++ rest) ≡ found bytes rest
unfolding next_input
next_input_exactly k bytes rest h =
    let long : leb k (length (bytes ++ rest)) ≡ true =
      le→leb _ _ (omega (arith, length-append bytes rest, h)) in
    rw (long, take-append k bytes rest h, drop-append k bytes rest h) refl

mem_tail :
    (b : ℕ) (bytes : List ℕ) → 0 == b ≡ false → mem 0 (b ∷ bytes) ≡ false → mem 0 bytes ≡ false
mem_tail b bytes e h = ground arith

split_nul-append :
    (bytes rest : List ℕ) → mem 0 bytes ≡ false → split_nul (bytes ++ 0 ∷ rest) ≡ some (bytes, rest)
unfolding split_nul
split_nul-append [] rest h = refl
split_nul-append (b ∷ bytes) rest h = elim (Bool-cases (0 == b)) [
  | inl e ↦ cc
  | inr e ↦ rw (e, split_nul-append bytes rest (mem_tail b bytes e h)) refl
]

abbrev found_nul : List ℕ → Option (List ℕ × List ℕ) → Input
found_nul inpbuf parts = elim parts [
  | none ↦ if ltb 255 (length inpbuf) then too_long else waiting
  | some p ↦ found p.0 p.1
]

pub next_input_nul :
    (bytes rest : List ℕ)
    → mem 0 bytes ≡ false
    → next_input until_nul (bytes ++ 0 ∷ rest) ≡ found bytes rest
unfolding next_input
next_input_nul bytes rest h = ap (found_nul (bytes ++ 0 ∷ rest)) (split_nul-append bytes rest h)

module _ (is_utf8 : List ℕ → Bool) where
  -- A round whose handler returns.
  pub round :
      (n : ℕ) (s t : Forwarder) (bytes rest : List ℕ)
      → is_idle s.recv_handler ≡ false
      → next_input s.bytes_needed s.inpbuf ≡ found bytes rest
      → dispatch is_utf8 s.recv_handler bytes (record s { inpbuf = rest }) ≡ returns t
      → rounds is_utf8 (suc n) s ≡ rounds is_utf8 n t
  unfolding rounds
  round n s t bytes rest i e d =
      rw (i, e)
        (ap (λ x. elim x.0 as (λ r. Step) [ err e ↦ raises e x.1 | ok u ↦ rounds is_utf8 n x.1 ]) d)

  pub rounds_idle :
      (n : ℕ) (s : Forwarder) → is_idle s.recv_handler ≡ true → rounds is_utf8 (suc n) s ≡ returns s
  unfolding rounds
  rounds_idle n s i = rw (i) refl
