-- ===== src/Socks/Termination.antt =====
-- The loop of `data_received` ends.
use asyncssh.Base.{
  ℕ, zero, suc, ◌+◌, length-take, length-drop, ◌≤◌, ◌<◌, inl, inr, ◌≡◌, ◌≢◌, refl, ap, arith, Bool,
  true, false, Option, none, some, List, [], ◌∷◌, ◌++◌, length, take, drop, ltb, leb, ◌==◌,
  Bool-cases, if◌then◌else◌, ok, err, Error,
}
use asyncssh.Socks.Machine.{
  Handler, idle, version, socks4_addr, socks4_user, socks4_hostname, socks5_authlist,
  socks5_command, socks5_addr, socks5_hostlen, socks5_host, socks5_port, Needed, until_nul, exactly,
  Forwarder, Step, returns, raises, close, dispatch,
}
use asyncssh.Socks.Receive.{
  Input, found, waiting, too_long, split_nul, next_input, is_idle, rounds, data_received,
}
use asyncssh.Socks.Rules.{rank, bit, measure, Advances, stopped, nearer}
use asyncssh.Socks.Advances.{dispatch-Advances}

-- What is found is part of the input.
data Fits (n : ℕ) : Input → Type 0 where
  nothing : Fits n waiting
  refused : Fits n too_long
  part : {bytes rest : List ℕ} → length bytes + length rest ≤ n → Fits n (found bytes rest)

data Splits (n : ℕ) : Option (List ℕ × List ℕ) → Type 0 where
  no_nul : Splits n none
  at_nul : {parts : List ℕ × List ℕ} → length parts.0 + length parts.1 < n → Splits n (some parts)

cons_Splits :
    (b : Bool) (x : ℕ) (xs : List ℕ) (o : Option (List ℕ × List ℕ))
    → Splits (length xs) o
    → Splits (suc (length xs)) (
        if b then some ([], xs) else elim o as (λ p. Option (List ℕ × List ℕ)) [
          | none ↦ none
          | some parts ↦ some (x ∷ parts.0, parts.1)
        ])
cons_Splits true x xs o h = at_nul (omega arith)
cons_Splits false x xs none h = no_nul
cons_Splits false x xs (some parts) (at_nul h) = at_nul (omega (arith, h))

split_nul-Splits : (xs : List ℕ) → Splits (length xs) (split_nul xs)
unfolding split_nul
split_nul-Splits [] = no_nul
split_nul-Splits (x ∷ xs) = cons_Splits (0 == x) x xs (split_nul xs) (split_nul-Splits xs)

nul_Fits :
    (n : ℕ) (b : Bool) (o : Option (List ℕ × List ℕ))
    → Splits n o
    → Fits n (elim o as (λ p. Input) [
      | none ↦ if b then too_long else waiting
      | some parts ↦ found parts.0 parts.1
    ])
nul_Fits n true none h = refused
nul_Fits n false none h = nothing
nul_Fits n b (some parts) (at_nul h) = part (omega (arith, h))

exactly_Fits :
    (n : ℕ) (xs : List ℕ) (b : Bool)
    → Fits (length xs) (if b then found (take n xs) (drop n xs) else waiting)
exactly_Fits n xs true = part (omega (arith, length-take n xs, length-drop n xs))
exactly_Fits n xs false = nothing

next_input-Fits : (k : Needed) (xs : List ℕ) → Fits (length xs) (next_input k xs)
unfolding next_input
next_input-Fits until_nul xs = nul_Fits _ (ltb 255 (length xs)) (split_nul xs) (split_nul-Splits xs)
next_input-Fits (exactly n) xs = exactly_Fits n xs (leb n (length xs))

-- The loop's bound was not reached.
abbrev Ends : Step → Type 0
Ends x = x.0 ≢ err Error.out_of_fuel

module _ (is_utf8 : List ℕ → Bool) (utf8_empty : is_utf8 [] ≡ true) where
  after_Ends :
      (m : ℕ) (rest : List ℕ) (x : Step) (k : Forwarder → Step)
      → Advances m rest x
      → ((t : Forwarder) → measure t < m → t.inpbuf ≡ rest → Ends (k t))
      → Ends (elim x.0 as (λ r. Step) [ err e ↦ raises e x.1 | ok u ↦ k x.1 ])
  after_Ends m rest (err e, t) k (stopped h) f = λ p. h cc
  after_Ends m rest (ok u, t) k (nearer d e) f = f t d e

  round_Ends :
      (n : ℕ) (s : Forwarder) (i : Input)
      → Fits (length s.inpbuf) i
      → is_idle s.recv_handler ≡ false
      → ((t : Forwarder)
          → measure t + length t.inpbuf < measure s + length s.inpbuf
          → Ends (rounds is_utf8 n t))
      → Ends (elim i as (λ j. Step) [
        | waiting ↦ returns s
        | too_long ↦ close s
        | found bytes rest ↦
            (let t = dispatch is_utf8 s.recv_handler bytes (record s { inpbuf = rest }) in
              elim t.0 [ err e ↦ raises e t.1 | ok u ↦ rounds is_utf8 n t.1 ])
      ])
  unfolding close
  round_Ends n s waiting h i f = λ e. cc
  round_Ends n s too_long h i f = λ e. cc
  round_Ends n s (found bytes rest) (part h) i f =
      after_Ends _ rest _ (rounds is_utf8 n)
        (dispatch-Advances is_utf8 utf8_empty s.recv_handler bytes (record s { inpbuf = rest }) refl
          i)
        (λ t d e. f t (omega (arith, d, h, ap (length) e)))

  rounds-Ends :
      (n : ℕ) (s : Forwarder) → measure s + length s.inpbuf < n → Ends (rounds is_utf8 n s)
  unfolding rounds
  rounds-Ends zero s h = omega (arith, h)
  rounds-Ends (suc n) s h = elim (Bool-cases (is_idle s.recv_handler)) [
    | inl i ↦ rw (i) (λ e. cc)
    | inr i ↦ rw (i) (
        round_Ends n s (next_input s.bytes_needed s.inpbuf) (next_input-Fits _ _) i
          (λ t d. rounds-Ends n t (omega (arith, d, h))))
  ]

rank_bound : (h : Handler) → rank h ≤ 7
unfolding rank
rank_bound idle = omega arith
rank_bound version = omega arith
rank_bound socks4_addr = omega arith
rank_bound socks4_user = omega arith
rank_bound socks4_hostname = omega arith
rank_bound socks5_authlist = omega arith
rank_bound socks5_command = omega arith
rank_bound socks5_addr = omega arith
rank_bound socks5_hostlen = omega arith
rank_bound socks5_host = omega arith
rank_bound socks5_port = omega arith

bit_bound : (b : Bool) → bit b ≤ 1
unfolding bit
bit_bound true = omega arith
bit_bound false = omega arith

measure_bound : (s : Forwarder) → measure s ≤ 8
measure_bound s = omega (arith, rank_bound s.recv_handler, bit_bound s.has_transport)

-- If the UTF-8 decoder takes the empty string, then in every state and for all data the bound on the rounds of
-- `data_received` is enough: it returns or raises one of the program's exceptions.
pub data_received_ends :
    (is_utf8 : List ℕ → Bool)
    → is_utf8 [] ≡ true
    → (bytes : List ℕ) (s : Forwarder) → (data_received is_utf8 bytes s).0 ≢ err Error.out_of_fuel
unfolding data_received
data_received_ends is_utf8 h bytes s = elim (Bool-cases (is_idle s.recv_handler)) [
  | inl i ↦ rw (i) (λ e. cc)
  | inr i ↦ rw (i) (
      rounds-Ends is_utf8 h _ (record s { inpbuf = s.inpbuf ++ bytes })
        (omega (arith, measure_bound (record s { inpbuf = s.inpbuf ++ bytes }))))
]
