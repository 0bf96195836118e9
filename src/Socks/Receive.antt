-- ===== src/Socks/Receive.antt =====
-- `data_received` of SSHSOCKSForwarder, for a forwarder that has no peer yet: `forward` is a task, and
-- what comes after a request is kept in `_inpbuf` until the task has set the peer.
use asyncssh.Base.{
  ℕ, zero, suc, Bool, true, false, Option, none, some, List, [], ◌∷◌, ◌++◌, length, take, drop, ltb,
  leb, ◌==◌, if◌then◌else◌, ok, err, Error,
}
use asyncssh.Socks.Machine.{
  Handler, idle, Needed, until_nul, exactly, Forwarder, Step, returns, raises, close, dispatch,
}

-- What a wait for input finds.
pub data Input : Type 0 where
  found : List ℕ → List ℕ → Input
  waiting too_long : Input

-- The bytes before the first NUL, and those after it.
unfoldable pub split_nul : List ℕ → Option (List ℕ × List ℕ)
split_nul [] = none
split_nul (b ∷ bs) =
    if 0 == b
    then some ([], bs)
    else elim (split_nul bs) [ none ↦ none | some parts ↦ some (b ∷ parts.0, parts.1) ]

unfoldable pub next_input : Needed → List ℕ → Input
unfolding split_nul
next_input until_nul inpbuf = elim (split_nul inpbuf) [
  | none ↦ if ltb 255 (length inpbuf) then too_long else waiting
  | some parts ↦ found parts.0 parts.1
]
next_input (exactly n) inpbuf =
    if leb n (length inpbuf) then found (take n inpbuf) (drop n inpbuf) else waiting

-- `if self._recv_handler`
abbrev pub is_idle : Handler → Bool
is_idle idle = true
is_idle h = false

-- A bound on the rounds for `n` bytes of input.
abbrev pub enough : ℕ → ℕ
enough n = suc (suc (suc (suc (suc (suc (suc (suc (suc n))))))))

module _ (is_utf8 : List ℕ → Bool) where
  -- The loop, on fuel. The rest of `_inpbuf` is then passed to `super().data_received`, which puts it back.
  unfoldable pub rounds : ℕ → Forwarder → Step
  unfolding next_input dispatch close
  rounds zero s = raises Error.out_of_fuel s
  rounds (suc n) s =
      if is_idle s.recv_handler then returns s else elim (next_input s.bytes_needed s.inpbuf) [
        | waiting ↦ returns s
        | too_long ↦ close s
        | found bytes rest ↦
            (let t = dispatch is_utf8 s.recv_handler bytes (record s { inpbuf = rest }) in
              elim t.0 [ err e ↦ raises e t.1 | ok u ↦ rounds n t.1 ])
      ]

  unfoldable pub data_received : List ℕ → Forwarder → Step
  data_received bytes s =
      if is_idle s.recv_handler
      then returns (record s { inpbuf = s.inpbuf ++ bytes })
      else (let t = record s { inpbuf = s.inpbuf ++ bytes } in rounds (enough (length t.inpbuf)) t)
