-- ===== src/Channel/Invariant.antt =====
-- The invariant of the sending direction, and how it moves from state to state.
use asyncssh.Base.{
  ℕ, ◌≡◌, refl, ◌≢◌, arith, ◌⊎◌, inl, inr, Bool, true, false, ◌||◌, Option, none, some, List, [],
  ◌∷◌, ◌++◌, All, All-append,
}
use asyncssh.Channel.Types.{State, Chunk, Message, Channel, is_closed, send_packet}
use asyncssh.Channel.Stream.{total, Fits, Phase, advance, phase, phase-snoc}

-- A channel number is there until a close is sent.
abbrev pub Numbered : State → Option ℕ → Type 0
Numbered State.closed chan = chan ≡ none
Numbered _ chan = (n : ℕ) × (chan ≡ some n)

-- What was sent fits the state, and nothing waits behind an end of file.
abbrev pub PhaseOf : State → Phase → List Chunk → Type 0
PhaseOf State.closed p buf = (p ≡ Phase.done) × (buf ≡ [])
PhaseOf State.eof p buf = (p ≡ Phase.ended) × (buf ≡ [])
PhaseOf State.close_pending p buf = (p ≡ Phase.streaming) ⊎ ((p ≡ Phase.ended) × (buf ≡ []))
PhaseOf _ p buf = p ≡ Phase.streaming

abbrev pub is_close_pending : State → Bool
is_close_pending State.close_pending = true
is_close_pending _ = false

pub record Good (s : State) (chan : Option ℕ) (buf : List Chunk) (len : ℕ) (out : List Message)
    (size : ℕ) (has_session : Bool) : Type 0 where
  pub numbered : Numbered s chan
  pub ordered : PhaseOf s (phase out) buf
  pub counted : len ≡ total buf
  pub fits : All (Fits size) out
  pub attached : (is_closed s || has_session) ≡ true

pub cons-ne-nil : {x : Chunk} {xs : List Chunk} → x ∷ xs ≢ []
cons-ne-nil = λ e. cc

-- The sending half of the state is good.
pub record IsGood (c : Channel) : Type 0 where
  pub good :
      Good c.send_state c.send_chan c.send_buf c.send_buf_len c.out c.send_pktsize c.has_session

-- A message that is no data leaves on a numbered channel.
pub send_packet_lem :
    (m : Message) (c : Channel) (n : ℕ)
    → c.send_chan ≡ some n
    → send_packet m c ≡ record c { out = c.out ++ m ∷ [] }
unfolding send_packet
send_packet_lem m c n h = ground arith

pub send_packet-none : (m : Message) (c : Channel) → c.send_chan ≡ none → send_packet m c ≡ c
unfolding send_packet
send_packet-none m c h = ground arith

pub Fits-snoc :
    (size : ℕ) (ms : List Message) (m : Message)
    → All (Fits size) ms
    → Fits size m
    → All (Fits size) (ms ++ m ∷ [])
Fits-snoc size ms m h f = All-append (Fits size) ms (m ∷ []) h (f, tt)

-- A close can be sent in any state that is not closed.
phase_close :
    (s : State) (ms : List Message) (buf : List Chunk)
    → is_closed s ≡ false
    → PhaseOf s (phase ms) buf
    → phase (ms ++ Message.channel_close ∷ []) ≡ Phase.done
unfolding advance
phase_close State.closed ms buf h p = cc
phase_close State.eof ms buf h p = rw (phase-snoc ms Message.channel_close, p.0)
phase_close State.close_pending ms buf h (inl p) = rw (phase-snoc ms Message.channel_close, p)
phase_close State.close_pending ms buf h (inr p) = rw (phase-snoc ms Message.channel_close, p.0)
phase_close State.open_ ms buf h p = rw (phase-snoc ms Message.channel_close, p)
phase_close State.eof_pending ms buf h p = rw (phase-snoc ms Message.channel_close, p)

pub Numbered-some :
    (s : State) (chan : Option ℕ)
    → is_closed s ≡ false
    → Numbered s chan
    → (n : ℕ) × (chan ≡ some n)
Numbered-some State.closed chan h m = cc
Numbered-some State.eof chan h m = m
Numbered-some State.close_pending chan h m = m
Numbered-some State.open_ chan h m = m
Numbered-some State.eof_pending chan h m = m

pub emptied :
    (s : State) {chan : Option ℕ} {buf : List Chunk} {len : ℕ} {out : List Message} {size : ℕ}
    {b : Bool}
    → is_closed s ≡ true
    → Good s chan buf len out size b
    → Good s chan [] 0 out size b
emptied State.closed h g = record {
  numbered = g.numbered;
  ordered = (g.ordered.0, refl);
  counted = refl;
  fits = g.fits;
  attached = g.attached;
}
emptied State.eof h g = cc
emptied State.close_pending h g = cc
emptied State.open_ h g = cc
emptied State.eof_pending h g = cc

-- The close leaves, and the channel number with it.
pub closed_after :
    (s : State) {chan : Option ℕ} {buf : List Chunk} {len : ℕ} (out : List Message) {size : ℕ}
    {b : Bool}
    → is_closed s ≡ false
    → Good s chan buf len out size b
    → Good State.closed none [] 0 (out ++ Message.channel_close ∷ []) size b
closed_after s {buf} out {size} h g = record {
  numbered = refl;
  ordered = (phase_close s out buf h g.ordered, refl);
  counted = refl;
  fits = Fits-snoc size out Message.channel_close g.fits tt;
  attached = refl;
}
