-- ===== src/Channel/Flushing.antt =====
-- The private methods of the sending direction against the invariant.
use asyncssh.Base.{
  ℕ, ◌≡◌, refl, sym, ap, ◌∙◌, subst, inl, inr, Bool, true, Option, none, some, List, [], ◌∷◌, ◌++◌,
  is_empty, ltb, leb, Option-cases,
}
use asyncssh.Channel.Types.{State, Chunk, Message, Channel, is_closed, send_packet, proceed}
use asyncssh.Channel.Send.{
  close_send, pause_resume_writing, send_rounds, send_work, finish_flush, flush_send_buf,
}
use asyncssh.Channel.Stream.{Phase, advance, phase, phase-snoc}
use asyncssh.Channel.Invariant.{
  Numbered, PhaseOf, Good, IsGood, Numbered-some, emptied, closed_after, cons-ne-nil,
  send_packet_lem, send_packet-none, Fits-snoc,
}
use asyncssh.Channel.Rules.{keep_if, keep_if_step, keep_proceed}
use asyncssh.Channel.Rounds.{Sends, send_rounds-Sends}

pub close_send-IsGood : (c : Channel) → IsGood c → IsGood (close_send c)
unfolding close_send
close_send-IsGood c g =
    keep_if IsGood (is_closed c.send_state) _ _
      (λ shut. record { good = emptied c.send_state shut g.good })
      (λ more.
        let (n, h) = Numbered-some c.send_state c.send_chan more g.good.numbered in
        let d : Channel = record c { send_buf = []; send_buf_len = 0 } in
        subst (λ z. IsGood (record z { send_chan = none; send_state = State.closed }))
          (sym (send_packet_lem Message.channel_close d n h))
          (record { good = closed_after c.send_state c.out more g.good }))

pub pause_resume_writing-IsGood : (c : Channel) → IsGood c → IsGood (pause_resume_writing c).1
unfolding pause_resume_writing
pause_resume_writing-IsGood c g =
    keep_if_step IsGood c.send_paused _ _
      (λ _.
        keep_if_step IsGood (leb c.send_buf_len c.send_low_water) _ _
          (λ _.
            keep_if_step IsGood c.has_session _ _ (λ _. record { good = g.good })
              (λ _. record { good = g.good }))
          (λ _. g))
      (λ _.
        keep_if_step IsGood (ltb c.send_high_water c.send_buf_len) _ _
          (λ _.
            keep_if_step IsGood c.has_session _ _ (λ _. record { good = g.good })
              (λ _. record { good = g.good }))
          (λ _. g))

-- While something is buffered the stream has not ended, and the state leaves the buffer free.
record Unended (s : State) (p : Phase) : Type 0 where
  now : p ≡ Phase.streaming
  later : (q : Phase) (buf : List Chunk) → q ≡ Phase.streaming → PhaseOf s q buf

unended : (s : State) (p : Phase) (x : Chunk) (xs : List Chunk) → PhaseOf s p (x ∷ xs) → Unended s p
unended State.closed p x xs h = absurd (cons-ne-nil h.1)
unended State.eof p x xs h = absurd (cons-ne-nil h.1)
unended State.close_pending p x xs (inl h) = record { now = h; later = λ q buf e. inl e }
unended State.close_pending p x xs (inr h) = absurd (cons-ne-nil h.1)
unended State.open_ p x xs h = record { now = h; later = λ q buf e. e }
unended State.eof_pending p x xs h = record { now = h; later = λ q buf e. e }

-- Only a channel that is closed has lost its number, and it has nothing to send.
Numbered-some' :
    (s : State) (chan : Option ℕ) (p : Phase) (x : Chunk) (xs : List Chunk)
    → Numbered s chan
    → PhaseOf s p (x ∷ xs)
    → (n : ℕ) × (chan ≡ some n)
Numbered-some' State.closed chan p x xs m h = absurd (cons-ne-nil h.1)
Numbered-some' State.eof chan p x xs m h = m
Numbered-some' State.close_pending chan p x xs m h = m
Numbered-some' State.open_ chan p x xs m h = m
Numbered-some' State.eof_pending chan p x xs m h = m

Sends-IsGood :
    {c d : Channel} (x : Chunk) (xs : List Chunk)
    → c.send_buf ≡ x ∷ xs
    → IsGood c
    → Sends c d
    → IsGood d
Sends-IsGood {c} {d} x xs e g s =
    let u =
      unended c.send_state (phase c.out) x xs
        (subst (λ b. PhaseOf c.send_state (phase c.out) b) e g.good.ordered) in
    rw s.frame (record {
      good = record {
        numbered = g.good.numbered;
        ordered = u.later (phase d.out) d.send_buf (s.order u.now);
        counted = s.counted g.good.counted;
        fits = s.fits g.good.fits;
        attached = g.good.attached;
      };
    })

pub send_rounds-IsGood :
    (fuel : ℕ) (xs : List Chunk) (c : Channel)
    → c.send_buf ≡ xs
    → IsGood c
    → IsGood (send_rounds fuel xs c).1
send_rounds-IsGood fuel [] c e g = unfold send_rounds in g
send_rounds-IsGood fuel (x ∷ xs) c e g =
    let o = subst (λ b. PhaseOf c.send_state (phase c.out) b) e g.good.ordered in
    let (n, h) = Numbered-some' c.send_state c.send_chan (phase c.out) x xs g.good.numbered o in
    Sends-IsGood x xs e g (send_rounds-Sends fuel (x ∷ xs) c n h e)

-- An end of file leaves a stream that was open.
ended_after :
    {chan : Option ℕ} {buf : List Chunk} {len : ℕ} (out : List Message) {size : ℕ} {b : Bool}
    → buf ≡ []
    → Good State.eof_pending chan buf len out size b
    → Good State.eof chan buf len (out ++ Message.channel_eof ∷ []) size b
unfolding advance
ended_after out {size} e g = record {
  numbered = g.numbered;
  ordered = (rw (phase-snoc out Message.channel_eof, g.ordered), e);
  counted = g.counted;
  fits = Fits-snoc size out Message.channel_eof g.fits tt;
  attached = g.attached;
}

-- A window adjustment leaves the phase alone, and a closed channel sends none.
adjusted_after :
    (s : State) {n : ℕ} {chan : Option ℕ} {buf : List Chunk} {len : ℕ} (m : ℕ) (out : List Message)
    {size : ℕ} {b : Bool}
    → chan ≡ some n
    → Good s chan buf len out size b
    → Good s chan buf len (out ++ Message.window_adjust m ∷ []) size b
unfolding advance
adjusted_after s {chan} {buf} m out {size} h g = record {
  numbered = g.numbered;
  ordered = kept s (phase out) g.numbered g.ordered (phase-snoc out (Message.window_adjust m));
  counted = g.counted;
  fits = Fits-snoc size out (Message.window_adjust m) g.fits tt;
  attached = g.attached;
}
  where
    kept :
        (s : State) (p : Phase) {q : Phase}
        → Numbered s chan
        → PhaseOf s p buf
        → q ≡ advance p (Message.window_adjust m)
        → PhaseOf s q buf
    kept State.closed p d o e = let none_left : ⊥ = cc in absurd none_left
    kept State.eof p d o e = (e ∙ ap (λ z. advance z (Message.window_adjust m)) o.0, o.1)
    kept State.close_pending p d (inl o) e =
        inl (e ∙ ap (λ z. advance z (Message.window_adjust m)) o)
    kept State.close_pending p d (inr o) e =
        inr (e ∙ ap (λ z. advance z (Message.window_adjust m)) o.0, o.1)
    kept State.open_ p d o e = e ∙ ap (λ z. advance z (Message.window_adjust m)) o
    kept State.eof_pending p d o e = e ∙ ap (λ z. advance z (Message.window_adjust m)) o

finish_flush-IsGood :
    (s : State) (c : Channel)
    → c.send_state ≡ s
    → c.send_buf ≡ []
    → IsGood c
    → IsGood (finish_flush s c)
unfolding finish_flush
finish_flush-IsGood State.eof_pending c h e g =
    let good =
      subst (λ s. Good s c.send_chan c.send_buf c.send_buf_len c.out c.send_pktsize c.has_session) h
        g.good in
    let (n, m) = good.numbered in
    subst (λ z. IsGood (record z { send_state = State.eof }))
      (sym (send_packet_lem Message.channel_eof c n m)) (record { good = ended_after c.out e good })
finish_flush-IsGood State.close_pending c h e g = close_send-IsGood c g
finish_flush-IsGood _ c h e g = g

is_empty-eq-nil : (xs : List Chunk) → is_empty xs ≡ true → xs ≡ []
is_empty-eq-nil [] h = refl
is_empty-eq-nil (x ∷ xs) h = cc

pub flush_send_buf-IsGood : (c : Channel) → IsGood c → IsGood (flush_send_buf c).1
unfolding flush_send_buf
flush_send_buf-IsGood c g =
    let sent_off = send_rounds (send_work c.send_buf) c.send_buf c in
    let d = sent_off.1 in
    let kept = send_rounds-IsGood (send_work c.send_buf) c.send_buf c refl g in
    let paused = proceed sent_off.0 pause_resume_writing d in
    let kept' =
      keep_proceed IsGood sent_off.0 pause_resume_writing d kept
        (pause_resume_writing-IsGood d kept) in
    keep_proceed IsGood paused.0 _ paused.1 kept' (
      keep_if IsGood (is_empty paused.1.send_buf) _ _
        (λ none_left.
          finish_flush-IsGood paused.1.send_state paused.1 refl (is_empty-eq-nil _ none_left) kept')
        (λ _. kept'))

pub send_adjust-IsGood :
    (m : ℕ) (c : Channel) → IsGood c → IsGood (send_packet (Message.window_adjust m) c)
send_adjust-IsGood m c g = elim (Option-cases c.send_chan) [
  | inl h ↦ subst IsGood (sym (send_packet-none (Message.window_adjust m) c h)) g
  | inr (n, h) ↦
      subst IsGood (sym (send_packet_lem (Message.window_adjust m) c n h))
        (record { good = adjusted_after c.send_state m c.out h g.good })
]
