-- ===== src/Channel/Rounds.antt =====
-- The loop of `_flush_send_buf`, round by round.
use mathlib.Core.List.{append_assoc}
use asyncssh.Base.{
  ℕ, zero, suc, ◌+◌, ◌-◌, ◌≤◌, ◌<◌, ◌≡◌, refl, sym, ap, ◌∙◌, subst, arith, inl, inr, true, false,
  some, List, [], ◌∷◌, ◌++◌, min, length, take, drop, length-append, length-take, length-drop, All,
  All-append, ltb, ◌==◌, Bool-cases, ltb→lt, lt→ltb, ok, err, Error,
}
use asyncssh.Channel.Types.{Chunk, Message, Channel}
use asyncssh.Channel.Send.{transmit, send_round, send_rounds, send_work}
use asyncssh.Channel.Stream.{
  tagged, pending, sent, sent_snoc, granted, granted_snoc, total, Fits, Phase, advance, phase,
  phase-snoc, tagged-take-drop, length-tagged,
}

-- `c` with the fields that sending changes taken from `d`.
abbrev with_send : Channel → Channel → Channel
with_send d c = record c {
  send_buf = d.send_buf;
  send_buf_len = d.send_buf_len;
  send_window = d.send_window;
  out = d.out;
}

-- From `c` to `d` data left the buffer, and nothing else happened.
pub record Sends (c d : Channel) : Type 0 where
  pub frame : d ≡ with_send d c
  -- what was sent, followed by what waits, is as before
  pub stream : sent d.out ++ pending d.send_buf ≡ sent c.out ++ pending c.send_buf
  -- each byte that was sent took one from the window
  pub credit : length (sent d.out) + d.send_window ≡ length (sent c.out) + c.send_window
  pub counted : c.send_buf_len ≡ total c.send_buf → d.send_buf_len ≡ total d.send_buf
  pub fits : All (Fits c.send_pktsize) c.out → All (Fits c.send_pktsize) d.out
  pub order : phase c.out ≡ Phase.streaming → phase d.out ≡ Phase.streaming
  pub grants : granted d.out ≡ granted c.out

pub Sends-refl : (c : Channel) → Sends c c
Sends-refl c = record {
  frame = refl;
  stream = refl;
  credit = refl;
  counted = λ h. h;
  fits = λ h. h;
  order = λ h. h;
  grants = refl;
}

pub Sends-trans : {c d e : Channel} → Sends c d → Sends d e → Sends c e
Sends-trans {c} {d} {e} p q = record {
  frame = q.frame ∙ ap (with_send e) p.frame;
  stream = q.stream ∙ p.stream;
  credit = q.credit ∙ p.credit;
  counted = λ h. q.counted (p.counted h);
  fits = λ h.
      let size : d.send_pktsize ≡ c.send_pktsize = ap (λ z. z.send_pktsize) p.frame in
      subst (λ n. All (Fits n) e.out) size
        (q.fits (subst (λ n. All (Fits n) d.out) (sym size) (p.fits h)));
  order = λ h. q.order (p.order h);
  grants = q.grants ∙ p.grants;
}

transmit_lem :
    (x : Chunk) (c : Channel) (n : ℕ)
    → c.send_chan ≡ some n
    → transmit x c ≡ record c {
      send_buf_len = c.send_buf_len - length x.body;
      send_window = c.send_window - length x.body;
      out = c.out ++ Message.channel_data x ∷ [];
    }
unfolding transmit
transmit_lem x c n h = ground arith

-- One chunk `x` leaves, out of a buffer that held it in front of `ys`.
transmit-Sends :
    (x : Chunk) (ys : List Chunk) (c : Channel) (n : ℕ)
    → c.send_chan ≡ some n
    → pending c.send_buf ≡ tagged x.datatype x.body ++ pending ys
    → total c.send_buf ≡ length x.body + total ys
    → length x.body ≤ c.send_window
    → length x.body ≤ c.send_pktsize
    → Sends c (transmit x (record c { send_buf = ys }))
transmit-Sends x ys c n h e t w s = rw (transmit_lem x (record c { send_buf = ys }) n h) (record {
  frame = refl;
  stream = rw (sent_snoc c.out x, e, append_assoc);
  credit = rw (sent_snoc c.out x) (
      omega (
        arith,
        length-append (sent c.out) (tagged x.datatype x.body),
        length-tagged x.datatype x.body,
      ));
  counted = λ k. omega arith;
  fits = λ k. All-append (Fits c.send_pktsize) c.out _ k (s, tt);
  order = λ k. rw (phase-snoc c.out (Message.channel_data x), k) (unfold advance in refl);
  grants = rw (granted_snoc c.out (Message.channel_data x)) (unfold granted in omega arith);
})

send_round-Sends :
    (x : Chunk) (xs : List Chunk) (c : Channel) (n : ℕ)
    → c.send_chan ≡ some n
    → c.send_buf ≡ x ∷ xs
    → Sends c (send_round x xs c)
unfolding send_round
send_round-Sends x xs c n h e =
    let size = min c.send_window c.send_pktsize in
    elim (Bool-cases (ltb size (length x.body))) [
      | inl long ↦ rw long (
          transmit-Sends (record x { body = take size x.body })
            (record x { body = drop size x.body } ∷ xs) c n h
            (ap pending e
              ∙ ap (λ r. r ++ pending xs) (sym (tagged-take-drop x.datatype size x.body))
              ∙ append_assoc (tagged x.datatype (take size x.body)) _ (pending xs))
            (omega (arith, ap total e, length-take size x.body, length-drop size x.body))
            (omega (arith, length-take size x.body)) (omega (arith, length-take size x.body)))
      | inr short ↦
          rw short
            (transmit-Sends x xs c n h (ap pending e) (ap total e) (ground arith) (ground arith))
    ]

-- The loop, with any fuel, from a channel that has its number.
pub send_rounds-Sends :
    (fuel : ℕ) (xs : List Chunk) (c : Channel) (n : ℕ)
    → c.send_chan ≡ some n
    → c.send_buf ≡ xs
    → Sends c (send_rounds fuel xs c).1
unfolding send_rounds
send_rounds-Sends fuel [] c n h e = Sends-refl c
send_rounds-Sends zero (x ∷ xs) c n h e = elim (Bool-cases (c.send_window == 0)) [
  | inl shut ↦ rw shut (Sends-refl c)
  | inr more ↦ rw more (Sends-refl c)
]
send_rounds-Sends (suc fuel) (x ∷ xs) c n h e =
    let c' = send_round x xs c in
    let step = send_round-Sends x xs c n h e in
    let rest =
      send_rounds-Sends fuel c'.send_buf c' n (ap (λ z. z.send_chan) step.frame ∙ h) refl in
    elim (Bool-cases (c.send_window == 0)) [
      | inl shut ↦ rw shut (Sends-refl c)
      | inr more ↦ rw more (Sends-trans step rest)
    ]

-- The entries of the buffer hold data.
abbrev pub HasData : Chunk → Type 0
HasData x = 0 < length x.body

-- What a transmission leaves alone, with or without a channel number.
transmit_keeps :
    (x : Chunk) (c : Channel)
    → ((transmit x c).send_buf ≡ c.send_buf)
      × ((transmit x c).send_pktsize ≡ c.send_pktsize)
      × ((transmit x c).send_window ≡ c.send_window - length x.body)
unfolding transmit
transmit_keeps x c = ground arith

-- A round leaves less to do, if packets may hold data at all.
send_round-less :
    (x : Chunk) (xs : List Chunk) (c : Channel)
    → 0 < c.send_window
    → 0 < c.send_pktsize
    → (send_work (send_round x xs c).send_buf < send_work (x ∷ xs))
      × ((send_round x xs c).send_pktsize ≡ c.send_pktsize)
unfolding send_round
send_round-less x xs c w s =
    let size = min c.send_window c.send_pktsize in
    let rest : Chunk = record x { body = drop size x.body } in
    let front : Chunk = record x { body = take size x.body } in
    elim (Bool-cases (ltb size (length x.body))) [
      | inl long ↦
          let (buf, pkt, _) = transmit_keeps front (record c { send_buf = rest ∷ xs }) in
          rw long (
            (rw buf (omega (arith, ltb→lt size (length x.body) long, length-drop size x.body))),
            pkt,
          )
      | inr short ↦
          let (buf, pkt, _) = transmit_keeps x (record c { send_buf = xs }) in
          rw short ((rw buf (omega arith)), pkt)
    ]

-- The loop ends: the bytes and entries of the buffer bound its rounds, unless the peer's packet size is 0.
pub send_rounds_total :
    (fuel : ℕ) (xs : List Chunk) (c : Channel)
    → 0 < c.send_pktsize
    → send_work xs ≤ fuel
    → (send_rounds fuel xs c).0 ≡ ok tt
unfolding send_rounds
send_rounds_total fuel [] c s h = refl
send_rounds_total zero (x ∷ xs) c s h = absurd (omega arith)
send_rounds_total (suc fuel) (x ∷ xs) c s h = elim (Bool-cases (c.send_window == 0)) [
  | inl shut ↦ rw shut
  | inr more ↦
      let c' = send_round x xs c in
      let (less, pkt) = send_round-less x xs c (ground arith) s in
      rw more (send_rounds_total fuel c'.send_buf c' (omega arith) (omega arith))
]

-- With packets of size 0 a round sends an empty packet and changes nothing else.
send_round_idle :
    (x : Chunk) (xs : List Chunk) (c : Channel)
    → 0 < length x.body
    → c.send_pktsize ≡ 0
    → ((send_round x xs c).send_buf ≡ x ∷ xs)
      × ((send_round x xs c).send_pktsize ≡ 0)
      × ((send_round x xs c).send_window ≡ c.send_window)
unfolding send_round
send_round_idle x xs c l s =
    let size = min c.send_window c.send_pktsize in
    let none_left : size ≡ 0 = omega arith in
    let long : ltb size (length x.body) ≡ true = lt→ltb size (length x.body) (omega arith) in
    let front : Chunk = record x { body = take size x.body } in
    let rest : Chunk = record x { body = drop size x.body } in
    let (buf, pkt, win) = transmit_keeps front (record c { send_buf = rest ∷ xs }) in
    rw long (
      buf ∙ ap (λ n. record x { body = drop n x.body } ∷ xs) none_left,
      pkt ∙ s,
      omega (arith, length-take size x.body),
    )

-- With a packet size of 0, data in the buffer and an open window, the loop ends for no number of rounds.
pub send_rounds_endless :
    (fuel : ℕ) (x : Chunk) (xs : List Chunk) (c : Channel)
    → 0 < length x.body
    → 0 < c.send_window
    → c.send_pktsize ≡ 0
    → (send_rounds fuel (x ∷ xs) c).0 ≡ err Error.out_of_fuel
unfolding send_rounds
send_rounds_endless zero x xs c l w s = ground arith
send_rounds_endless (suc fuel) x xs c l w s =
    let (buf, pkt, win) = send_round_idle x xs c l s in
    let c' = send_round x xs c in
    let more : (c.send_window == 0) ≡ false = ground arith in
    let rest = send_rounds_endless fuel x xs c' l (omega arith) pkt in
    rw more (subst (λ b. (send_rounds fuel b c').0 ≡ err Error.out_of_fuel) (sym buf) rest)
