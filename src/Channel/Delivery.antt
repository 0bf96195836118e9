-- ===== src/Channel/Delivery.antt =====
-- Delivery to the session, and packets that arrive while reading is paused: the methods _flush_recv_buf,
-- _deliver_data and _accept_data of SSHChannel in asyncssh/channel.py.
use mathlib.Core.List.{append-nil, append_assoc}
use asyncssh.Base.{
  ℕ, zero, suc, Bool, not, ok, map, replicate, if◌then◌else◌, ◌&&◌, ◌||◌, ◌*◌, ◌+◌, ◌-◌, ◌<◌, ◌≤◌,
  ◌≡◌, refl, sym, ap, ◌∙◌, arith, true, false, some, List, [], ◌∷◌, ◌++◌, length, is_empty_pos,
  Bool-cases, inl, inr, All, ltb,
}
use asyncssh.Channel.Types.{
  Paused, Chunk, Message, Event, Session, Channel, Step, is_ending, is_running, returns, proceed,
  send_packet,
}
use asyncssh.Channel.Receive.{consume_window, hand_over, deliver_data, deliver_all, accept_data}
use asyncssh.Channel.Handlers.{receive}
use asyncssh.Channel.Stream.{total, granted, granted_snoc}

-- The front of a list up to and with the first element that passes a test, and the rest.
unfoldable pub up_to : (Chunk → Bool) → List Chunk → List Chunk
up_to stop [] = []
up_to stop (x ∷ xs) = if stop x then x ∷ [] else x ∷ up_to stop xs

unfoldable pub beyond : (Chunk → Bool) → List Chunk → List Chunk
beyond stop [] = []
beyond stop (x ∷ xs) = if stop x then xs else beyond stop xs

abbrev pub any : (Chunk → Bool) → List Chunk → Bool
any stop [] = false
any stop (x ∷ xs) = stop x || any stop xs

all_replicate : (P : Chunk → Type 0) (n : ℕ) (x : Chunk) → P x → All P (replicate n x)
all_replicate P zero x p = tt
all_replicate P (suc n) x p = (p, all_replicate P n x p)

total-append : (xs ys : List Chunk) → total (xs ++ ys) ≡ total xs + total ys
total-append [] ys = omega arith
total-append (x ∷ xs) ys = omega (arith, total-append xs ys)

total-replicate : (n : ℕ) (x : Chunk) → total (replicate n x) ≡ n * length x.body
total-replicate zero x = omega arith
total-replicate (suc n) x = grind (arith, total-replicate n x)

overrun : (bound a n t : ℕ) → 0 < n → t ≡ a + suc bound * n → bound < t
overrun bound a n t h e = grind arith

-- The window that is taken is granted again, or still missing.
consume_window_lem :
    (k : ℕ) (c : Channel) (n : ℕ)
    → c.send_chan ≡ some n
    → k ≤ c.recv_window
    → c.recv_window ≤ c.init_recv_window
    → ((consume_window k c).recv_window ≤ c.init_recv_window)
      × ((consume_window k c).recv_window + k + granted c.out
          ≡ c.recv_window + granted (consume_window k c).out)
unfolding consume_window send_packet granted
consume_window_lem k c n chan le bound =
    ground
      (arith, granted_snoc c.out (Message.window_adjust (c.init_recv_window + k - c.recv_window)))

module _ (session : Session) where
  -- While reading is paused, a packet that fits the whole window is accepted, and the window stays.
  receive_paused :
      (x : Chunk) (c : Channel)
      → c.recv_paused ≡ Paused.paused
      → is_ending c.send_state ≡ false
      → 0 < length x.body
      → length x.body ≤ c.recv_window
      → receive session x c ≡ returns (record c { recv_buf = c.recv_buf ++ x ∷ [] })
  unfolding receive accept_data
  receive_paused x c paused open_ some_data fits =
      let small : ltb c.recv_window (length x.body) ≡ false = ground arith in
      let held : is_running c.recv_paused ≡ false = ap is_running paused in
      rw (small, is_empty_pos x.body some_data, open_, held)

  -- The packets are received one after the other, until one is refused.
  unfoldable pub receive_all : List Chunk → Channel → Step
  unfolding receive
  receive_all [] c = returns c
  receive_all (x ∷ xs) c = proceed (receive session x c).0 (receive_all xs) (receive session x c).1

  receive_all_paused :
      (xs : List Chunk) (c : Channel)
      → c.recv_paused ≡ Paused.paused
      → is_ending c.send_state ≡ false
      → All (λ x. (0 < length x.body) × (length x.body ≤ c.recv_window)) xs
      → receive_all xs c ≡ returns (record c { recv_buf = c.recv_buf ++ xs })
  unfolding receive_all
  receive_all_paused [] c paused open_ h =
      ap (λ b. returns (record c { recv_buf = b })) (sym (append-nil c.recv_buf))
  receive_all_paused (x ∷ xs) c paused open_ ((some_data, fits), h) =
      rw (receive_paused x c paused open_ some_data fits) (
        receive_all_paused xs (record c { recv_buf = c.recv_buf ++ x ∷ [] }) paused open_ h
        ∙ ap (λ b. returns (record c { recv_buf = b })) (append_assoc c.recv_buf (x ∷ []) xs))

  -- However large a bound, the peer can make the channel buffer more bytes: while reading is paused and the sending
  -- side is neither closed nor about to be, one packet more than the bound, each with the same data, which is not
  -- empty and fits the receive window, is accepted, and all of it is buffered on top of what was; the window stays
  -- as it is, and no adjustment of it is sent.
  pub paused_overrun :
      (bound : ℕ) (x : Chunk) (c : Channel)
      → c.recv_paused ≡ Paused.paused
      → is_ending c.send_state ≡ false
      → 0 < length x.body
      → length x.body ≤ c.recv_window
      → let r = receive_all (replicate (suc bound) x) c in
        (r.0 ≡ ok tt)
        × (bound < total r.1.recv_buf)
        × (total r.1.recv_buf ≡ total c.recv_buf + suc bound * length x.body)
        × (r.1.recv_window ≡ c.recv_window)
        × (granted r.1.out ≡ granted c.out)
  paused_overrun bound x c paused open_ some_data fits =
      let xs = replicate (suc bound) x in
      let held =
        receive_all_paused xs c paused open_ (all_replicate _ (suc bound) x (some_data, fits)) in
      let size =
        total-append c.recv_buf xs
        ∙ ap (λ n. total c.recv_buf + n) (total-replicate (suc bound) x) in
      rw held (refl, overrun bound _ _ _ some_data size, size, refl, refl)

  consume_events :
      (k : ℕ) (c : Channel)
      → ((consume_window k c).events ≡ c.events)
        × ((consume_window k c).has_session ≡ c.has_session)
        × ((consume_window k c).recv_buf ≡ c.recv_buf)
        × ((consume_window k c).recv_paused ≡ c.recv_paused)
  unfolding consume_window send_packet
  consume_events k c = ground arith

  -- A chunk is handed to the session, which may pause reading.
  deliver_data_lem :
      (x : Chunk) (c : Channel)
      → c.has_session ≡ true
      → let d = deliver_data session x c in
        (d.events ≡ c.events ++ Event.data_received x ∷ [])
        × (d.has_session ≡ true)
        × (d.recv_paused ≡ (if session.pauses_on x then Paused.paused else c.recv_paused))
  unfolding deliver_data hand_over
  deliver_data_lem x c h =
      let (e, s, _, p) = consume_events (length x.body) c in
      rw (s ∙ h) (rw (e, p) (refl, refl, refl))

  deliver_all_part :
      (go : Bool) (xs : List Chunk) (c : Channel)
      → c.has_session ≡ true
      → is_running c.recv_paused ≡ go
      → let d = deliver_all session xs c in
        let stop = session.pauses_on in
        let given = if go then up_to stop xs else [] in
        (d.events ≡ c.events ++ map Event.data_received given)
        × (d.recv_buf ≡ (if go then beyond stop xs else xs))
        × (is_running d.recv_paused ≡ (go && not (any stop xs)))
        × (given ++ d.recv_buf ≡ xs)
  unfolding deliver_all up_to beyond
  deliver_all_part true [] c h e = (sym (append-nil c.events), refl, e, refl)
  deliver_all_part false [] c h e = (sym (append-nil c.events), refl, e, refl)
  deliver_all_part false (x ∷ xs) c h e = rw e (sym (append-nil c.events), refl, e, refl)
  deliver_all_part true (x ∷ xs) c h e =
      let stop = session.pauses_on in
      let start = record c { recv_buf = xs } in
      let d = deliver_data session x start in
      let (told, s, reads) = deliver_data_lem x start h in
      let all : deliver_all session (x ∷ xs) c ≡ deliver_all session xs d = rw e refl in
      elim (Bool-cases (stop x)) [
        | inl p ↦
            (let q : is_running d.recv_paused ≡ false = ap is_running reads ∙ rw p refl in
              let (events, buf, reading, whole) = deliver_all_part false xs d s q in
              let front : up_to stop (x ∷ xs) ≡ x ∷ [] = rw p refl in
              let back : beyond stop (x ∷ xs) ≡ xs = rw p refl in
              (
                ap (λ d. d.events) all
                    ∙ events
                    ∙ append-nil d.events
                    ∙ told
                    ∙ sym (ap (λ t. c.events ++ map Event.data_received t) front),
                ap (λ d. d.recv_buf) all ∙ buf ∙ sym back,
                ap (λ d. is_running d.recv_paused) all
                    ∙ reading
                    ∙ sym (ap (λ b. not (b || any stop xs)) p),
                ap (λ t. t ++ (deliver_all session (x ∷ xs) c).recv_buf) front
                    ∙ ap (λ t. x ∷ t) (ap (λ d. d.recv_buf) all ∙ buf),
              ))
        | inr p ↦
            (let q : is_running d.recv_paused ≡ true = ap is_running reads ∙ rw p e in
              let (events, buf, reading, whole) = deliver_all_part true xs d s q in
              let front : up_to stop (x ∷ xs) ≡ x ∷ up_to stop xs = rw p refl in
              let back : beyond stop (x ∷ xs) ≡ beyond stop xs = rw p refl in
              let given = map Event.data_received (up_to stop xs) in
              (
                ap (λ d. d.events) all
                    ∙ events
                    ∙ ap (λ t. t ++ given) told
                    ∙ append_assoc c.events (Event.data_received x ∷ []) given
                    ∙ sym (ap (λ t. c.events ++ map Event.data_received t) front),
                ap (λ d. d.recv_buf) all ∙ buf ∙ sym back,
                ap (λ d. is_running d.recv_paused) all
                    ∙ reading
                    ∙ sym (ap (λ b. not (b || any stop xs)) p),
                ap (λ t. t ++ (deliver_all session (x ∷ xs) c).recv_buf) front
                    ∙ ap (λ t. x ∷ t) (ap (λ d. up_to stop xs ++ d.recv_buf) all ∙ whole),
              ))
      ]

  -- The loop of `_flush_recv_buf`, in terms of lists. If reading is paused or has not started, nothing is delivered
  -- and all stays in the buffer. Otherwise the session gets the front of the buffer, up to and with the first
  -- chunk on which it pauses, in order and one call each, and what is behind that chunk stays; then reading is
  -- paused, or, if the session paused on none, the buffer is empty and reading goes on. The two parts make up
  -- what was buffered. The channel has a session.
  pub deliver_all_stream :
      (xs : List Chunk) (c : Channel)
      → c.has_session ≡ true
      → let d = deliver_all session xs c in
        let stop = session.pauses_on in
        let given = if is_running c.recv_paused then up_to stop xs else [] in
        (d.events ≡ c.events ++ map Event.data_received given)
        × (d.recv_buf ≡ (if is_running c.recv_paused then beyond stop xs else xs))
        × (is_running d.recv_paused ≡ (is_running c.recv_paused && not (any stop xs)))
        × (given ++ d.recv_buf ≡ xs)
  deliver_all_stream xs c h = deliver_all_part (is_running c.recv_paused) xs c h refl
