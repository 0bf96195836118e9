-- ===== src/Channel/Writing.antt =====
-- `write` on an open channel.
use mathlib.Core.List.{append-nil, append_assoc}
use asyncssh.Base.{
  ℕ, ◌+◌, ◌<◌, ◌≡◌, refl, sym, ap, ◌∙◌, subst, arith, Bool, true, false, some, List, [], ◌∷◌, ◌++◌,
  length, is_empty, is_empty_pos, if◌then◌else◌, ok, err, Error,
}
use asyncssh.Channel.Types.{State, Chunk, Channel, Step, is_open}
use asyncssh.Channel.Send.{
  pause_resume_writing, send_rounds, send_work, finish_flush, flush_send_buf,
}
use asyncssh.Channel.Handlers.{write, allowed}
use asyncssh.Channel.Stream.{tagged, pending, pending-append, sent}
use asyncssh.Channel.Rounds.{send_rounds-Sends, send_rounds_total, send_rounds_endless}

-- With a session, the water marks only change the pause.
pause_keeps :
    (c : Channel)
    → c.has_session ≡ true
    → ((pause_resume_writing c).0 ≡ ok tt)
      × ((pause_resume_writing c).1.out ≡ c.out)
      × ((pause_resume_writing c).1.send_buf ≡ c.send_buf)
      × ((pause_resume_writing c).1.send_state ≡ c.send_state)
      × ((pause_resume_writing c).1.send_window ≡ c.send_window)
unfolding pause_resume_writing
pause_keeps c h = ground arith

finish_flush_open :
    (s : State) (b : Bool) (c : Channel) → s ≡ State.open_ → (if b then finish_flush s c else c) ≡ c
unfolding finish_flush
finish_flush_open State.open_ true c e = refl
finish_flush_open State.open_ false c e = refl
finish_flush_open State.closed b c e = cc
finish_flush_open State.eof b c e = cc
finish_flush_open State.eof_pending b c e = cc
finish_flush_open State.close_pending b c e = cc

-- `_flush_send_buf` on an open channel.
pub record Flushes (c : Channel) (s : Step) : Type 0 where
  pub returned : s.0 ≡ ok tt
  pub stream : sent s.1.out ++ pending s.1.send_buf ≡ sent c.out ++ pending c.send_buf
  pub credit : length (sent s.1.out) + s.1.send_window ≡ length (sent c.out) + c.send_window
  pub still_open : s.1.send_state ≡ State.open_

flush_send_buf-Flushes :
    (c : Channel) (n : ℕ)
    → c.send_chan ≡ some n
    → c.has_session ≡ true
    → c.send_state ≡ State.open_
    → 0 < c.send_pktsize
    → Flushes c (flush_send_buf c)
unfolding flush_send_buf
flush_send_buf-Flushes c n chan session open_ size =
    let s = send_rounds (send_work c.send_buf) c.send_buf c in
    let d = s.1 in
    let sends = send_rounds-Sends (send_work c.send_buf) c.send_buf c n chan refl in
    let done = send_rounds_total (send_work c.send_buf) c.send_buf c size (omega arith) in
    let (fine, out, buf, state, window) =
      pause_keeps d (ap (λ z. z.has_session) sends.frame ∙ session) in
    let e = (pause_resume_writing d).1 in
    let e_open : e.send_state ≡ State.open_ = state ∙ ap (λ z. z.send_state) sends.frame ∙ open_ in
    rw (done, fine, finish_flush_open e.send_state (is_empty e.send_buf) e e_open)
      (record {
        returned = refl;
        stream = rw (out, buf) sends.stream;
        credit = rw (out, window) sends.credit;
        still_open = e_open;
      })

-- What `write` promises: it returns, the data joins the end of the stream of sent and waiting bytes, each
-- byte that was sent used up one byte of the peer's window, and the channel stays open.
pub record Writes (x : Chunk) (c : Channel) (s : Step) : Type 0 where
  pub returned : s.0 ≡ ok tt
  pub stream :
      sent s.1.out ++ pending s.1.send_buf
      ≡ (sent c.out ++ pending c.send_buf) ++ tagged x.datatype x.body
  pub credit : length (sent s.1.out) + s.1.send_window ≡ length (sent c.out) + c.send_window
  pub still_open : s.1.send_state ≡ State.open_

-- On an open channel with a number, a session, and a packet size that is not 0, a write of data that is not
-- empty and of an allowed type returns; what was sent and what waits are then what they were, followed by the data; every
-- byte that was sent is taken from the window; and the channel stays open.
pub write-Writes :
    (x : Chunk) (c : Channel) (n : ℕ)
    → c.send_chan ≡ some n
    → c.has_session ≡ true
    → c.send_state ≡ State.open_
    → 0 < c.send_pktsize
    → allowed x.datatype c.write_datatypes ≡ true
    → 0 < length x.body
    → Writes x c (write x c)
unfolding write
write-Writes x c n chan session open_ size right some_data =
    let d : Channel = record c {
      send_buf = c.send_buf ++ x ∷ [];
      send_buf_len = c.send_buf_len + length x.body;
    } in
    let f = flush_send_buf-Flushes d n chan session open_ size in
    rw (ap is_open open_, right, is_empty_pos x.body some_data)
      (record {
        returned = f.returned;
        stream =
            f.stream
            ∙ ap (λ t. sent c.out ++ t)
                (pending-append c.send_buf (x ∷ [])
                  ∙ ap (λ t. pending c.send_buf ++ t) (append-nil _))
            ∙ sym (append_assoc (sent c.out) (pending c.send_buf) _);
        credit = f.credit;
        still_open = f.still_open;
      })

-- If the peer opened the channel with a packet size of 0 and a window that is not, the loop that sends
-- buffered data ends for no number of rounds: `_flush_send_buf` sends empty packets for ever.
pub flush_send_buf_endless :
    (x : Chunk) (xs : List Chunk) (c : Channel) (fuel : ℕ)
    → c.send_buf ≡ x ∷ xs
    → 0 < length x.body
    → 0 < c.send_window
    → c.send_pktsize ≡ 0
    → (send_rounds fuel c.send_buf c).0 ≡ err Error.out_of_fuel
flush_send_buf_endless x xs c fuel e l w s =
    subst (λ b. (send_rounds fuel b c).0 ≡ err Error.out_of_fuel) (sym e)
      (send_rounds_endless fuel x xs c l w s)
