-- ===== src/Channel/Send.antt =====
-- The sending direction: buffering, the window, and the end of the stream.
use asyncssh.Base.{
  ℕ, zero, suc, ◌+◌, ◌-◌, min, true, false, none, List, [], ◌∷◌, length, take, drop, ltb, leb, ◌==◌,
  if◌then◌else◌, is_empty, Error,
}
use asyncssh.Channel.Types.{
  State, Chunk, Message, Event, Channel, Step, returns, raises, ◌then_◌, is_closed, call,
  send_packet, with_session,
}

-- `_close_send`
unfoldable pub close_send : Channel → Channel
unfolding send_packet
close_send c =
    let d = record c { send_buf = []; send_buf_len = 0 } in
    if is_closed c.send_state then d else record (send_packet Message.channel_close d) {
      send_chan = none;
      send_state = State.closed;
    }

-- `_pause_resume_writing`
unfoldable pub pause_resume_writing : Channel → Step
pause_resume_writing c =
    if c.send_paused
    then if leb c.send_buf_len c.send_low_water
      then with_session (λ d. returns (call Event.resume_writing d))
          (record c { send_paused = false })
      else returns c
    else if ltb c.send_high_water c.send_buf_len
    then with_session (λ d. returns (call Event.pause_writing d)) (record c { send_paused = true })
    else returns c

-- The second half of a round of `_flush_send_buf`: the data leaves.
unfoldable pub transmit : Chunk → Channel → Channel
unfolding send_packet
transmit x c = send_packet (Message.channel_data x) (record c {
  send_buf_len = c.send_buf_len - length x.body;
  send_window = c.send_window - length x.body;
})

-- A round: the front of the buffer is `x`, and `xs` stands behind it.
unfoldable pub send_round : Chunk → List Chunk → Channel → Channel
unfolding transmit
send_round x xs c =
    let pktsize = min c.send_window c.send_pktsize in
    if ltb pktsize (length x.body)
    then transmit (record x { body = take pktsize x.body })
        (record c { send_buf = record x { body = drop pktsize x.body } ∷ xs })
    else transmit x (record c { send_buf = xs })

-- `while self._send_buf and self._send_window`, with the buffer as an argument.
unfoldable pub send_rounds : ℕ → List Chunk → Channel → Step
send_rounds fuel [] c = returns c
send_rounds zero (x ∷ xs) c = if c.send_window == 0 then returns c else raises Error.out_of_fuel c
send_rounds (suc fuel) (x ∷ xs) c =
    let c' = send_round x xs c in
    let rest = send_rounds fuel c'.send_buf c' in if c.send_window == 0 then returns c else rest

-- A round removes an entry, or shortens the front one.
abbrev pub send_work : List Chunk → ℕ
send_work [] = 0
send_work (x ∷ xs) = suc (length x.body + send_work xs)

-- The end of `_flush_send_buf`: a pending end of file or close, once nothing is buffered.
unfoldable pub finish_flush : State → Channel → Channel
unfolding close_send send_packet
finish_flush State.eof_pending c = record (send_packet Message.channel_eof c) {
  send_state = State.eof;
}
finish_flush State.close_pending c = close_send c
finish_flush _ c = c

-- `_flush_send_buf`
unfoldable pub flush_send_buf : Channel → Step
unfolding send_rounds finish_flush pause_resume_writing
flush_send_buf c =
    send_rounds (send_work c.send_buf) c.send_buf c then_ pause_resume_writing then_ λ d.
    returns (if is_empty d.send_buf then finish_flush d.send_state d else d)
