-- ===== src/Channel/Receive.antt =====
-- The receiving direction: delivery to the session, window updates, and the end of the stream.
use asyncssh.Base.{
  ℕ, ◌+◌, ◌-◌, ◌*◌, true, not, ◌&&◌, List, [], ◌∷◌, ◌++◌, length, ltb, if◌then◌else◌, is_empty,
}
use asyncssh.Channel.Types.{
  State, Paused, Chunk, Message, Event, Session, Channel, Step, returns, ◌then_◌, is_open,
  is_ending, is_running, is_starting, call, send_packet, with_session,
}
use asyncssh.Channel.Send.{flush_send_buf}

-- `write_eof`
unfoldable pub write_eof : Channel → Step
unfolding flush_send_buf
write_eof c =
    if is_open c.send_state
    then flush_send_buf (record c { send_state = State.eof_pending })
    else returns c

-- The first half of `_deliver_data`. The source lets `_recv_window` fall below 0 for a moment; the
-- test is the same with `length` added on both sides, and then the window is set anew.
unfoldable pub consume_window : ℕ → Channel → Channel
unfolding send_packet
consume_window n c =
    if ltb (2 * c.recv_window) (c.init_recv_window + 2 * n)
    then record (send_packet (Message.window_adjust (c.init_recv_window + n - c.recv_window)) c) {
      recv_window = c.init_recv_window;
    }
    else record c { recv_window = c.recv_window - n }

-- A pending close, once the buffer is empty.
unfoldable pub finish_close : State → Channel → Channel
finish_close State.close_pending c = record c {
  recv_state = State.closed;
  cleanup_scheduled = true;
}
finish_close _ c = c

module _ (session : Session) where
  -- `self._session.data_received`, if there is a session
  unfoldable pub hand_over : Chunk → Channel → Channel
  hand_over x c =
      if c.has_session
      then record (call (Event.data_received x) c) {
        recv_paused = if session.pauses_on x then Paused.paused else c.recv_paused;
      }
      else c

  -- `_deliver_data`
  unfoldable pub deliver_data : Chunk → Channel → Channel
  unfolding consume_window hand_over
  deliver_data x c = hand_over x (consume_window (length x.body) c)

  -- `while self._recv_buf and not self._recv_paused`, with the buffer as an argument. Delivery leaves
  -- the buffer alone, so the recursion is on it.
  unfoldable pub deliver_all : List Chunk → Channel → Channel
  unfolding deliver_data
  deliver_all [] c = record c { recv_buf = [] }
  deliver_all (x ∷ xs) c =
      let rest = deliver_all xs (deliver_data x (record c { recv_buf = xs })) in
      if is_running c.recv_paused then rest else record c { recv_buf = x ∷ xs }

  -- A pending end of file, once the buffer is empty.
  unfoldable pub deliver_eof : State → Channel → Step
  unfolding write_eof
  deliver_eof State.eof_pending c =
      with_session
        (λ d.
          let called = call Event.eof_received d in
          if not session.keeps_open && is_open d.send_state
          then write_eof called
          else returns called)
        (record c { recv_state = State.eof })
  deliver_eof _ c = returns c

  -- `_flush_recv_buf`
  unfoldable pub flush_recv_buf : Channel → Step
  unfolding deliver_all deliver_eof finish_close
  flush_recv_buf c =
      let d = deliver_all c.recv_buf c in
      (if is_empty d.recv_buf && not (is_starting d.recv_paused)
        then deliver_eof d.recv_state d
        else returns d)
      then_ λ e. returns (if is_empty e.recv_buf then finish_close e.recv_state e else e)

  -- `_accept_data`
  unfoldable pub accept_data : Chunk → Channel → Channel
  unfolding deliver_data
  accept_data x c =
      if is_empty x.body
      then c
      else if is_ending c.send_state
      then c
      else if is_running c.recv_paused
      then deliver_data x c
      else record c { recv_buf = c.recv_buf ++ x ∷ [] }

-- `_discard_recv`
unfoldable pub discard_recv : Channel → Channel
unfolding finish_close
discard_recv c =
    finish_close c.recv_state (record c { recv_buf = []; recv_paused = Paused.running })
