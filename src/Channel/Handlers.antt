-- ===== src/Channel/Handlers.antt =====
-- What the peer's packets and the owner of the channel call.
use asyncssh.Base.{
  ℕ, ◌+◌, Bool, true, false, not, Option, none, some, List, [], ◌∷◌, ◌++◌, length, mem, ltb, leb,
  if◌then◌else◌, is_empty, Result, ok, err, Error, ◌*◌, ◌/◌,
}
use asyncssh.Packet.{SshPacket, Decoder, get_uint32, get_string, check_end}
use asyncssh.Channel.Types.{
  State, Paused, Chunk, Event, Session, Channel, Step, returns, raises, ◌then_◌, is_open, is_closed,
  is_ending, is_live, is_running, is_starting, call,
}
use asyncssh.Channel.Send.{close_send, pause_resume_writing, flush_send_buf}
use asyncssh.Channel.Receive.{flush_recv_buf, accept_data, discard_recv}

-- The state of a channel that `_open` has asked for: `SSHChannel.__init__` and the waiter.
abbrev pub opening : ℕ → List ℕ → List ℕ → Channel
opening window read_datatypes write_datatypes = record {
  send_state = State.closed;
  send_chan = none;
  send_window = 0;
  send_pktsize = 0;
  send_paused = false;
  send_buf = [];
  send_buf_len = 0;
  send_high_water = 65536;
  send_low_water = 16384;
  recv_state = State.closed;
  init_recv_window = window;
  recv_window = window;
  recv_paused = Paused.starting;
  recv_buf = [];
  read_datatypes = read_datatypes;
  write_datatypes = write_datatypes;
  open_waiter = true;
  has_session = false;
  has_conn = true;
  cleanup_scheduled = false;
  out = [];
  events = [];
}

-- `process_open_confirmation`
unfoldable pub process_open_confirmation : ℕ → ℕ → ℕ → Channel → Step
process_open_confirmation send_chan send_window send_pktsize c =
    if not c.open_waiter
    then raises Error.protocol_error c
    else returns (record c {
      send_chan = some send_chan;
      send_window = send_window;
      send_pktsize = send_pktsize;
      send_state = State.open_;
      recv_state = State.open_;
      open_waiter = false;
    })

-- `process_open_failure`
unfoldable pub process_open_failure : Channel → Step
process_open_failure c =
    if not c.open_waiter
    then raises Error.protocol_error c
    else returns (record c { open_waiter = false; cleanup_scheduled = true })

-- `_cleanup`, as far as it concerns the channel's own state
unfoldable pub cleanup : Channel → Channel
cleanup c =
    let d =
      if c.has_session then record (call Event.connection_lost c) { has_session = false } else c in
    let e = record d { open_waiter = false; cleanup_scheduled = false } in
    if e.has_conn then record e { send_chan = none; has_conn = false } else e

-- `process_connection_close`
unfoldable pub process_connection_close : Channel → Channel
unfolding close_send cleanup
process_connection_close c = cleanup (close_send (record c { send_state = State.closed }))

-- A field is read off the packet, and an exception of the decoder is raised.
abbrev pub decoded :
    {A : Type 0} → Result A → SshPacket → (A → SshPacket → Channel → Step) → Channel → Step
decoded (ok a) p f c = f a p c
decoded (err e) p f c = raises e c

abbrev pub decode :
    {A : Type 0} → Decoder A → SshPacket → (A → SshPacket → Channel → Step) → Channel → Step
decode m p f c = decoded (m p).0 (m p).1 f c

-- `_process_window_adjust`
unfoldable pub process_window_adjust : SshPacket → Channel → Step
process_window_adjust p c =
    if not (is_live c.recv_state)
    then raises Error.protocol_error c
    else decode get_uint32 p
        (λ adjust q.
          decode check_end q
            (λ _ _ d. flush_send_buf (record d { send_window = d.send_window + adjust })))
        c

module _ (session : Session) where
  -- The end of `_process_data` and `_process_extended_data`.
  unfoldable pub receive : Chunk → Channel → Step
  unfolding accept_data
  receive x c =
      if ltb c.recv_window (length x.body)
      then raises Error.protocol_error c
      else returns (accept_data session x c)

  -- `_process_data`
  unfoldable pub process_data : SshPacket → Channel → Step
  unfolding receive
  process_data p c =
      if not (is_open c.recv_state)
      then raises Error.protocol_error c
      else decode get_string p
          (λ value q.
            decode check_end q (λ _ _. receive (record { body = value; datatype = none })))
          c

  -- `_process_extended_data`
  unfoldable pub process_extended_data : SshPacket → Channel → Step
  unfolding receive
  process_extended_data p c =
      if not (is_open c.recv_state)
      then raises Error.protocol_error c
      else decode get_uint32 p
          (λ datatype q. decode get_string q (λ value r. decode check_end r (λ _ _ d.
            if not (mem datatype d.read_datatypes)
            then raises Error.protocol_error d
            else receive (record { body = value; datatype = some datatype }) d)))
          c

  -- `_process_eof`
  unfoldable pub process_eof : SshPacket → Channel → Step
  unfolding flush_recv_buf
  process_eof p c =
      if not (is_open c.recv_state)
      then raises Error.protocol_error c
      else decode check_end p
          (λ _ _ d. flush_recv_buf session (record d { recv_state = State.eof_pending })) c

  -- `_process_close`
  unfoldable pub process_close : SshPacket → Channel → Step
  unfolding close_send flush_recv_buf
  process_close p c =
      if not (is_live c.recv_state)
      then raises Error.protocol_error c
      else decode check_end p
          (λ _ _ d.
            flush_recv_buf session (record (close_send d) { recv_state = State.close_pending }))
          c

  -- `_start_reading`
  unfoldable pub start_reading : Channel → Step
  unfolding flush_recv_buf
  start_reading c =
      if is_starting c.recv_paused
      then flush_recv_buf session (record c { recv_paused = Paused.running })
      else returns c

  -- `resume_reading`
  unfoldable pub resume_reading : Channel → Step
  unfolding flush_recv_buf
  resume_reading c =
      if is_running c.recv_paused
      then returns c
      else flush_recv_buf session (record c { recv_paused = Paused.running })

-- `pause_reading`
unfoldable pub pause_reading : Channel → Step
pause_reading c = returns (record c { recv_paused = Paused.paused })

-- `abort`
unfoldable pub abort : Channel → Step
unfolding close_send discard_recv
abort c =
    let d = if is_ending c.send_state then c else close_send c in
    returns (if is_closed d.recv_state then d else discard_recv d)

-- `close`
unfoldable pub close : Channel → Step
unfolding flush_send_buf discard_recv
close c =
    (if is_ending c.send_state
      then returns c
      else flush_send_buf (record c { send_state = State.close_pending }))
    then_ λ d. returns (if is_closed d.recv_state then d else discard_recv d)

abbrev pub allowed : Option ℕ → List ℕ → Bool
allowed none datatypes = true
allowed (some t) datatypes = mem t datatypes

-- `write`
unfoldable pub write : Chunk → Channel → Step
unfolding flush_send_buf
write x c =
    if not (is_open c.send_state)
    then raises Error.broken_pipe_error c
    else if not (allowed x.datatype c.write_datatypes)
    then raises Error.os_error c
    else if is_empty x.body
    then returns c
    else flush_send_buf (record c {
      send_buf = c.send_buf ++ x ∷ [];
      send_buf_len = c.send_buf_len + length x.body;
    })

-- The limit above which writing pauses, when it is not given.
abbrev pub default_high : Option ℕ → Option ℕ → ℕ
default_high (some high) low = high
default_high none (some low) = 4 * low
default_high none none = 65536

abbrev pub default_low : Option ℕ → ℕ → ℕ
default_low (some low) high = low
default_low none high = high / 4

-- `set_write_buffer_limits`
unfoldable pub set_write_buffer_limits : Option ℕ → Option ℕ → Channel → Step
unfolding pause_resume_writing
set_write_buffer_limits high low c =
    let h = default_high high low in
    let l = default_low low h in
    if not (leb l h)
    then raises Error.value_error c
    else pause_resume_writing (record c { send_high_water = h; send_low_water = l })
