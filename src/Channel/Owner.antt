-- ===== src/Channel/Owner.antt =====
-- A run of a channel, from its opening until its cleanup: the calls of its owner and of the peer.
-- An exception ends its own call, and the next call finds the state that it left.
use asyncssh.Base.{ℕ, true, Option, List, [], ◌∷◌}
use asyncssh.Packet.{SshPacket}
use asyncssh.Channel.Types.{Chunk, Session, Channel, Step}
use asyncssh.Channel.Receive.{write_eof}
use asyncssh.Channel.Handlers.{
  opening, process_open_confirmation, process_window_adjust, process_data, process_extended_data,
  process_eof, process_close, start_reading, resume_reading, pause_reading, abort, close, write,
  set_write_buffer_limits,
}

pub data Op : Type 0 where
  write_op : Chunk → Op
  write_eof_op close_op abort_op pause_reading_op resume_reading_op start_reading_op : Op
  set_limits_op : Option ℕ → Option ℕ → Op
  window_adjust_op data_op extended_data_op eof_op peer_close_op : SshPacket → Op

module _ (session : Session) where
  unfoldable pub step : Op → Channel → Step
  step (write_op x) c = write x c
  step write_eof_op c = write_eof c
  step close_op c = close c
  step abort_op c = abort c
  step pause_reading_op c = pause_reading c
  step resume_reading_op c = resume_reading session c
  step start_reading_op c = start_reading session c
  step (set_limits_op high low) c = set_write_buffer_limits high low c
  step (window_adjust_op p) c = process_window_adjust p c
  step (data_op p) c = process_data session p c
  step (extended_data_op p) c = process_extended_data session p c
  step (eof_op p) c = process_eof session p c
  step (peer_close_op p) c = process_close session p c

  unfoldable pub run : List Op → Channel → Channel
  run [] c = c
  run (op ∷ ops) c = run ops (step op c).1

-- A channel that the peer has confirmed, and whose session has been made.
unfoldable pub opened : ℕ → ℕ → ℕ → ℕ → List ℕ → List ℕ → Channel
unfolding process_open_confirmation
opened chan window pktsize recv_window read_datatypes write_datatypes =
    record (process_open_confirmation chan window pktsize
      (opening recv_window read_datatypes write_datatypes)).1 { has_session = true }
