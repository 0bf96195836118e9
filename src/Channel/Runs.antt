-- ===== src/Channel/Runs.antt =====
-- Runs of a channel at concrete inputs.
use asyncssh.Channel.Stream.{total, granted}
use asyncssh.Channel.Types.{Event, is_running, Paused, Chunk, Message, Session, Channel}
use asyncssh.Base.{
  ok, replicate, ◌+◌, ◌*◌, ◌<◌, length, false, ℕ, ◌≡◌, refl, arith, true, none, List, [], ◌∷◌, ◌++◌,
  err, Error,
}
use asyncssh.Base.Bytes.{from_bytes}
use asyncssh.Packet
use asyncssh.Packet.{SshPacket, get_uint32, get_string, check_end}
use asyncssh.Channel.Send.{send_round, send_rounds}
use asyncssh.Channel.Receive.{deliver_all, write_eof}
use asyncssh.Channel.Handlers.{write, process_window_adjust, close}
use asyncssh.Channel.Owner.{Op, step, run, opened}
use asyncssh.Channel.Calls.{IsOrderly, run-IsOrderly}
use asyncssh.Channel.Writing.{Writes, write-Writes, flush_send_buf_endless}
use asyncssh.Channel.Delivery.{up_to, beyond, receive_all, paused_overrun, deliver_all_stream}

abbrev quiet : Session
quiet = record { pauses_on = λ _. false; keeps_open = false }

abbrev chunk : List ℕ → Chunk
chunk body = record { body = body; datatype = none }

-- The peer gave a window of 6 bytes and packets of 4.
abbrev small_window : Channel
small_window = opened 7 6 4 20 [] []

-- A write of 8 bytes, the end of the file, then two more bytes of window.
abbrev writing : List Op
writing =
    Op.write_op (chunk (1 ∷ 2 ∷ 3 ∷ 4 ∷ 5 ∷ 6 ∷ 7 ∷ 8 ∷ []))
    ∷ Op.write_eof_op
    ∷ Op.window_adjust_op (Packet.init (0 ∷ 0 ∷ 0 ∷ 2 ∷ []))
    ∷ Op.close_op
    ∷ []

writing_out :
    (run quiet writing small_window).out
    ≡ Message.channel_data (chunk (1 ∷ 2 ∷ 3 ∷ 4 ∷ []))
      ∷ Message.channel_data (chunk (5 ∷ 6 ∷ []))
      ∷ Message.channel_data (chunk (7 ∷ 8 ∷ []))
      ∷ Message.channel_eof
      ∷ Message.channel_close
      ∷ []
unfolding run step opened write process_window_adjust close Packet.init get_uint32 from_bytes
    check_end write_eof send_round
writing_out = refl

run-IsOrderly_example : IsOrderly (run quiet writing (opened 7 6 4 20 [] []))
run-IsOrderly_example = run-IsOrderly quiet 7 6 4 20 [] [] writing

write-Writes_example :
    Writes
      (chunk (1 ∷ 2 ∷ 3 ∷ 4 ∷ 5 ∷ 6 ∷ 7 ∷ 8 ∷ []))
      small_window
      (write (chunk (1 ∷ 2 ∷ 3 ∷ 4 ∷ 5 ∷ 6 ∷ 7 ∷ 8 ∷ [])) small_window)
unfolding opened
write-Writes_example =
    write-Writes (chunk (1 ∷ 2 ∷ 3 ∷ 4 ∷ 5 ∷ 6 ∷ 7 ∷ 8 ∷ [])) small_window 7 refl refl refl
      (omega arith) refl (omega arith)

-- Data waits, and the peer's packets may hold no byte.
abbrev no_packet : Channel
no_packet = record (opened 7 6 0 20 [] []) { send_buf = chunk (1 ∷ []) ∷ [] }

flush_send_buf_endless_example :
    (send_rounds 100 no_packet.send_buf no_packet).0 ≡ err Error.out_of_fuel
unfolding opened
flush_send_buf_endless_example =
    flush_send_buf_endless (chunk (1 ∷ [])) [] no_packet 100 refl (omega arith) (omega arith) refl

abbrev paused_channel : Channel
paused_channel = record (opened 7 6 4 3 [] []) { recv_paused = Paused.paused }

-- More than eight bytes are buffered behind a window of three.
paused_overrun_example :
    let r = receive_all quiet (replicate 9 (chunk (1 ∷ 2 ∷ 3 ∷ []))) paused_channel in
    (r.0 ≡ ok tt)
    × (8 < total r.1.recv_buf)
    × (total r.1.recv_buf
        ≡ total paused_channel.recv_buf + 9 * length (chunk (1 ∷ 2 ∷ 3 ∷ [])).body)
    × (r.1.recv_window ≡ paused_channel.recv_window)
    × (granted r.1.out ≡ granted paused_channel.out)
unfolding opened
paused_overrun_example =
    paused_overrun quiet 8 (chunk (1 ∷ 2 ∷ 3 ∷ [])) paused_channel refl refl (omega arith)
      (omega arith)

abbrev pausing : Session
pausing = record { pauses_on = λ x. true; keeps_open = false }

abbrev reading : Channel
reading = record (opened 7 6 4 3 [] []) { recv_paused = Paused.running }

-- The session pauses on the first of two chunks.
deliver_all_stream_example :
    let xs = chunk (1 ∷ 2 ∷ []) ∷ chunk (3 ∷ []) ∷ [] in
    let d = deliver_all pausing xs reading in
    (d.events ≡ reading.events ++ Event.data_received (chunk (1 ∷ 2 ∷ [])) ∷ [])
    × (d.recv_buf ≡ chunk (3 ∷ []) ∷ [])
    × (is_running d.recv_paused ≡ false)
    × (chunk (1 ∷ 2 ∷ []) ∷ d.recv_buf ≡ xs)
unfolding opened up_to beyond
deliver_all_stream_example =
    deliver_all_stream pausing (chunk (1 ∷ 2 ∷ []) ∷ chunk (3 ∷ []) ∷ []) reading refl
