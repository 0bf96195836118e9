-- ===== src/Channel/Calls.antt =====
-- The calls of the owner and of the peer against the invariant, and runs of a channel.
use asyncssh.Base.{
  ℕ, ◌+◌, ◌≡◌, ◌≢◌, refl, arith, Bool, false, not, Option, List, [], ◌∷◌, ◌++◌, length, All,
  is_empty, leb, mem, if◌then◌else◌, inl, inr,
}
use asyncssh.Packet.{SshPacket, get_uint32, get_string, check_end}
use asyncssh.Channel.Types.{
  State, Paused, Chunk, Message, Session, Channel, Step, is_open, is_closed, is_ending, is_live,
  is_running, is_starting, returns,
}
use asyncssh.Channel.Send.{close_send, flush_send_buf}
use asyncssh.Channel.Receive.{discard_recv}
use asyncssh.Channel.Handlers.{
  process_window_adjust, process_data, process_extended_data, process_eof, process_close,
  start_reading, resume_reading, pause_reading, abort, close, write, set_write_buffer_limits,
  allowed, default_high, default_low,
}
use asyncssh.Channel.Stream.{total, total-append, Fits, Phase, phase}
use asyncssh.Channel.Rules.{keep_if, keep_if_step, keep_proceed, keep_decode}
use asyncssh.Channel.Owner.{Op, step, run, opened}
use asyncssh.Channel.Invariant.{Good, IsGood, PhaseOf}
use asyncssh.Channel.Flushing.{
  close_send-IsGood, pause_resume_writing-IsGood, flush_send_buf-IsGood,
}
use asyncssh.Channel.Safety.{
  write_eof-IsGood, flush_recv_buf-IsGood, receive-IsGood, finish_close-IsGood,
}

-- Data joins the buffer of a stream that is open.
joined :
    (s : State) {chan : Option ℕ} {buf : List Chunk} {len : ℕ} {out : List Message} {size : ℕ}
    {b : Bool} (x : Chunk)
    → not (is_open s) ≡ false
    → Good s chan buf len out size b
    → Good s chan (buf ++ x ∷ []) (len + length x.body) out size b
joined State.open_ {buf} x h g = record {
  numbered = g.numbered;
  ordered = g.ordered;
  counted = omega (arith, g.counted, total-append buf (x ∷ []));
  fits = g.fits;
  attached = g.attached;
}
joined State.closed x h g = cc
joined State.eof x h g = cc
joined State.eof_pending x h g = cc
joined State.close_pending x h g = cc

-- A close is pending on a stream that was not ending.
to_close :
    (s : State) {chan : Option ℕ} {buf : List Chunk} {len : ℕ} {out : List Message} {size : ℕ}
    {b : Bool}
    → is_ending s ≡ false
    → Good s chan buf len out size b
    → Good State.close_pending chan buf len out size b
to_close State.open_ h g = record {
  numbered = g.numbered;
  ordered = inl g.ordered;
  counted = g.counted;
  fits = g.fits;
  attached = g.attached;
}
to_close State.eof_pending h g = record {
  numbered = g.numbered;
  ordered = inl g.ordered;
  counted = g.counted;
  fits = g.fits;
  attached = g.attached;
}
to_close State.eof h g = record {
  numbered = g.numbered;
  ordered = inr g.ordered;
  counted = g.counted;
  fits = g.fits;
  attached = g.attached;
}
to_close State.closed h g = cc
to_close State.close_pending h g = cc

write-IsGood : (x : Chunk) (c : Channel) → IsGood c → IsGood (write x c).1
unfolding write
write-IsGood x c g =
    keep_if_step IsGood (not (is_open c.send_state)) _ _ (λ _. g)
      (λ open_.
        keep_if_step IsGood (not (allowed x.datatype c.write_datatypes)) _ _ (λ _. g)
          (λ _.
            keep_if_step IsGood (is_empty x.body) _ _ (λ _. g)
              (λ _.
                flush_send_buf-IsGood _ (record { good = joined c.send_state x open_ g.good }))))

discard_recv-IsGood : (c : Channel) → IsGood c → IsGood (discard_recv c)
unfolding discard_recv
discard_recv-IsGood c g = finish_close-IsGood c.recv_state _ (record { good = g.good })

abort-IsGood : (c : Channel) → IsGood c → IsGood (abort c).1
unfolding abort
abort-IsGood c g =
    let d = if is_ending c.send_state then c else close_send c in
    let kept =
      keep_if IsGood (is_ending c.send_state) c (close_send c) (λ _. g)
        (λ _. close_send-IsGood c g) in
    keep_if IsGood (is_closed d.recv_state) _ _ (λ _. kept) (λ _. discard_recv-IsGood d kept)

close-IsGood : (c : Channel) → IsGood c → IsGood (close c).1
unfolding close
close-IsGood c g =
    let flushed = flush_send_buf (record c { send_state = State.close_pending }) in
    let s : Step = if is_ending c.send_state then returns c else flushed in
    let kept =
      keep_if_step IsGood (is_ending c.send_state) (returns c) flushed (λ _. g)
        (λ h. flush_send_buf-IsGood _ (record { good = to_close c.send_state h g.good })) in
    keep_proceed IsGood s.0 _ s.1 kept (
      keep_if IsGood (is_closed s.1.recv_state) _ _ (λ _. kept) (λ _. discard_recv-IsGood s.1 kept))

set_limits-IsGood :
    (high low : Option ℕ) (c : Channel) → IsGood c → IsGood (set_write_buffer_limits high low c).1
unfolding set_write_buffer_limits
set_limits-IsGood high low c g =
    let h = default_high high low in
    let l = default_low low h in
    keep_if_step IsGood (not (leb l h)) _ _ (λ _. g)
      (λ _. pause_resume_writing-IsGood _ (record { good = g.good }))

window_adjust-IsGood :
    (p : SshPacket) (c : Channel) → IsGood c → IsGood (process_window_adjust p c).1
unfolding process_window_adjust
window_adjust-IsGood p c g =
    keep_if_step IsGood (not (is_live c.recv_state)) _ _ (λ _. g)
      (λ _. keep_decode IsGood get_uint32 p _ c g (λ n q.
        keep_decode IsGood check_end q _ c g
          (λ _ _. flush_send_buf-IsGood _ (record { good = g.good }))))

module _ (session : Session) where
  data-IsGood : (p : SshPacket) (c : Channel) → IsGood c → IsGood (process_data session p c).1
  unfolding process_data
  data-IsGood p c g =
      keep_if_step IsGood (not (is_open c.recv_state)) _ _ (λ _. g)
        (λ _.
          keep_decode IsGood get_string p _ c g
            (λ v q. keep_decode IsGood check_end q _ c g (λ _ _. receive-IsGood session _ c g)))

  extended_data-IsGood :
      (p : SshPacket) (c : Channel) → IsGood c → IsGood (process_extended_data session p c).1
  unfolding process_extended_data
  extended_data-IsGood p c g =
      keep_if_step IsGood (not (is_open c.recv_state)) _ _ (λ _. g)
        (λ _. keep_decode IsGood get_uint32 p _ c g (λ t q.
          keep_decode IsGood get_string q _ c g (λ v r. keep_decode IsGood check_end r _ c g (λ _ _.
            keep_if_step IsGood (not (mem t c.read_datatypes)) _ _ (λ _. g)
              (λ _. receive-IsGood session _ c g)))))

  eof-IsGood : (p : SshPacket) (c : Channel) → IsGood c → IsGood (process_eof session p c).1
  unfolding process_eof
  eof-IsGood p c g =
      keep_if_step IsGood (not (is_open c.recv_state)) _ _ (λ _. g)
        (λ _. keep_decode IsGood check_end p _ c g (λ _ _.
          flush_recv_buf-IsGood session (record c { recv_state = State.eof_pending })
            (record { good = g.good })))

  peer_close-IsGood :
      (p : SshPacket) (c : Channel) → IsGood c → IsGood (process_close session p c).1
  unfolding process_close
  peer_close-IsGood p c g =
      keep_if_step IsGood (not (is_live c.recv_state)) _ _ (λ _. g)
        (λ _. keep_decode IsGood check_end p _ c g (λ _ _.
          flush_recv_buf-IsGood session (record (close_send c) { recv_state = State.close_pending })
            (record { good = (close_send-IsGood c g).good })))

  start_reading-IsGood : (c : Channel) → IsGood c → IsGood (start_reading session c).1
  unfolding start_reading
  start_reading-IsGood c g =
      keep_if_step IsGood (is_starting c.recv_paused) _ _
        (λ _.
          flush_recv_buf-IsGood session (record c { recv_paused = Paused.running })
            (record { good = g.good }))
        (λ _. g)

  resume_reading-IsGood : (c : Channel) → IsGood c → IsGood (resume_reading session c).1
  unfolding resume_reading
  resume_reading-IsGood c g =
      keep_if_step IsGood (is_running c.recv_paused) _ _ (λ _. g)
        (λ _.
          flush_recv_buf-IsGood session (record c { recv_paused = Paused.running })
            (record { good = g.good }))

  step-IsGood : (op : Op) (c : Channel) → IsGood c → IsGood (step session op c).1
  unfolding step pause_reading
  step-IsGood (Op.write_op x) c g = write-IsGood x c g
  step-IsGood Op.write_eof_op c g = write_eof-IsGood c g
  step-IsGood Op.close_op c g = close-IsGood c g
  step-IsGood Op.abort_op c g = abort-IsGood c g
  step-IsGood Op.pause_reading_op c g = record { good = g.good }
  step-IsGood Op.resume_reading_op c g = resume_reading-IsGood c g
  step-IsGood Op.start_reading_op c g = start_reading-IsGood c g
  step-IsGood (Op.set_limits_op high low) c g = set_limits-IsGood high low c g
  step-IsGood (Op.window_adjust_op p) c g = window_adjust-IsGood p c g
  step-IsGood (Op.data_op p) c g = data-IsGood p c g
  step-IsGood (Op.extended_data_op p) c g = extended_data-IsGood p c g
  step-IsGood (Op.eof_op p) c g = eof-IsGood p c g
  step-IsGood (Op.peer_close_op p) c g = peer_close-IsGood p c g

  pub run-IsGood : (ops : List Op) (c : Channel) → IsGood c → IsGood (run session ops c)
  unfolding run
  run-IsGood [] c g = g
  run-IsGood (op ∷ ops) c g = run-IsGood ops (step session op c).1 (step-IsGood op c g)

opened-IsGood :
    (chan window size recv_window : ℕ) (rd wd : List ℕ)
    → IsGood (opened chan window size recv_window rd wd)
unfolding opened phase
opened-IsGood chan window size recv_window rd wd = record {
  good = record {
    numbered = (chan, refl);
    ordered = refl;
    counted = refl;
    fits = tt;
    attached = refl;
  };
}

-- What a peer sees of a channel, and what its owner is told of the buffer.
pub record IsOrderly (c : Channel) : Type 0 where
  -- at most one end of file with no data behind it, at most one close with nothing behind it
  pub ordered : phase c.out ≢ Phase.bad
  -- no data packet is larger than the peer's packets may be
  pub fits : All (Fits c.send_pktsize) c.out
  -- `get_write_buffer_size` is the number of bytes that wait
  pub counted : c.send_buf_len ≡ total c.send_buf
  -- nothing waits once the stream has ended
  pub drained : phase c.out ≢ Phase.streaming → c.send_buf ≡ []

orderly_phase :
    (s : State) (p : Phase) (buf : List Chunk)
    → PhaseOf s p buf
    → (p ≢ Phase.bad) × (p ≢ Phase.streaming → buf ≡ [])
orderly_phase State.closed p buf h = (λ e. cc, λ e. h.1)
orderly_phase State.eof p buf h = (λ e. cc, λ e. h.1)
orderly_phase State.close_pending p buf (inl h) = (λ e. cc, λ e. absurd (e h))
orderly_phase State.close_pending p buf (inr h) = (λ e. cc, λ e. h.1)
orderly_phase State.open_ p buf h = (λ e. cc, λ e. absurd (e h))
orderly_phase State.eof_pending p buf h = (λ e. cc, λ e. absurd (e h))

-- However its owner and the peer call a channel that was opened, whether the calls return or raise, what
-- it sends is orderly: no data follows an end of file, nothing follows a close, neither is sent twice, no
-- data packet is larger than the packet size, the buffered bytes are counted, and none are left behind an
-- end of file or a close.
pub run-IsOrderly :
    (session : Session) (chan window size recv_window : ℕ) (rd wd : List ℕ) (ops : List Op)
    → IsOrderly (run session ops (opened chan window size recv_window rd wd))
run-IsOrderly session chan window size recv_window rd wd ops =
    let c = run session ops (opened chan window size recv_window rd wd) in
    let g = (run-IsGood session ops _ (opened-IsGood chan window size recv_window rd wd)).good in
    let (fine, empty) = orderly_phase c.send_state (phase c.out) c.send_buf g.ordered in
    record { ordered = fine; fits = g.fits; counted = g.counted; drained = empty }
