-- ===== src/Channel/Safety.antt =====
-- The methods of the receiving direction against the invariant of the sending direction.
use asyncssh.Base.{
  ℕ, ◌+◌, ◌*◌, ◌-◌, ◌≡◌, Bool, true, not, ◌&&◌, Option, List, [], ◌∷◌, length, is_empty, ltb,
  if◌then◌else◌,
}
use asyncssh.Channel.Types.{
  State, Chunk, Message, Session, Channel, Step, is_open, is_ending, is_running, is_starting,
  returns,
}
use asyncssh.Channel.Receive.{
  write_eof, consume_window, hand_over, deliver_data, deliver_all, deliver_eof, finish_close,
  flush_recv_buf, accept_data,
}
use asyncssh.Channel.Handlers.{receive}
use asyncssh.Channel.Rules.{keep_if, keep_if_step, keep_proceed}
use asyncssh.Channel.Invariant.{Good, IsGood}
use asyncssh.Channel.Flushing.{flush_send_buf-IsGood, send_adjust-IsGood}

-- A pending end of file, or a pending close, on a stream that is open.
from_open :
    (s t : State) {chan : Option ℕ} {buf : List Chunk} {len : ℕ} {out : List Message} {size : ℕ}
    {b : Bool}
    → is_open s ≡ true
    → Good s chan buf len out size b
    → Good State.eof_pending chan buf len out size b
from_open State.open_ t h g = record {
  numbered = g.numbered;
  ordered = g.ordered;
  counted = g.counted;
  fits = g.fits;
  attached = g.attached;
}
from_open State.closed t h g = cc
from_open State.eof t h g = cc
from_open State.eof_pending t h g = cc
from_open State.close_pending t h g = cc

pub write_eof-IsGood : (c : Channel) → IsGood c → IsGood (write_eof c).1
unfolding write_eof
write_eof-IsGood c g =
    keep_if_step IsGood (is_open c.send_state) _ _
      (λ h.
        flush_send_buf-IsGood _ (record { good = from_open c.send_state c.send_state h g.good }))
      (λ _. g)

consume_window-IsGood : (n : ℕ) (c : Channel) → IsGood c → IsGood (consume_window n c)
unfolding consume_window
consume_window-IsGood n c g =
    let adjust = c.init_recv_window + n - c.recv_window in
    keep_if IsGood (ltb (2 * c.recv_window) (c.init_recv_window + 2 * n)) _ _
      (λ _. record { good = (send_adjust-IsGood adjust c g).good }) (λ _. record { good = g.good })

pub finish_close-IsGood : (s : State) (c : Channel) → IsGood c → IsGood (finish_close s c)
unfolding finish_close
finish_close-IsGood State.close_pending c g = record { good = g.good }
finish_close-IsGood _ c g = g

module _ (session : Session) where
  pub hand_over-IsGood : (x : Chunk) (c : Channel) → IsGood c → IsGood (hand_over session x c)
  unfolding hand_over
  hand_over-IsGood x c g = keep_if IsGood c.has_session _ _ (λ _. record { good = g.good }) (λ _. g)

  pub deliver_data-IsGood : (x : Chunk) (c : Channel) → IsGood c → IsGood (deliver_data session x c)
  unfolding deliver_data
  deliver_data-IsGood x c g =
      hand_over-IsGood x (consume_window (length x.body) c)
        (consume_window-IsGood (length x.body) c g)

  pub deliver_all-IsGood :
      (xs : List Chunk) (c : Channel) → IsGood c → IsGood (deliver_all session xs c)
  unfolding deliver_all
  deliver_all-IsGood [] c g = record { good = g.good }
  deliver_all-IsGood (x ∷ xs) c g =
      keep_if IsGood (is_running c.recv_paused) _ _
        (λ _.
          deliver_all-IsGood xs _
            (deliver_data-IsGood x (record c { recv_buf = xs }) (record { good = g.good })))
        (λ _. record { good = g.good })

  pub deliver_eof-IsGood : (s : State) (c : Channel) → IsGood c → IsGood (deliver_eof session s c).1
  unfolding deliver_eof
  deliver_eof-IsGood State.eof_pending c g =
      keep_if_step IsGood c.has_session _ _
        (λ _.
          keep_if_step IsGood (not session.keeps_open && is_open c.send_state) _ _
            (λ _. write_eof-IsGood _ (record { good = g.good })) (λ _. record { good = g.good }))
        (λ _. record { good = g.good })
  deliver_eof-IsGood _ c g = g

  pub flush_recv_buf-IsGood : (c : Channel) → IsGood c → IsGood (flush_recv_buf session c).1
  unfolding flush_recv_buf
  flush_recv_buf-IsGood c g =
      let d = deliver_all session c.recv_buf c in
      let kept = deliver_all-IsGood c.recv_buf c g in
      let told : Step =
        if is_empty d.recv_buf && not (is_starting d.recv_paused)
        then deliver_eof session d.recv_state d
        else returns d in
      let kept' =
        keep_if_step IsGood (is_empty d.recv_buf && not (is_starting d.recv_paused))
          (deliver_eof session d.recv_state d) (returns d)
          (λ _. deliver_eof-IsGood d.recv_state d kept) (λ _. kept) in
      keep_proceed IsGood told.0 _ told.1 kept' (
        keep_if IsGood (is_empty told.1.recv_buf) _ _
          (λ _. finish_close-IsGood told.1.recv_state told.1 kept') (λ _. kept'))

  pub accept_data-IsGood : (x : Chunk) (c : Channel) → IsGood c → IsGood (accept_data session x c)
  unfolding accept_data
  accept_data-IsGood x c g =
      keep_if IsGood (is_empty x.body) _ _ (λ _. g)
        (λ _.
          keep_if IsGood (is_ending c.send_state) _ _ (λ _. g)
            (λ _.
              keep_if IsGood (is_running c.recv_paused) _ _ (λ _. deliver_data-IsGood x c g)
                (λ _. record { good = g.good })))

  pub receive-IsGood : (x : Chunk) (c : Channel) → IsGood c → IsGood (receive session x c).1
  unfolding receive
  receive-IsGood x c g =
      keep_if_step IsGood (ltb c.recv_window (length x.body)) _ _ (λ _. g)
        (λ _. accept_data-IsGood x c g)
