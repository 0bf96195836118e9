-- ===== src/Channel/Types.antt =====
-- The state of a channel, the packets that it sends and the calls that it makes on its session.
use asyncssh.Base.{
  ℕ, Bool, true, false, Option, none, some, List, [], ◌∷◌, ◌++◌, Result, ok, err, Error,
  if◌then◌else◌,
}

-- The values of `_send_state` and of `_recv_state`.
pub data State : Type 0 where
  closed open_ eof_pending eof close_pending : State

-- The values of `_recv_paused`: False, True and 'starting'.
pub data Paused : Type 0 where
  running paused starting : Paused

-- An entry of `_send_buf` or `_recv_buf`: the bytes and the extended data type.
pub record Chunk : Type 0 where
  pub body : List ℕ
  pub datatype : Option ℕ

-- What is handed to `conn.send_packet` for this channel.
pub data Message : Type 0 where
  channel_data : Chunk → Message
  window_adjust : ℕ → Message
  channel_eof channel_close : Message

-- The calls of session methods.
pub data Event : Type 0 where
  data_received : Chunk → Event
  eof_received connection_lost pause_writing resume_writing : Event

-- What the session does when it is called: whether it calls `pause_reading` in `data_received`, and
-- what `eof_received` returns. It makes no other call of the channel from inside a callback.
pub record Session : Type 0 where
  pub pauses_on : Chunk → Bool
  pub keeps_open : Bool

pub record Channel : Type 0 where
  pub send_state : State
  pub send_chan : Option ℕ
  pub send_window : ℕ
  pub send_pktsize : ℕ
  pub send_paused : Bool
  pub send_buf : List Chunk
  pub send_buf_len : ℕ
  pub send_high_water : ℕ
  pub send_low_water : ℕ
  pub recv_state : State
  pub init_recv_window : ℕ
  pub recv_window : ℕ
  pub recv_paused : Paused
  pub recv_buf : List Chunk
  pub read_datatypes : List ℕ
  pub write_datatypes : List ℕ
  -- `_open_waiter is not None`
  pub open_waiter : Bool
  -- `_session is not None`
  pub has_session : Bool
  -- `_conn is not None`
  pub has_conn : Bool
  -- `_cleanup` has been handed to `call_soon`
  pub cleanup_scheduled : Bool
  -- what was sent and called so far, in order
  pub out : List Message
  pub events : List Event

-- A method returns, or raises, and leaves a state in both cases.
abbrev pub Step : Type 0
Step = Result (Unit {0}) × Channel

abbrev pub returns : Channel → Step
returns c = (ok tt, c)

abbrev pub raises : Error → Channel → Step
raises e c = (err e, c)

abbrev pub proceed : Result (Unit {0}) → (Channel → Step) → Channel → Step
proceed (ok u) f c = f c
proceed (err e) f c = (err e, c)

infixl 5 ◌then_◌
abbrev pub ◌then_◌ : Step → (Channel → Step) → Step
s then_ f = proceed s.0 f s.1

abbrev pub is_closed : State → Bool
is_closed closed = true
is_closed _ = false

abbrev pub is_open : State → Bool
is_open open_ = true
is_open _ = false

-- `state in {'close_pending', 'closed'}`
abbrev pub is_ending : State → Bool
is_ending closed = true
is_ending close_pending = true
is_ending _ = false

-- `state in {'open', 'eof_pending', 'eof'}`
abbrev pub is_live : State → Bool
is_live open_ = true
is_live eof_pending = true
is_live eof = true
is_live _ = false

abbrev pub is_running : Paused → Bool
is_running running = true
is_running _ = false

abbrev pub is_starting : Paused → Bool
is_starting starting = true
is_starting _ = false

abbrev pub log : Message → Channel → Channel
log m c = record c { out = c.out ++ m ∷ [] }

abbrev pub call : Event → Channel → Channel
call e c = record c { events = c.events ++ e ∷ [] }

-- `send_packet`: without a channel number nothing is sent.
unfoldable pub send_packet : Message → Channel → Channel
send_packet m c = elim c.send_chan [ none ↦ c | some n ↦ log m c ]

-- `assert self._session is not None`
abbrev pub with_session : (Channel → Step) → Channel → Step
with_session f c = if c.has_session then f c else raises Error.assertion_error c
