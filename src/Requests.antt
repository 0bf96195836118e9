-- ===== src/Requests.antt =====
-- The global requests of a connection: asyncssh/connection.py, _global_request_queue and its methods.
use asyncssh.Base.{
  ℕ, Bool, true, false, Option, none, some, List, [], ◌∷◌, ◌++◌, is_empty, if◌then◌else◌, Result,
  ok, err, Error,
}
use asyncssh.Packet.{SshPacket, and_then, get_string, get_boolean}
use asyncssh.Connection.Receive.{is_ascii}
mod Order
mod Runs

-- What a handler reports: True, False or bytes.
pub data Answer : Type 0 where
  accepted refused : Answer
  payload : List ℕ → Answer

-- What comes of the call of a handler: it has reported before it returns, it made a task that reports later, or it
-- raised.
pub data Served : Type 0 where
  at_once : Answer → Served
  later : Served
  raised : Error → Served

-- The handlers of the requests, `_process_..._global_request`, and the one of a name.
pub record Service : Type 1 where
  pub Handler : Type 0
  pub find : List ℕ → Option Handler
  pub serve : Handler → SshPacket → Served

pub record Entry (v : Service) : Type 0 where
  pub handler : Option v.Handler
  pub packet : SshPacket
  pub want_reply : Bool

-- The queue, and the calls of `send_packet`: a type, and the arguments.
pub record Requests (v : Service) : Type 0 where
  pub queue : List (Entry v)
  pub calls : List (ℕ × List (List ℕ))

abbrev pub Done : Service → Type 0
Done v = Result (Unit {0}) × Requests v

module _ (v : Service) where
  -- `if result`, and the call of `send_packet`
  unfoldable pub reply : Bool → Answer → List (ℕ × List (List ℕ))
  reply false a = []
  reply true Answer.accepted = (81, [] ∷ []) ∷ []
  reply true Answer.refused = (82, []) ∷ []
  reply true (Answer.payload bytes) =
      if is_empty bytes then (82, []) ∷ [] else (81, bytes ∷ []) ∷ []

  -- `_service_next_global_request` on a queue, with the report of a handler that reports at once
  unfoldable pub service_next_global_request : List (Entry v) → List (ℕ × List (List ℕ)) → Done v
  unfolding reply
  service_next_global_request [] calls =
      (err Error.index_error, record { queue = []; calls = calls })
  service_next_global_request (e ∷ rest) calls =
      let next = λ (a : Answer).
        if is_empty rest
        then (ok tt, record { queue = []; calls = calls ++ reply e.want_reply a })
        else service_next_global_request rest (calls ++ reply e.want_reply a) in
      elim e.handler [
        | none ↦ next Answer.refused
        | some h ↦ elim (v.serve h e.packet) [
          | Served.at_once a ↦ next a
          | Served.later ↦ (ok tt, record { queue = e ∷ rest; calls = calls })
          | Served.raised x ↦ (err x, record { queue = e ∷ rest; calls = calls })
        ]
      ]

  -- `_report_global_response`
  unfoldable pub report_global_response : Answer → Requests v → Done v
  unfolding service_next_global_request reply
  report_global_response a s = elim s.queue [
    | [] ↦ (err Error.index_error, s)
    | e ∷ rest ↦
        if is_empty rest
        then (ok tt, record { queue = []; calls = s.calls ++ reply e.want_reply a })
        else service_next_global_request rest (s.calls ++ reply e.want_reply a)
  ]

  -- The entry of a request.
  unfoldable pub read_request : SshPacket → Result (Entry v)
  unfolding get_string get_boolean is_ascii
  read_request p =
      (and_then get_string
        (λ request. and_then get_boolean (λ want_reply p. (
          if is_ascii request
              then ok (record { handler = v.find request; packet = p; want_reply = want_reply })
              else err Error.protocol_error,
          p,
        )))
        p).0

  -- What follows when the request has been read, or could not be.
  unfoldable pub enqueue : Result (Entry v) → Requests v → Done v
  unfolding service_next_global_request
  enqueue (err x) s = (err x, s)
  enqueue (ok e) s =
      let queue = s.queue ++ e ∷ [] in
      if is_empty s.queue
      then service_next_global_request queue s.calls
      else (ok tt, record { queue = queue; calls = s.calls })

  -- `_process_global_request`
  unfoldable pub process_global_request : SshPacket → Requests v → Done v
  unfolding read_request
  process_global_request p s = enqueue (read_request p) s

  -- A request of the peer, or a report of a task.
  pub data Event : Type 0 where
    request : SshPacket → Event
    report : Answer → Event

  unfoldable pub step : Event → Requests v → Requests v
  step (request p) s = (process_global_request p s).1
  step (report a) s = (report_global_response a s).1

  unfoldable pub run : List Event → Requests v → Requests v
  run [] s = s
  run (x ∷ xs) s = run xs (step x s)

  -- The request that was read, before others.
  abbrev pub after : Result (Entry v) → List (Entry v) → List (Entry v)
  after (err x) es = es
  after (ok e) es = e ∷ es

  -- The requests among events that could be read, in order.
  unfoldable pub arrived : List Event → List (Entry v)
  arrived [] = []
  arrived (report a ∷ xs) = arrived xs
  arrived (request p ∷ xs) = after (read_request p) (arrived xs)
