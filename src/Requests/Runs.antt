-- ===== src/Requests/Runs.antt =====
-- Global requests at concrete inputs.
use asyncssh.Base.{
  ℕ, ◌≡◌, refl, Bool, true, false, none, some, if◌then◌else◌, bytes_eq, List, [], ◌∷◌,
}
use asyncssh.Base.Bytes.{from_bytes}
use asyncssh.Packet.{SshPacket, init, get_string, get_boolean, get_bytes, get_uint32, get_byte}
use asyncssh.Connection.Receive.{is_ascii}
use asyncssh.Requests.{
  Answer, Served, Service, Event, run, step, arrived, reply, service_next_global_request,
  report_global_response, read_request, enqueue, process_global_request,
}
use asyncssh.Requests.Order.{InOrder, run-InOrder}

-- A handler that reports at once, for the request "a", and one that makes a task, for "b".
abbrev service : Service
service = record {
  Handler = Bool;
  find = λ request.
      if bytes_eq request (97 ∷ [])
      then some true
      else if bytes_eq request (98 ∷ [])
      then some false
      else none;
  serve = λ h p. elim h [ true ↦ Served.at_once Answer.accepted | false ↦ Served.later ];
}

abbrev named : ℕ → SshPacket
named name = init (0 ∷ 0 ∷ 0 ∷ 1 ∷ name ∷ 1 ∷ [])

-- "b", "a" and "c" arrive; then the task of "b" reports a port.
abbrev events : List (Event service)
events =
    Event.request (named 98)
    ∷ Event.request (named 97)
    ∷ Event.request (named 99)
    ∷ Event.report (Answer.payload (0 ∷ 0 ∷ 31 ∷ 144 ∷ []))
    ∷ []

replies_wait :
    (run service events (record { queue = []; calls = [] })).calls
    ≡ (81, (0 ∷ 0 ∷ 31 ∷ 144 ∷ []) ∷ []) ∷ (81, [] ∷ []) ∷ (82, []) ∷ []
unfolding run step reply service_next_global_request report_global_response read_request enqueue
    process_global_request get_string get_boolean get_bytes get_uint32 get_byte init from_bytes
    is_ascii
replies_wait = refl

run-InOrder_example :
    InOrder service
      (arrived service events)
      (run service events (record { queue = []; calls = [] }))
run-InOrder_example = run-InOrder service events
