-- ===== src/Sftp/Multiplex/Runs.antt =====
-- A session with three requests, of which one is given up and two are answered in the other order.
use asyncssh.Base.{◌+◌, ◌≡◌, refl, arith, true, false, none, List, [], ◌∷◌, All, map}
use asyncssh.Base.Bytes.{to_bytes, from_bytes, from_bytes_acc, big_endian}
use asyncssh.Packet.{init, get_bytes, get_byte, get_uint32, byte, uint32, string}
use asyncssh.Sftp.Multiplex.{
  Settled, Problem, Kind, Event, contains, settle, fail_all, cleanup, header, kind_code, concat,
  packet_bytes, write_bytes, send_packet, send_headed, send_request, make_request, answer, pop_item,
  set_item, process_packet, read_header, reported, dispatch, receive, step, run, opened,
}
use asyncssh.Sftp.Multiplex.Lookup.{held, endings}
use asyncssh.Sftp.Multiplex.Matching.{Right, Framed, run-Right}
use asyncssh.Sftp.Multiplex.Settling.{asked, present, run_once, ended_once}

-- FXP_OPEN, FXP_EXTENDED and FXP_READ, then a handle for the third, an unfinished request that is given up, and a
-- status for the first.
abbrev session : List Event
session =
    Event.request false (Kind.code 3) ((1 ∷ 2 ∷ []) ∷ [])
    ∷ Event.request false (Kind.extension (b'x' ∷ [])) []
    ∷ Event.request false (Kind.code 5) []
    ∷ Event.packet (102 ∷ 0 ∷ 0 ∷ 0 ∷ 2 ∷ 7 ∷ [])
    ∷ Event.cancel 1
    ∷ Event.packet (101 ∷ 0 ∷ 0 ∷ 0 ∷ 0 ∷ [])
    ∷ []

-- The third request was answered first, then the first, and the second is left. A response to no request ends a
-- session.
session_runs :
    (map (λ s. s.0) (run session opened).settled ≡ 2 ∷ 0 ∷ [])
    × (contains 2 (run session opened).cancelled ≡ false)
    × (contains 2 (cleanup none (run session opened)).cancelled ≡ false)
    × ((run session opened).connected ≡ true)
    × (asked session ≡ 3)
    × (map
          (λ s. s.1)
          (run
            (Event.request false (Kind.code 3) [] ∷ Event.packet (101 ∷ 0 ∷ 0 ∷ 0 ∷ 9 ∷ []) ∷ [])
            opened).settled
        ≡ Settled.failed Problem.bad_message ∷ [])
unfolding run step opened make_request send_request send_headed send_packet write_bytes packet_bytes
    header kind_code concat set_item pop_item receive read_header reported dispatch process_packet
    answer settle contains cleanup fail_all init get_bytes get_byte get_uint32 byte uint32 string
    to_bytes from_bytes from_bytes_acc big_endian asked
session_runs = (refl, refl, refl, refl, refl, refl)

run-Right_example : All Right (run session opened).settled × All Framed (run session opened).written
run-Right_example = run-Right session

run_once_example :
    held 2 (run session opened).requests + endings 2 (run session opened).settled
    ≡ present 2 (asked session)
run_once_example = run_once session 2 (omega (arith, session_runs)) session_runs.1

ended_once_example : endings 2 (step (Event.ended none) (run session opened)).settled ≡ 1
ended_once_example =
    ended_once session none 2 (omega (arith, session_runs)) session_runs.3
      (omega (arith, session_runs)) session_runs.2
