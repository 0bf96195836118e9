-- ===== src/Connection/Early/Runs.antt =====
-- A server at concrete calls.
use asyncssh.Base.{◌≢◌, err, Error, true, List, [], ◌∷◌, ok, none}
use asyncssh.Connection.Types.{Connection, Wait, using, returns}
use asyncssh.Connection.Send.{send_packet}
use asyncssh.Connection.Depth.{send_packet_ends}
use asyncssh.Connection.Handlers.{Parts, Processed}
use asyncssh.Connection.Calls.{Options, Call, fresh, run, send_userauth_success}
use asyncssh.Connection.Rules.{keep_answer}
use asyncssh.Connection.Toy.{toy}
use asyncssh.Connection.Early.{Early}
use asyncssh.Connection.Early.Handling.{PartsEarly}
use asyncssh.Connection.Early.Calling.{send_userauth_success-Early, run-Early}

-- Authentication that accepts each user at once, and nothing else.
abbrev parts : Parts toy
parts = record {
  process_kex = λ t p c. (ok Processed.unknown, c);
  process_auth = λ t p c.
      let s = send_userauth_success toy [] c in using s.0 (λ u c. (ok Processed.done, c)) s.1;
  process_channel = λ n t p c. (ok Processed.unknown, c);
  process_other = λ t p c. (ok Processed.unknown, c);
  try_next_auth = returns;
  describe = λ e. (2, [], []);
  is_utf8 = λ bytes. true;
}

parts-PartsEarly : PartsEarly parts
parts-PartsEarly = record {
  kex = λ t p c g. g;
  auth = λ t p c g.
      keep_answer Early Processed.done (send_userauth_success toy [] c)
        (send_userauth_success-Early toy [] c g);
  channel = λ n t p c g. g;
  other = λ t p c g. g;
  next_auth = λ c g. g;
}

abbrev options : Options
options = record {
  version = 65 ∷ [];
  offer = record {
    kex_algs = (1 ∷ []) ∷ [];
    host_key_algs = (2 ∷ []) ∷ [];
    enc_algs = (3 ∷ []) ∷ [];
    mac_algs = (4 ∷ []) ∷ [];
    cmp_algs = (5 ∷ []) ∷ [];
  };
  wait = Wait.nothing;
  rekey_bytes = 1000;
  rekey_seconds = 3600;
}

-- The peer's version, then a channel is opened, then the user is accepted.
abbrev calls : List (Call toy)
calls =
    Call.made
    ∷ Call.received (83 ∷ 83 ∷ 72 ∷ 45 ∷ 50 ∷ 46 ∷ 48 ∷ 45 ∷ 66 ∷ 13 ∷ 10 ∷ [])
    ∷ Call.sends 90 ((1 ∷ []) ∷ [])
    ∷ Call.user_accepted []
    ∷ Call.lost none
    ∷ []

run-Early_example : Early (run toy parts returns calls (fresh toy true options (λ i. 0)))
run-Early_example =
    run-Early toy parts parts-PartsEarly returns (λ c g. g) true options (λ i. 0) calls

-- A connection whose keys are due.
abbrev due : Connection toy
due = record (fresh toy true options (λ i. 0)) {
  has_transport = true;
  auth_complete = true;
  kex_complete = true;
  rekey_bytes_sent = 2000;
}

send_packet_ends_example : (send_packet toy 94 ((1 ∷ []) ∷ []) due).0 ≢ err Error.out_of_fuel
send_packet_ends_example = send_packet_ends toy 94 ((1 ∷ []) ∷ []) due
