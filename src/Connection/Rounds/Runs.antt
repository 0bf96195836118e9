-- ===== src/Connection/Rounds/Runs.antt =====
-- A server that receives a version line and two packets in one piece.
use asyncssh.Base.{ℕ, suc, ◌*◌, ◌≤◌, ◌≢◌, arith, true, List, [], ◌∷◌, length, ok, err, Error}
use asyncssh.Connection.Types.{Connection, Wait, returns}
use asyncssh.Connection.Handlers.{Parts, Processed}
use asyncssh.Connection.Dispatch.{recv_rounds, recv_data}
use asyncssh.Connection.Calls.{Options, fresh}
use asyncssh.Connection.Toy.{toy}
use asyncssh.Connection.Room.{fine}
use asyncssh.Connection.Replies.{Steady}
use asyncssh.Connection.Rounds.{recv_data_ends}

abbrev parts : Parts toy
parts = record {
  process_kex = λ t p c. (ok Processed.done, c);
  process_auth = λ t p c. (ok Processed.unknown, c);
  process_channel = λ k t p c. (ok Processed.unknown, c);
  process_other = λ t p c. (ok Processed.unknown, c);
  try_next_auth = returns;
  describe = λ e. (2, [], []);
  is_utf8 = λ bytes. true;
}

parts-Steady : Steady parts
parts-Steady = record {
  kex = λ n t p c g. fine Processed.done g;
  auth = λ n t p c g. fine Processed.unknown g;
  channel = λ n k t p c g. fine Processed.unknown g;
  other = λ n t p c g. fine Processed.unknown g;
  try_next = λ n c g. fine tt g;
}

abbrev options : Options
options = record {
  version = b'A' ∷ [];
  offer = record {
    kex_algs = (b'k' ∷ []) ∷ [];
    host_key_algs = (b'h' ∷ []) ∷ [];
    enc_algs = (b'e' ∷ []) ∷ [];
    mac_algs = (b'm' ∷ []) ∷ [];
    cmp_algs = (b'c' ∷ []) ∷ [];
  };
  wait = Wait.nothing;
  rekey_bytes = 1000;
  rekey_seconds = 3600;
}

-- The line, MSG_IGNORE without its string, and the start of a packet.
abbrev buffer : List ℕ
buffer =
    b'S' ∷ b'S' ∷ b'H' ∷ b'-' ∷ b'2' ∷ b'.' ∷ b'0' ∷ b'-' ∷ b'B' ∷ 13 ∷ 10 ∷ 0 ∷ 0 ∷ 0 ∷ 12 ∷ 10 ∷ 2
    ∷ 0 ∷ 0 ∷ 0 ∷ 0 ∷ 0 ∷ 0 ∷ 0 ∷ 0 ∷ 0 ∷ 0 ∷ 0 ∷ 0 ∷ 0 ∷ 12 ∷ []

abbrev server : Connection toy
server =
    let c = fresh toy true options (λ i. 0) in
    let r = c.recv in record c { has_transport = true; recv = record r { inpbuf = buffer } }

recv_data_ends_example :
    ((recv_rounds toy parts (suc (2 * length server.recv.inpbuf)) server).0 ≢ err Error.out_of_fuel)
    × ((recv_data toy parts server).0 ≢ err Error.out_of_fuel)
    × (length (recv_data toy parts server).1.recv.inpbuf ≤ length server.recv.inpbuf)
unfolding fresh
recv_data_ends_example = recv_data_ends toy parts parts-Steady server (omega arith) (λ e. cc)
