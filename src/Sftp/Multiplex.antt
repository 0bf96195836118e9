-- ===== src/Sftp/Multiplex.antt =====
-- Requests of an SFTP client and the responses to them: SFTPClientHandler and SFTPHandler of asyncssh/sftp.py.
pub mod Lookup
pub mod Matching
pub mod Settling
mod Runs
use asyncssh.Base.{
  ℕ, zero, suc, ◌+◌, ◌%◌, ◌^◌, Bool, true, false, not, Option, none, some, List, [], ◌∷◌, ◌++◌,
  length, ◌==◌, if◌then◌else◌, Result, ok, err, ◌>>=◌, Error, packet_decode_error,
}
use asyncssh.Packet.{SshPacket, init, and_then, get_byte, get_uint32, byte, uint32, string}

-- The exceptions SFTPBadMessage, SFTPConnectionLost, SFTPNoConnection, and others.
pub data Problem : Type 0 where
  bad_message connection_lost no_connection : Problem
  other : Error → Problem

-- `pkttype` of a request: a code, or the name of an extension.
pub data Kind : Type 0 where
  code : ℕ → Kind
  extension : List ℕ → Kind

-- How a future ends: with a response, its id, type and packet, or with an exception.
pub data Settled : Type 0 where
  answered : ℕ → ℕ → SshPacket → Settled
  failed : Problem → Settled

-- `_next_pktid` and `_requests`; whether `_reader` and `_writer` are set; the futures that were created, which are
-- numbered, those that were cancelled and those that ended; and what was written, with the id that is logged for it.
pub record Client : Type 0 where
  pub next_pktid : ℕ
  pub requests : List (ℕ × ℕ)
  pub connected : Bool
  pub created : ℕ
  pub cancelled : List ℕ
  pub settled : List (ℕ × Settled)
  pub written : List (ℕ × List ℕ)

-- `__init__`
unfoldable pub opened : Client
opened = record {
  next_pktid = 0;
  requests = [];
  connected = true;
  created = 0;
  cancelled = [];
  settled = [];
  written = [];
}

-- `requests[pktid] = waiter`
unfoldable pub set_item : ℕ → ℕ → List (ℕ × ℕ) → List (ℕ × ℕ)
set_item pktid waiter [] = (pktid, waiter) ∷ []
set_item pktid waiter ((k, w) ∷ rs) =
    let rest = set_item pktid waiter rs in if k == pktid then (k, waiter) ∷ rs else (k, w) ∷ rest

-- `requests.pop(pktid)`: what it returns, and what it leaves.
unfoldable pub pop_item : ℕ → List (ℕ × ℕ) → Option ℕ × List (ℕ × ℕ)
pop_item pktid [] = (none, [])
pop_item pktid ((k, w) ∷ rs) =
    let rest = pop_item pktid rs in if k == pktid then (some w, rs) else (rest.0, (k, w) ∷ rest.1)

unfoldable pub contains : ℕ → List ℕ → Bool
contains w [] = false
contains w (x ∷ xs) = let rest = contains w xs in if w == x then true else rest

-- `if not waiter.cancelled()` with what follows
unfoldable pub settle : ℕ → Settled → Client → Client
unfolding contains
settle waiter how c =
    if contains waiter c.cancelled
    then c
    else record c { settled = c.settled ++ (waiter, how) ∷ [] }

unfoldable pub fail_all : Problem → List (ℕ × ℕ) → Client → Client
unfolding settle
fail_all exc [] c = c
fail_all exc ((k, w) ∷ rs) c = fail_all exc rs (settle w (Settled.failed exc) c)

-- `_cleanup` of both classes
unfoldable pub cleanup : Option Problem → Client → Client
unfolding fail_all
cleanup none c =
    let d = fail_all Problem.connection_lost c.requests c in
    record d { requests = []; connected = false }
cleanup (some exc) c =
    let d = fail_all exc c.requests c in record d { requests = []; connected = false }

-- What a call raises, or none.
abbrev pub Call : Type 0
Call = Option Problem × Client

unfoldable pub concat : List (List ℕ) → List ℕ
concat [] = []
concat (x ∷ xs) = x ++ concat xs

-- The bytes of a packet.
unfoldable pub packet_bytes : ℕ → List (List ℕ) → Result (List ℕ)
unfolding byte uint32 concat
packet_bytes pkttype args = do
  head ← byte pkttype
  size ← uint32 (length (head ++ concat args))
  ok (size ++ (head ++ concat args))

-- The call of `write`, which raises a ConnectionError if the connection is `broken`.
unfoldable pub write_bytes : Bool → ℕ → Result (List ℕ) → Client → Call
write_bytes broken pktid (err e) c = (some (Problem.other e), c)
write_bytes broken pktid (ok bytes) c =
    if broken
    then (some Problem.connection_lost, c)
    else (none, record c { written = c.written ++ (pktid, bytes) ∷ [] })

unfoldable pub send_packet : Bool → ℕ → ℕ → List (List ℕ) → Client → Call
unfolding packet_bytes write_bytes
send_packet broken pkttype pktid args c =
    if c.connected
    then write_bytes broken pktid (packet_bytes pkttype args) c
    else (some Problem.no_connection, c)

-- The type that is sent; FXP_EXTENDED is 200.
unfoldable pub kind_code : Kind → ℕ
kind_code (Kind.code n) = n
kind_code (Kind.extension name) = 200

-- `hdr`
unfoldable pub header : Kind → ℕ → Result (List ℕ)
unfolding uint32 string
header (Kind.code n) pktid = uint32 pktid
header (Kind.extension name) pktid = do id ← uint32 pktid; text ← string name; ok (id ++ text)

unfoldable pub send_headed : Bool → Kind → ℕ → List (List ℕ) → Result (List ℕ) → Client → Call
unfolding send_packet kind_code
send_headed broken kind pktid args (err e) c = (some (Problem.other e), c)
send_headed broken kind pktid args (ok hdr) c =
    send_packet broken (kind_code kind) pktid (hdr ∷ args) c

unfoldable pub send_request : Bool → Kind → List (List ℕ) → ℕ → Client → Call
unfolding set_item send_headed header
send_request broken kind args waiter c =
    let pktid = c.next_pktid in
    send_headed broken kind pktid args (header kind pktid)
      (record c { next_pktid = (pktid + 1) % 2 ^ 32; requests = set_item pktid waiter c.requests })

-- `_make_request` up to the wait
unfoldable pub make_request : Bool → Kind → List (List ℕ) → Client → Call
unfolding send_request
make_request broken kind args c =
    send_request broken kind args c.created (record c { created = c.created + 1 })

unfoldable pub answer : Option ℕ → List (ℕ × ℕ) → ℕ → ℕ → SshPacket → Client → Client
unfolding cleanup settle
answer none rest pkttype pktid packet c = cleanup (some Problem.bad_message) c
answer (some waiter) rest pkttype pktid packet c =
    settle waiter (Settled.answered pktid pkttype packet) (record c { requests = rest })

unfoldable pub process_packet : ℕ → ℕ → SshPacket → Client → Client
unfolding pop_item answer
process_packet pkttype pktid packet c =
    let found = pop_item pktid c.requests in answer found.0 found.1 pkttype pktid packet c

-- The type and the id at the start of a packet.
unfoldable pub read_header : SshPacket → Result (ℕ × ℕ) × SshPacket
unfolding get_byte get_uint32
read_header =
    and_then get_byte (λ pkttype. and_then get_uint32 (λ pktid p. (ok (pkttype, pktid), p)))

unfoldable pub reported : Error → Problem
reported Error.packet_decode_error = Problem.bad_message
reported e = Problem.other e

unfoldable pub dispatch : Result (ℕ × ℕ) → SshPacket → Client → Client
unfolding process_packet cleanup reported
dispatch (ok (pkttype, pktid)) packet c = process_packet pkttype pktid packet c
dispatch (err e) packet c = cleanup (some (reported e)) c

-- A round of `recv_packets`, for a packet that was read.
unfoldable pub receive : List ℕ → Client → Client
unfolding read_header dispatch init
receive payload c = let read = read_header (init payload) in dispatch read.0 read.1 c

-- What happens to a client: a caller makes a request or gives it up, a packet arrives, or the stream ends, with an
-- exception other than EOFError or without.
pub data Event : Type 0 where
  request : Bool → Kind → List (List ℕ) → Event
  cancel : ℕ → Event
  packet : List ℕ → Event
  ended : Option Problem → Event

-- After a cleanup the loop of `recv_packets` is over.
unfoldable pub step : Event → Client → Client
unfolding make_request receive cleanup
step (Event.request broken kind args) c = (make_request broken kind args c).1
step (Event.cancel waiter) c = record c { cancelled = waiter ∷ c.cancelled }
step (Event.packet payload) c = if c.connected then receive payload c else c
step (Event.ended exc) c = if c.connected then cleanup exc c else c

unfoldable pub run : List Event → Client → Client
unfolding step
run [] c = c
run (e ∷ es) c = run es (step e c)
