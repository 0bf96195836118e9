-- ===== src/Connection/Runs.antt =====
-- Packets, keys and connections at concrete inputs.
use asyncssh.Base.{
  ok, ℕ, ◌+◌, ◌%◌, ◌^◌, ◌≤◌, ◌<◌, ◌≡◌, refl, arith, true, false, ◌&&◌, List, [], ◌∷◌, ◌++◌, none,
  some, if◌then◌else◌, ◌==◌, length,
}
use asyncssh.Connection.Receive.{recv_pkthdr}
use asyncssh.Connection.Dispatch.{recv_packet}
use asyncssh.Connection.Handlers.{Parts, Processed}
use asyncssh.Base.Bytes.{to_bytes, big_endian}
use asyncssh.Packet.{byte, uint32}
use asyncssh.Encryption.Shims.{Encryption, basic, hmac, sign, encrypt_packet}
use asyncssh.Encryption.Opening.{basic_pair}
use asyncssh.Connection.Types.{returns, Connection, Wait, Handler, Sending, Receiving}
use asyncssh.Connection.Send.{
  concat, padding, deflate, frame, seal, next_seq, emit_frame, emit_payload, emit,
}
use asyncssh.Connection.Calls.{Options, fresh}
use asyncssh.Connection.NewKeys.{Agreed, recv_packet-Matched}
use asyncssh.Connection.Keys.{Direction, prepare_recv, install_send, choose_alg}
use asyncssh.Connection.Padding.{padding_fills}
use asyncssh.Connection.Choice.{Chosen, choose_alg-Chosen}
use asyncssh.Connection.Framing.{sealed, direct}
use asyncssh.Connection.RoundTrip.{Matched, Reads, recv-send}
use asyncssh.Connection.Toy.{primitives, toy, toy_laws}

abbrev key : Encryption primitives
key = basic tt (hmac tt (1 ∷ []) 2)

-- The sender of a client's packets, after key exchange.
abbrev sender : Sending toy
sender = record {
  seq = 7;
  encryption = some key;
  enchdrlen = 5;
  blocksize = 16;
  compressor = none;
  compress_after_auth = false;
  written = [];
  draws = 0;
}

-- A channel data packet with three bytes.
abbrev sent : Sending toy
sent = (emit toy true false true 94 ((1 ∷ 2 ∷ 3 ∷ []) ∷ []) sender).1

abbrev receiver : Receiving toy
receiver = record {
  inpbuf = sent.written ++ 4 ∷ 5 ∷ [];
  packet = [];
  pktlen = 0;
  handler = Handler.pkthdr;
  seq = 7;
  keys = record {
    encryption = some key;
    blocksize = 16;
    macsize = 2;
    decompressor = none;
    decompress_after_auth = false;
  };
}

signed : (seq : ℕ) (packet : List ℕ) → length (sign primitives (hmac tt (1 ∷ []) 2) seq packet) ≡ 2
unfolding sign
signed seq packet = refl

matched : Matched toy toy_laws sender receiver
matched = record {
  block = refl;
  wide = omega arith;
  hdrlen = omega arith;
  numbered = refl;
  ready = refl;
  keys = sealed (omega arith) (basic_pair tt (omega arith) refl signed);
  streams = direct;
  delayed = refl;
}

recv-send_example :
    (d : List ℕ) × (sent.written ≡ sender.written ++ d)
    × (sent.seq ≡ (if 94 == 21 && false then 0 else (sender.seq + 1) % 2 ^ 32))
    × ((rest : List ℕ)
        → receiver.inpbuf ≡ d ++ rest
        → Reads toy toy_laws true (94 ∷ concat ((1 ∷ 2 ∷ 3 ∷ []) ∷ [])) rest sent receiver)
unfolding emit emit_payload emit_frame frame deflate seal next_seq padding byte uint32 to_bytes
    big_endian concat encrypt_packet sign
recv-send_example =
    recv-send toy toy_laws false true 94 12 ((1 ∷ 2 ∷ 3 ∷ []) ∷ []) sender sent refl receiver
      matched

padding_fills_example :
    (4 ≤ padding 5 16 100) × (padding 5 16 100 < 16 + 4) × ((5 + 100 + padding 5 16 100) % 16 ≡ 0)
padding_fills_example = padding_fills 5 16 100 (omega arith)

-- A client that prefers 1 and a server that prefers 2.
choose_alg-Chosen_example :
    (choose_alg true ((1 ∷ []) ∷ (2 ∷ []) ∷ []) ((2 ∷ []) ∷ (3 ∷ []) ∷ [])
      ≡ choose_alg false ((2 ∷ []) ∷ (3 ∷ []) ∷ []) ((1 ∷ []) ∷ (2 ∷ []) ∷ []))
    × Chosen
        ((1 ∷ []) ∷ (2 ∷ []) ∷ [])
        ((2 ∷ []) ∷ (3 ∷ []) ∷ [])
        (choose_alg true ((1 ∷ []) ∷ (2 ∷ []) ∷ []) ((2 ∷ []) ∷ (3 ∷ []) ∷ []))
choose_alg-Chosen_example = choose_alg-Chosen ((1 ∷ []) ∷ (2 ∷ []) ∷ []) ((2 ∷ []) ∷ (3 ∷ []) ∷ [])

-- Both ends know the same keys.
abbrev direction : Direction toy
direction = record {
  cipher = key;
  blocksize = 16;
  hashsize = 2;
  etm = false;
  compressor = none;
  decompressor = none;
  after_auth = false;
}

agreed : Agreed toy toy_laws direction direction
agreed = record {
  blocks = refl;
  after_auth = refl;
  keys = basic_pair tt (omega arith) refl signed;
  streams = direct;
}

abbrev options : Options
options = record {
  version = [];
  offer = record { kex_algs = []; host_key_algs = []; enc_algs = []; mac_algs = []; cmp_algs = [] };
  wait = Wait.nothing;
  rekey_bytes = 1000;
  rekey_seconds = 0;
}

-- No packet goes to another part here.
abbrev parts : Parts toy
parts = record {
  process_kex = λ pkttype p c. (ok Processed.done, c);
  process_auth = λ pkttype p c. (ok Processed.done, c);
  process_channel = λ n pkttype p c. (ok Processed.done, c);
  process_other = λ pkttype p c. (ok Processed.unknown, c);
  try_next_auth = returns;
  describe = λ e. (2, [], []);
  is_utf8 = λ bytes. true;
}

-- The sender after its NEWKEYS, still with the old keys.
abbrev moved : Sending toy
moved = (emit toy true true false 21 [] sender).1

-- A server to which NEWKEYS and two bytes more have arrived.
abbrev waiting : Connection toy
waiting = record (fresh toy true options (λ i. 0)) {
  has_transport = true;
  strict_kex = true;
  recv = record receiver { inpbuf = moved.written ++ 4 ∷ 5 ∷ [] };
  next_keys = prepare_recv toy direction;
}

waiting-Matched : Matched toy toy_laws sender waiting.recv
waiting-Matched = record {
  block = refl;
  wide = omega arith;
  hdrlen = omega arith;
  numbered = refl;
  ready = refl;
  keys = sealed (omega arith) (basic_pair tt (omega arith) refl signed);
  streams = direct;
  delayed = refl;
}

recv_packet-Matched_example :
    let h = recv_pkthdr toy waiting.recv in
    let r = recv_packet toy parts (record waiting { recv = h.1 }) in
    (h.0 ≡ true)
    × (r.0 ≡ ok true)
    × (r.1.recv.inpbuf ≡ 4 ∷ 5 ∷ [])
    × Matched toy toy_laws (install_send toy direction moved) r.1.recv
unfolding emit emit_payload emit_frame frame deflate seal next_seq padding byte uint32 to_bytes
    big_endian concat encrypt_packet sign
recv_packet-Matched_example =
    recv_packet-Matched toy toy_laws parts direction direction 12 sender moved waiting moved.written
      (4 ∷ 5 ∷ []) agreed waiting-Matched refl refl refl refl refl
