-- ===== src/Sftp/Multiplex/Matching.antt =====
-- A caller gets a packet that carries the id of its request, and none else.
use mathlib.Core.List.{append_assoc, append-nil}
use asyncssh.Base.{
  ℕ, ◌%◌, ◌^◌, ◌≡◌, refl, arith, Bool, true, false, Option, none, some, List, [], ◌∷◌, ◌++◌, length,
  All, All-append, if_either, Result, ok, err, >>=-eq-ok, take, drop, sym, ap, ◌∙◌, take-append,
  drop-append, length-append,
}
use asyncssh.Base.Bytes.{from_bytes}
use asyncssh.Packet.{SshPacket, init, get_bytes, get_byte, get_uint32, byte, uint32, string}
use asyncssh.Packet.RoundTrip.{byte-eq-ok, to_bytes-eq-ok}
use asyncssh.Sftp.Multiplex.{
  Client, Settled, Problem, Kind, Event, Call, contains, settle, fail_all, cleanup, header,
  kind_code, concat, packet_bytes, write_bytes, send_packet, send_headed, send_request,
  make_request, answer, pop_item, process_packet, read_header, reported, dispatch, receive, step,
  run, opened,
}
use asyncssh.Sftp.Multiplex.Lookup.{All-set_item, All-pop_item, pop_item-found}

-- A response went to the waiter whose number its id is, modulo 2 ^ 32, and its packet carries that id.
abbrev pub Right : ℕ × Settled → Type 0
Right (waiter, Settled.answered pktid pkttype p) =
    (pktid ≡ waiter % 2 ^ 32) × (from_bytes (take 4 (drop 1 p.packet)) ≡ pktid)
Right (waiter, Settled.failed e) = Unit {0}

-- Behind the length and the type stands the id.
abbrev pub Framed : ℕ × List ℕ → Type 0
Framed (pktid, bytes) = from_bytes (take 4 (drop 5 bytes)) ≡ pktid

record Registered (c : Client) : Type 0 where
  next : c.next_pktid ≡ c.created % 2 ^ 32
  tagged : All (λ r. r.0 ≡ r.1 % 2 ^ 32) c.requests
  right : All Right c.settled
  framed : All Framed c.written

header-eq-ok :
    (kind : Kind) (pktid : ℕ) (hdr : List ℕ)
    → header kind pktid ≡ ok hdr
    → (id : List ℕ) × (text : List ℕ) × (hdr ≡ id ++ text) × (uint32 pktid ≡ ok id)
unfolding header
header-eq-ok (Kind.code n) pktid hdr h = (hdr, [], sym (append-nil hdr), h)
header-eq-ok (Kind.extension name) pktid hdr h =
    let (id, first, rest) = >>=-eq-ok (uint32 pktid) _ h in
    let (text, second, e) = >>=-eq-ok (string name) _ rest in (id, text, cc, first)

id_behind :
    (size : List ℕ) (pkttype : ℕ) (id rest : List ℕ)
    → length size ≡ 4
    → length id ≡ 4
    → take 4 (drop 5 ((size ++ pkttype ∷ []) ++ (id ++ rest))) ≡ id
id_behind size pkttype id rest s l =
    let five : length (size ++ pkttype ∷ []) ≡ 5 =
      omega (arith, length-append size (pkttype ∷ []), s) in
    rw (drop-append 5 (size ++ pkttype ∷ []) (id ++ rest) five) (take-append 4 id rest l)

packet_bytes-Framed :
    (kind : Kind) (pkttype pktid : ℕ) (hdr : List ℕ) (args : List (List ℕ)) (bytes : List ℕ)
    → header kind pktid ≡ ok hdr
    → packet_bytes pkttype (hdr ∷ args) ≡ ok bytes
    → Framed (pktid, bytes)
unfolding packet_bytes concat uint32
packet_bytes-Framed kind pkttype pktid hdr args bytes h e =
    let (id, text, whole, first) = header-eq-ok kind pktid hdr h in
    let (head, e_head, rest) = >>=-eq-ok (byte pkttype) _ e in
    let (size, e_size, e_bytes) =
      >>=-eq-ok (uint32 (length (head ++ concat (hdr ∷ args)))) _ rest in
    let (len, value) = to_bytes-eq-ok 4 pktid id first in
    let (size_len, size_value) =
      to_bytes-eq-ok 4 (length (head ++ concat (hdr ∷ args))) size e_size in
    let one : head ≡ pkttype ∷ [] = byte-eq-ok pkttype head e_head in
    let whole_ : size ++ (head ++ concat (hdr ∷ args)) ≡ bytes = cc e_bytes in
    let shape : (size ++ pkttype ∷ []) ++ (id ++ (text ++ concat args)) ≡ bytes =
      ap (λ z. (size ++ pkttype ∷ []) ++ z)
        (sym (append_assoc id text (concat args)) ∙ ap (λ z. z ++ concat args) (sym whole))
      ∙ append_assoc size (pkttype ∷ []) (hdr ++ concat args)
      ∙ ap (λ z. size ++ (z ++ (hdr ++ concat args))) (sym one)
      ∙ whole_ in
    rw (← shape, id_behind size pkttype id (text ++ concat args) size_len len) value

settle-Registered :
    (waiter : ℕ) (how : Settled) (c : Client)
    → Right (waiter, how)
    → Registered c
    → Registered (settle waiter how c)
unfolding settle
settle-Registered waiter how c r g =
    if_either Registered (contains waiter c.cancelled) (λ e. g)
      (λ e. record {
        next = g.next;
        tagged = g.tagged;
        right = All-append Right c.settled ((waiter, how) ∷ []) g.right (r, tt);
        framed = g.framed;
      })

fail_all-Registered :
    (exc : Problem) (rs : List (ℕ × ℕ)) (c : Client) → Registered c → Registered (fail_all exc rs c)
unfolding fail_all
fail_all-Registered exc [] c g = g
fail_all-Registered exc ((k, w) ∷ rs) c g =
    fail_all-Registered exc rs (settle w (Settled.failed exc) c)
      (settle-Registered w (Settled.failed exc) c tt g)

cleanup-Registered : (exc : Option Problem) (c : Client) → Registered c → Registered (cleanup exc c)
unfolding cleanup
cleanup-Registered none c g =
    let d = fail_all-Registered Problem.connection_lost c.requests c g in
    record { next = d.next; tagged = tt; right = d.right; framed = d.framed }
cleanup-Registered (some exc) c g =
    let d = fail_all-Registered exc c.requests c g in
    record { next = d.next; tagged = tt; right = d.right; framed = d.framed }

write_bytes-Registered :
    (broken : Bool) (pktid : ℕ) (made : Result (List ℕ)) (c : Client)
    → ((bytes : List ℕ) → made ≡ ok bytes → Framed (pktid, bytes))
    → Registered c
    → Registered (write_bytes broken pktid made c).1
unfolding write_bytes
write_bytes-Registered broken pktid (err e) c f g = g
write_bytes-Registered true pktid (ok bytes) c f g = g
write_bytes-Registered false pktid (ok bytes) c f g = record {
  next = g.next;
  tagged = g.tagged;
  right = g.right;
  framed = All-append Framed c.written ((pktid, bytes) ∷ []) g.framed (f bytes refl, tt);
}

send_headed-Registered :
    (broken : Bool) (kind : Kind) (pktid : ℕ) (args : List (List ℕ)) (made : Result (List ℕ))
    (c : Client)
    → header kind pktid ≡ made
    → Registered c
    → Registered (send_headed broken kind pktid args made c).1
unfolding send_headed send_packet
send_headed-Registered broken kind pktid args (err e) c h g = g
send_headed-Registered broken kind pktid args (ok hdr) c h g =
    if_either (λ (d : Call). Registered d.1) c.connected
      (λ e.
        write_bytes-Registered broken pktid (packet_bytes (kind_code kind) (hdr ∷ args)) c
          (λ bytes made. packet_bytes-Framed kind (kind_code kind) pktid hdr args bytes h made) g)
      (λ e. g)

make_request-Registered :
    (broken : Bool) (kind : Kind) (args : List (List ℕ)) (c : Client)
    → Registered c
    → Registered (make_request broken kind args c).1
unfolding make_request send_request
make_request-Registered broken kind args c g =
    let pktid = c.next_pktid in
    send_headed-Registered broken kind pktid args (header kind pktid) _ refl (record {
      next = omega (arith, g.next);
      tagged = All-set_item (λ r. r.0 ≡ r.1 % 2 ^ 32) pktid c.created c.requests g.next g.tagged;
      right = g.right;
      framed = g.framed;
    })

answer-Registered :
    (pkttype pktid : ℕ) (p : SshPacket) (found : Option ℕ) (rest : List (ℕ × ℕ)) (c : Client)
    → from_bytes (take 4 (drop 1 p.packet)) ≡ pktid
    → ((w : ℕ) → found ≡ some w → pktid ≡ w % 2 ^ 32)
    → All (λ r. r.0 ≡ r.1 % 2 ^ 32) rest
    → Registered c
    → Registered (answer found rest pkttype pktid p c)
unfolding answer
answer-Registered pkttype pktid p none rest c carries right t g =
    cleanup-Registered (some Problem.bad_message) c g
answer-Registered pkttype pktid p (some w) rest c carries right t g =
    settle-Registered w (Settled.answered pktid pkttype p) (record c { requests = rest })
      (right w refl, carries)
      (record { next = g.next; tagged = t; right = g.right; framed = g.framed })

process_packet-Registered :
    (pkttype pktid : ℕ) (p : SshPacket) (c : Client)
    → from_bytes (take 4 (drop 1 p.packet)) ≡ pktid
    → Registered c
    → Registered (process_packet pkttype pktid p c)
unfolding process_packet
process_packet-Registered pkttype pktid p c carries g =
    let Tagged = λ (r : ℕ × ℕ). r.0 ≡ r.1 % 2 ^ 32 in
    answer-Registered pkttype pktid p (pop_item pktid c.requests).0 (pop_item pktid c.requests).1 c
      carries (λ w e. pop_item-found Tagged pktid w c.requests g.tagged e)
      (All-pop_item Tagged pktid c.requests g.tagged) g

-- What is read as the id is what stands there.
read_header-carries :
    (payload : List ℕ) (pkttype pktid : ℕ)
    → (read_header (init payload)).0 ≡ ok (pkttype, pktid)
    → from_bytes (take 4 (drop 1 (read_header (init payload)).1.packet)) ≡ pktid
unfolding read_header get_byte get_uint32 get_bytes init
read_header-carries [] pkttype pktid h = ground arith
read_header-carries (b ∷ bs) pkttype pktid h = ground arith

dispatch-Registered :
    (read : Result (ℕ × ℕ)) (p : SshPacket) (c : Client)
    → ((pkttype pktid : ℕ)
        → read ≡ ok (pkttype, pktid)
        → from_bytes (take 4 (drop 1 p.packet)) ≡ pktid)
    → Registered c
    → Registered (dispatch read p c)
unfolding dispatch
dispatch-Registered (ok (pkttype, pktid)) p c carries g =
    process_packet-Registered pkttype pktid p c (carries pkttype pktid refl) g
dispatch-Registered (err e) p c carries g = cleanup-Registered (some (reported e)) c g

step-Registered : (e : Event) (c : Client) → Registered c → Registered (step e c)
unfolding step receive
step-Registered (Event.request broken kind args) c g = make_request-Registered broken kind args c g
step-Registered (Event.cancel waiter) c g = record {
  next = g.next;
  tagged = g.tagged;
  right = g.right;
  framed = g.framed;
}
step-Registered (Event.packet payload) c g =
    if_either Registered c.connected
      (λ e.
        dispatch-Registered (read_header (init payload)).0 (read_header (init payload)).1 c
          (read_header-carries payload) g)
      (λ e. g)
step-Registered (Event.ended exc) c g =
    if_either Registered c.connected (λ e. cleanup-Registered exc c g) (λ e. g)

run-Registered : (es : List Event) (c : Client) → Registered c → Registered (run es c)
unfolding run
run-Registered [] c g = g
run-Registered (e ∷ es) c g = run-Registered es (step e c) (step-Registered e c g)

-- Whatever requests are made and given up and whatever packets arrive, in any order: the ids in the packets that are
-- written are those that are logged for them, and a caller gets a packet only if it carries the number of its
-- request, modulo 2 ^ 32.
pub run-Right :
    (es : List Event) → All Right (run es opened).settled × All Framed (run es opened).written
unfolding opened
run-Right es =
    let g =
      run-Registered es opened (record { next = refl; tagged = tt; right = tt; framed = tt }) in
    (g.right, g.framed)
