-- ===== src/Sftp/Multiplex/Settling.antt =====
-- Each request ends once.
use asyncssh.Base.{
  ℕ, suc, ◌+◌, ◌%◌, ◌^◌, ◌<◌, ◌≤◌, ◌≡◌, refl, arith, Bool, true, false, Option, none, some, List,
  [], ◌∷◌, All, if◌then◌else◌, if_either, Bool-cases, inl, inr, Result, ok, err, sym, ap, ◌∙◌,
  subst, ltb, ◌==◌,
}
use asyncssh.Packet.{SshPacket, init}
use asyncssh.Sftp.Multiplex.{
  Client, Settled, Problem, Kind, Event, Call, contains, settle, fail_all, cleanup, header,
  kind_code, packet_bytes, write_bytes, send_packet, send_headed, send_request, make_request,
  answer, pop_item, process_packet, read_header, reported, dispatch, receive, step, run, opened,
}
use asyncssh.Sftp.Multiplex.Lookup.{
  held, endings, endings-snoc, held-set_item, held-pop_item, All-set_item, All-pop_item,
}

-- 1 for one of the first `n` requests, and 0 otherwise
unfoldable pub present : ℕ → ℕ → ℕ
present x n = if ltb x n then 1 else 0

-- The requests among the events.
unfoldable pub asked : List Event → ℕ
asked [] = 0
asked (Event.request broken kind args ∷ es) = suc (asked es)
asked (Event.cancel waiter ∷ es) = asked es
asked (Event.packet payload ∷ es) = asked es
asked (Event.ended exc ∷ es) = asked es

-- After `n` requests each of them waits or has ended, unless it was given up.
record Single (n : ℕ) (c : Client) : Type 0 where
  created : c.created ≡ n
  next : c.next_pktid ≡ n % 2 ^ 32
  tagged : All (λ r. (r.0 ≡ r.1) × (r.1 < n)) c.requests
  once :
      (x : ℕ)
      → contains x c.cancelled ≡ false
      → held x c.requests + endings x c.settled ≡ present x n

-- `more x` futures `x` ended, unless it was given up.
record Ended (more : ℕ → ℕ) (c d : Client) : Type 0 where
  created : d.created ≡ c.created
  next : d.next_pktid ≡ c.next_pktid
  cancelled : d.cancelled ≡ c.cancelled
  requests : d.requests ≡ c.requests
  endings_ :
      (x : ℕ) → contains x c.cancelled ≡ false → endings x d.settled ≡ endings x c.settled + more x

differ :
    (x w : ℕ) (ws : List ℕ)
    → contains w ws ≡ true
    → contains x ws ≡ false
    → ◌≡◌ {A = ℕ} (if x == w then 1 else 0) 0
differ x w ws h k = elim (Bool-cases (x == w)) [
  | inl e ↦ let same : x ≡ w = ground arith in absurd (cc (same, h, k))
  | inr e ↦ rw (e)
]

settle-Ended :
    (w : ℕ) (how : Settled) (c : Client) → Ended (λ x. if x == w then 1 else 0) c (settle w how c)
unfolding settle
settle-Ended w how c =
    if_either (Ended (λ x. if x == w then 1 else 0) c) (contains w c.cancelled)
      (λ e. record {
        created = refl;
        next = refl;
        cancelled = refl;
        requests = refl;
        endings_ = λ x k. omega (arith, differ x w c.cancelled e k);
      })
      (λ e. record {
        created = refl;
        next = refl;
        cancelled = refl;
        requests = refl;
        endings_ = λ x k. endings-snoc x w how c.settled;
      })

fail_all-Ended :
    (exc : Problem) (rs : List (ℕ × ℕ)) (c : Client) → Ended (λ x. held x rs) c (fail_all exc rs c)
unfolding fail_all held
fail_all-Ended exc [] c = record {
  created = refl;
  next = refl;
  cancelled = refl;
  requests = refl;
  endings_ = λ x k. omega arith;
}
fail_all-Ended exc ((k, w) ∷ rs) c =
    let first = settle-Ended w (Settled.failed exc) c in
    let rest = fail_all-Ended exc rs (settle w (Settled.failed exc) c) in
    record {
      created = rest.created ∙ first.created;
      next = rest.next ∙ first.next;
      cancelled = rest.cancelled ∙ first.cancelled;
      requests = rest.requests ∙ first.requests;
      endings_ = λ x k.
          omega (arith, first.endings_ x k, rest.endings_ x (ap (contains x) first.cancelled ∙ k));
    }

-- When a session is over, all that waited has ended.
closed-Single :
    (n : ℕ) (c d : Client)
    → Single n c
    → Ended (λ x. held x c.requests) c d
    → Single n (record d { requests = []; connected = false })
unfolding held
closed-Single n c d g h = record {
  created = h.created ∙ g.created;
  next = h.next ∙ g.next;
  tagged = tt;
  once = λ x k.
      let k' : contains x c.cancelled ≡ false = ap (contains x) (sym h.cancelled) ∙ k in
      omega (arith, h.endings_ x k', g.once x k');
}

cleanup-Single : (n : ℕ) (exc : Option Problem) (c : Client) → Single n c → Single n (cleanup exc c)
unfolding cleanup
cleanup-Single n none c g =
    closed-Single n c _ g (fail_all-Ended Problem.connection_lost c.requests c)
cleanup-Single n (some exc) c g = closed-Single n c _ g (fail_all-Ended exc c.requests c)

write_bytes-Single :
    (n : ℕ) (broken : Bool) (pktid : ℕ) (made : Result (List ℕ)) (c : Client)
    → Single n c
    → Single n (write_bytes broken pktid made c).1
unfolding write_bytes
write_bytes-Single n broken pktid (err e) c g = g
write_bytes-Single n true pktid (ok bytes) c g = g
write_bytes-Single n false pktid (ok bytes) c g = record {
  created = g.created;
  next = g.next;
  tagged = g.tagged;
  once = g.once;
}

send_headed-Single :
    (n : ℕ) (broken : Bool) (kind : Kind) (pktid : ℕ) (args : List (List ℕ))
    (made : Result (List ℕ)) (c : Client)
    → Single n c
    → Single n (send_headed broken kind pktid args made c).1
unfolding send_headed send_packet
send_headed-Single n broken kind pktid args (err e) c g = g
send_headed-Single n broken kind pktid args (ok hdr) c g =
    if_either (λ (d : Call). Single n d.1) c.connected
      (λ e. write_bytes-Single n broken pktid (packet_bytes (kind_code kind) (hdr ∷ args)) c g)
      (λ e. g)

-- The id of a request among the first 2 ^ 32 is new.
make_request-Single :
    (n : ℕ) (broken : Bool) (kind : Kind) (args : List (List ℕ)) (c : Client)
    → n < 2 ^ 32
    → Single n c
    → Single (suc n) (make_request broken kind args c).1
unfolding make_request send_request present
make_request-Single n broken kind args c h g =
    let pktid = c.next_pktid in
    let is_n : pktid ≡ n = omega (arith, g.next) in
    send_headed-Single (suc n) broken kind pktid args (header kind pktid) _ (record {
      created = omega (arith, g.created);
      next = omega (arith, g.next);
      tagged =
          All-set_item (λ r. (r.0 ≡ r.1) × (r.1 < suc n)) pktid c.created c.requests
            (omega (arith, g.created), omega (arith, g.created)) (older n c.requests g.tagged);
      once = λ x k.
          let new =
            held-set_item x pktid c.created c.requests (unused n pktid c.requests is_n g.tagged) in
          let old = g.once x k in let is_n' = g.created in ground arith;
    })
  where
    older :
        (n : ℕ) (rs : List (ℕ × ℕ))
        → All (λ r. (r.0 ≡ r.1) × (r.1 < n)) rs
        → All (λ r. (r.0 ≡ r.1) × (r.1 < suc n)) rs
    older n [] h = tt
    older n (r ∷ rs) ((e, l), later) = ((e, omega arith), older n rs later)

    unused :
        (n k : ℕ) (rs : List (ℕ × ℕ))
        → k ≡ n
        → All (λ r. (r.0 ≡ r.1) × (r.1 < n)) rs
        → All (λ r. ¬ (r.0 ≡ k)) rs
    unused n k [] e h = tt
    unused n k (r ∷ rs) e ((f, l), later) = ((λ s. omega arith), unused n k rs e later)

answer-Single :
    (n pkttype pktid : ℕ) (p : SshPacket) (found : Option ℕ) (rest : List (ℕ × ℕ)) (c : Client)
    → All (λ r. (r.0 ≡ r.1) × (r.1 < n)) rest
    → ((w : ℕ)
        → found ≡ some w
        → (x : ℕ) → held x c.requests ≡ held x rest + (if x == w then 1 else 0))
    → Single n c
    → Single n (answer found rest pkttype pktid p c)
unfolding answer
answer-Single n pkttype pktid p none rest c t taken g =
    cleanup-Single n (some Problem.bad_message) c g
answer-Single n pkttype pktid p (some w) rest c t taken g =
    let h = settle-Ended w (Settled.answered pktid pkttype p) (record c { requests = rest }) in
    record {
      created = h.created ∙ g.created;
      next = h.next ∙ g.next;
      tagged = subst (All (λ r. (r.0 ≡ r.1) × (r.1 < n))) (sym h.requests) t;
      once = λ x k.
          let k' : contains x c.cancelled ≡ false = ap (contains x) (sym h.cancelled) ∙ k in
          omega (arith, ap (held x) h.requests, h.endings_ x k', g.once x k', taken w refl x);
    }

process_packet-Single :
    (n pkttype pktid : ℕ) (p : SshPacket) (c : Client)
    → Single n c
    → Single n (process_packet pkttype pktid p c)
unfolding process_packet
process_packet-Single n pkttype pktid p c g =
    let rest = (pop_item pktid c.requests).1 in
    answer-Single n pkttype pktid p (pop_item pktid c.requests).0 rest c
      (All-pop_item (λ r. (r.0 ≡ r.1) × (r.1 < n)) pktid c.requests g.tagged)
      (λ w e x. held-pop_item x pktid w c.requests e) g

dispatch-Single :
    (n : ℕ) (read : Result (ℕ × ℕ)) (p : SshPacket) (c : Client)
    → Single n c
    → Single n (dispatch read p c)
unfolding dispatch
dispatch-Single n (ok (pkttype, pktid)) p c g = process_packet-Single n pkttype pktid p c g
dispatch-Single n (err e) p c g = cleanup-Single n (some (reported e)) c g

uncancelled : (x w : ℕ) (ws : List ℕ) → contains x (w ∷ ws) ≡ false → contains x ws ≡ false
unfolding contains
uncancelled x w ws h = ground arith

run-Single :
    (n : ℕ) (es : List Event) (c : Client)
    → n + asked es ≤ 2 ^ 32
    → Single n c
    → Single (n + asked es) (run es c)
unfolding run step asked
run-Single n [] c l g = subst (λ m. Single m c) (omega arith) g
run-Single n (Event.request broken kind args ∷ es) c l g =
    subst (λ m. Single m (run es (make_request broken kind args c).1)) (omega arith)
      (run-Single (suc n) es (make_request broken kind args c).1 (omega arith)
        (make_request-Single n broken kind args c (omega arith) g))
run-Single n (Event.cancel waiter ∷ es) c l g =
    run-Single n es (record c { cancelled = waiter ∷ c.cancelled }) l
      (record {
        created = g.created;
        next = g.next;
        tagged = g.tagged;
        once = λ x k. g.once x (uncancelled x waiter c.cancelled k);
      })
run-Single n (Event.packet payload ∷ es) c l g = run-Single n es (step (Event.packet payload) c) l (
    if_either (Single n) c.connected
      (λ e.
        unfold receive in
        dispatch-Single n (read_header (init payload)).0 (read_header (init payload)).1 c g)
      (λ e. g))
run-Single n (Event.ended exc ∷ es) c l g =
    run-Single n es (step (Event.ended exc) c) l
      (if_either (Single n) c.connected (λ e. cleanup-Single n exc c g) (λ e. g))

opened-Single : Single 0 opened
unfolding opened held endings present
opened-Single = record { created = refl; next = refl; tagged = tt; once = λ x k. ground arith }

opened_run : (es : List Event) → asked es ≤ 2 ^ 32 → Single (asked es) (run es opened)
opened_run es l =
    subst (λ m. Single m (run es opened)) (omega arith)
      (run-Single 0 es opened (omega arith) opened-Single)

-- Of at most 2 ^ 32 requests, each that was not given up either waits or has ended, and no other; and it waits or has
-- ended once.
pub run_once :
    (es : List Event) (x : ℕ)
    → asked es ≤ 2 ^ 32
    → contains x (run es opened).cancelled ≡ false
    → held x (run es opened).requests + endings x (run es opened).settled ≡ present x (asked es)
run_once es x l k = (opened_run es l).once x k

cleanup-requests : (exc : Option Problem) (c : Client) → (cleanup exc c).requests ≡ []
unfolding cleanup
cleanup-requests none c = refl
cleanup-requests (some exc) c = refl

-- When the stream of a session with at most 2 ^ 32 requests ends, each request that was not given up has ended, with a
-- response or with an exception, and once.
pub ended_once :
    (es : List Event) (exc : Option Problem) (x : ℕ)
    → asked es ≤ 2 ^ 32
    → (run es opened).connected ≡ true
    → x < asked es
    → contains x (cleanup exc (run es opened)).cancelled ≡ false
    → endings x (step (Event.ended exc) (run es opened)).settled ≡ 1
unfolding step present held
ended_once es exc x l on h k =
    let c = run es opened in
    let d = cleanup exc c in
    let g = cleanup-Single (asked es) exc c (opened_run es l) in
    let waits : held x d.requests ≡ 0 = ap (held x) (cleanup-requests exc c) in
    let all = g.once x k in
    let chosen : step (Event.ended exc) c ≡ d = ap (λ b. if b then d else c) on in
    rw (chosen) (ground (arith, waits, all))
