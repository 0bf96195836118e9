-- ===== src/Connection/Rounds.antt =====
-- The bound on the rounds of `_recv_data` is enough.
mod Runs
use asyncssh.Base.{
  ℕ, zero, suc, ◌+◌, ◌-◌, ◌*◌, ◌%◌, ◌^◌, ◌≤◌, ◌≡◌, ◌≢◌, refl, arith, Bool, true, false, not, ◌&&◌,
  Option, none, some, List, [], ◌∷◌, ◌++◌, length, ltb, ◌==◌, is_empty, if◌then◌else◌, if_either,
  Result, ok, err, Error, subst, sym, ap,
}
use asyncssh.Packet.{SshPacket, init, get_byte, uint32}
use asyncssh.Connection.Types.{
  World, Handler, Target, Receiving, Connection, Step, returns, raises, using, ◌then_◌, is_some,
}
use asyncssh.Connection.Send.{max_seq, send_packet, send_disconnect}
use asyncssh.Connection.Receive.{Progress, force_close, recv_version, recv_pkthdr, open_packet}
use asyncssh.Connection.Handlers.{Parts, Processed, Outcome, process_packet}
use asyncssh.Connection.Dispatch.{
  Route, route, remainder, is_disconnect_error, decode_error_to_protocol, finish_recv_packet,
  after_process, dispatch_packet, recv_packet, call_handler, recv_rounds, handle_error, recv_data,
  data_received,
}
use asyncssh.Connection.Ends.{Ends, returned, raised, retype, uint32-Ends}
use asyncssh.Connection.Room.{
  Room, as_before, Fine, fine, fine_using, send_packet-Fine, send_disconnect-Fine,
}
use asyncssh.Connection.Reading.{
  refused, force_close-Room, looser, Shrinks, recv_version-Shrinks, recv_pkthdr-Shrinks,
}
use asyncssh.Connection.Readers.{Reader, get_byte-Reader}
use asyncssh.Connection.Replies.{Steady, process_packet-Fine}
use asyncssh.Connection.Turns.{turn, turn_le, nonempty, recv_packet-Turns}

module _ (w : World) (parts : Parts w) (steady : Steady parts) where
  -- What a handler that made progress leaves takes less of the bound.
  record Steps (n : ℕ) (h : Handler) (s : Progress w) : Type 0 where
    fine_ : Fine n s
    rest :
        s.0 ≡ ok true → (k : ℕ) × Room k s.1 × (turn s.1.recv.handler + 2 * k + 1 ≤ turn h + 2 * n)

  -- A byte at least was taken out of the buffer.
  from_shrunk : (n : ℕ) (h : Handler) (s : Progress w) → 1 ≤ n → Shrinks n s → Steps n h s
  from_shrunk n h s some_ g = record {
    fine_ = g.fine_;
    rest = λ e. (n - 1, g.less e, omega (arith, turn_le s.1.recv.handler));
  }

  call_handler-Steps :
      (n : ℕ) (h : Handler) (c : Connection w)
      → 1 ≤ n
      → Room n c
      → Steps n h (call_handler w parts h c)
  unfolding call_handler
  call_handler-Steps n Handler.version c some_ g =
      from_shrunk n Handler.version (recv_version w c) some_ (recv_version-Shrinks w n c g)
  call_handler-Steps n Handler.pkthdr c some_ g =
      from_shrunk n Handler.pkthdr (call_handler w parts Handler.pkthdr c) some_
        (recv_pkthdr-Shrinks w n c g)
  call_handler-Steps n Handler.packet c some_ g =
      let t = recv_packet-Turns w parts steady n c g in
      record {
        fine_ = t.fine_;
        rest = λ e. (n, t.fine_.room, unfold turn in omega (arith, t.turned e));
      }
  call_handler-Steps n Handler.blocked c some_ g = record { fine_ = fine false g; rest = λ e. cc }

  after_call :
      (m n : ℕ) (r : Progress w)
      → Fine n r
      → (r.0 ≡ ok true → Fine n (recv_rounds w parts m r.1))
      → Fine n (elim r.0 as (λ _. Step w) [
        | err e ↦ raises e r.1
        | ok more ↦ elim more as (λ _. Step w) [
          | true ↦ recv_rounds w parts m r.1
          | false ↦ returns r.1
        ]
      ])
  after_call m n (err e, c) h next = refused e (retype e h.ends) h.room
  after_call m n (ok true, c) h next = next refl
  after_call m n (ok false, c) h next = fine tt h.room

  looser_by : {A : Type 0} (k n : ℕ) (s : Result A × Connection w) → k ≤ n → Fine k s → Fine n s
  looser_by k n s l h = record {
    ends = h.ends;
    room = record { short = omega (arith, h.room.short); block = h.room.block; next = h.room.next };
  }

  -- The bound covers two rounds for each byte, and one for a packet whose header has been read.
  recv_rounds-Fine :
      (m n : ℕ) (c : Connection w)
      → Room n c
      → 1 ≤ m
      → turn c.recv.handler + 2 * n ≤ m
      → Fine n (recv_rounds w parts m c)
  unfolding recv_rounds
  recv_rounds-Fine zero n c g l b = absurd (omega arith)
  recv_rounds-Fine (suc m) n c g l b =
      if_either (λ (s : Step w). Fine n s) (is_empty c.recv.inpbuf) (λ _. fine tt g)
        (λ e.
          let some_ : 1 ≤ n = omega (arith, nonempty c.recv.inpbuf e, g.short) in
          let s = call_handler-Steps n c.recv.handler c some_ g in
          after_call m n (call_handler w parts c.recv.handler c) s.fine_ (λ p.
            let (k, room, less) = s.rest p in
            let r = call_handler w parts c.recv.handler c in
            looser_by k n (recv_rounds w parts m r.1) (omega (arith, turn_le c.recv.handler, less))
              (recv_rounds-Fine m k r.1 room (omega (arith, less, b, some_))
                (omega (arith, less, b)))))

  handle_error-Fine :
      (n : ℕ) (e : Error) (c : Connection w) → Room n c → Fine n (handle_error w parts e c)
  unfolding handle_error
  handle_error-Fine n e c g =
      if_either (λ (s : Step w). Fine n s) (is_disconnect_error e)
        (λ _.
          let (code, reason, lang) = parts.describe e in
          let told = send_disconnect-Fine w n code reason lang c g in
          fine_using (send_disconnect w code reason lang c).0 _ _ told.ends told.room
            (λ u. fine tt (force_close-Room (some e) _ told.room)))
        (λ _. fine tt (force_close-Room (some e) c g))

  rounds_done :
      (n : ℕ) (s : Step w)
      → Fine n s
      → Fine n
          (elim s.0 as (λ _. Step w) [ ok u ↦ returns s.1 | err e ↦ handle_error w parts e s.1 ])
  rounds_done n (ok u, c) h = fine tt h.room
  rounds_done n (err e, c) h = handle_error-Fine n e c h.room

  -- If the other parts end and do not lengthen the buffer, and blocks are not empty, then the bound on the rounds of
  -- recv_data is enough, recv_data ends, and it does not lengthen the buffer.
  pub recv_data_ends :
      (c : Connection w)
      → 1 ≤ c.recv.keys.blocksize
      → (is_some c.next_keys.encryption ≡ true → 1 ≤ c.next_keys.blocksize)
      → ((recv_rounds w parts (suc (2 * length c.recv.inpbuf)) c).0 ≢ err Error.out_of_fuel)
        × ((recv_data w parts c).0 ≢ err Error.out_of_fuel)
        × (length (recv_data w parts c).1.recv.inpbuf ≤ length c.recv.inpbuf)
  unfolding recv_data
  recv_data_ends c block next =
      let n = length c.recv.inpbuf in
      let room : Room n c = record { short = omega arith; block = block; next = next } in
      let rounds =
        recv_rounds-Fine (suc (2 * n)) n c room (omega arith)
          (omega (arith, turn_le c.recv.handler)) in
      let all = rounds_done n (recv_rounds w parts (suc (2 * n)) c) rounds in
      (rounds.ends.apart, all.ends.apart, all.room.short)
