-- ===== src/Connection/Turns.antt =====
-- A packet that was received is processed, and then comes a header.
use asyncssh.Base.{
  ℕ, ◌≤◌, ◌≡◌, refl, arith, Bool, true, false, not, ◌&&◌, Option, none, some, List, [], ◌∷◌, length,
  ltb, ◌==◌, is_empty, if◌then◌else◌, if_either, Result, ok, err, Error,
}
use asyncssh.Packet.{init, get_byte, uint32}
use asyncssh.Connection.Types.{
  World, Handler, Target, Receiving, Connection, Step, using, ◌then_◌, is_some,
}
use asyncssh.Connection.Send.{max_seq, send_packet}
use asyncssh.Connection.Receive.{Progress, open_packet}
use asyncssh.Connection.Handlers.{Parts, Processed, Outcome, process_packet}
use asyncssh.Connection.Dispatch.{
  Route, route, remainder, decode_error_to_protocol, finish_recv_packet, after_process,
  dispatch_packet, recv_packet,
}
use asyncssh.Connection.Ends.{Ends, raised, retype, uint32-Ends}
use asyncssh.Connection.Room.{Room, as_before, Fine, fine, fine_using, send_packet-Fine}
use asyncssh.Connection.Reading.{refused}
use asyncssh.Connection.Readers.{get_byte-Reader}
use asyncssh.Connection.Replies.{Steady, process_packet-Fine}
use asyncssh.Connection.PacketRoom.{MaybeRoom, opened-Room}

-- 1 for a packet whose header has been read, which may take nothing more out of the buffer
unfoldable pub turn : Handler → ℕ
turn Handler.packet = 1
turn h = 0

pub turn_le : (h : Handler) → turn h ≤ 1
unfolding turn
turn_le Handler.version = omega arith
turn_le Handler.pkthdr = omega arith
turn_le Handler.packet = omega arith
turn_le Handler.blocked = omega arith

pub nonempty : (bytes : List ℕ) → is_empty bytes ≡ false → 1 ≤ length bytes
nonempty [] h = cc
nonempty (b ∷ bs) h = omega arith

-- A call that does not exceed a bound, and that has done with its packet if it made progress.
pub record Turns {w : World} (n : ℕ) (s : Progress w) : Type 0 where
  pub fine_ : Fine n s
  pub turned : s.0 ≡ ok true → turn s.1.recv.handler ≡ 0

stops :
    {w : World} {n : ℕ} (e : Error) {c : Connection w}
    → Ends {A = Bool} (err e)
    → Room n c
    → Turns n (err e, c)
stops e h g = record { fine_ = refused e h g; turned = λ p. cc }

waits : {w : World} {n : ℕ} {c : Connection w} → Room n c → Turns n (ok false, c)
waits g = record { fine_ = fine false g; turned = λ p. cc }

module _ {w : World} {n : ℕ} where
  result_step :
      {A : Type 0} (r : Result A) (f : A → Connection w → Progress w) (c : Connection w)
      → Ends r
      → Room n c
      → ((a : A) → Turns n (f a c))
      → Turns n (using r f c)
  result_step (ok a) f c h g k = k a
  result_step (err e) f c h g k = stops e (retype e h) g

  route_step :
      (r : Route) (x y : Progress w) (z : Target → Progress w)
      → Turns n x
      → Turns n y
      → ((t : Target) → Turns n (z t))
      → Turns n (elim r as (λ _. Progress w) [
        | Route.refuse ↦ x
        | Route.skip ↦ y
        | Route.deliver t ↦ z t
      ])
  route_step Route.refuse x y z a b k = a
  route_step Route.skip x y z a b k = b
  route_step (Route.deliver t) x y z a b k = k t

  packet_step :
      (c : Connection w) (o : Option (Result (List ℕ) × Receiving w))
      (f : List ℕ → Connection w → Progress w)
      → MaybeRoom w n c o
      → Room n c
      → ((payload : List ℕ) (d : Connection w) → Room n d → Turns n (f payload d))
      → Turns n (elim o as (λ _. Progress w) [
        | none ↦ (ok false, c)
        | some opened ↦ using opened.0 f (record c { recv = opened.1 })
      ])
  packet_step c none f h g k = waits g
  packet_step c (some s) f (e, room) g k =
      result_step s.0 f (record c { recv = s.1 }) e room (λ payload. k payload _ room)

decode_error-Ends :
    {A : Type 0} (e : Error)
    → Ends {A = A} (err e)
    → Ends {A = A} (err (decode_error_to_protocol e))
decode_error-Ends Error.packet_decode_error h = raised Error.protocol_error refl
decode_error-Ends e h = h

module _ (w : World) (parts : Parts w) (steady : Steady parts) where
  -- `True` after a call.
  abbrev answered : Step w → Progress w
  answered s = using s.0 (λ u c. (ok true, c)) s.1

  finish-Turns :
      (n t seq : ℕ) (c : Connection w)
      → Room n c
      → Turns n (answered (finish_recv_packet w t seq c))
  unfolding finish_recv_packet turn
  finish-Turns n t seq c g =
      let d = if ltb 79 t then record c { auth_final = true } else c in
      let final : Room n d =
        if_either (Room n) (ltb 79 t) (λ _. as_before _ refl refl g) (λ _. g) in
      if_either (λ (s : Step w). Turns n (answered s))
        (d.has_transport && d.recv.seq == max_seq && not (is_some d.recv.keys.encryption))
        (λ _. stops Error.protocol_error (raised Error.protocol_error refl) final)
        (λ _. record {
          fine_ =
              fine true (record { short = final.short; block = final.block; next = final.next });
          turned = λ e. refl;
        })

  then_finish :
      (n t seq : ℕ) (s : Step w)
      → Fine n s
      → Turns n (answered (s then_ finish_recv_packet w t seq))
  then_finish n t seq (ok u, c) h = finish-Turns n t seq c h.room
  then_finish n t seq (err e, c) h = stops e (retype e h.ends) h.room

  after_process-Turns :
      (n t seq : ℕ) (p : Processed) (c : Connection w)
      → Room n c
      → Turns n (after_process w parts t seq p c)
  unfolding after_process turn
  after_process-Turns n t seq Processed.done c g = finish-Turns n t seq c g
  after_process-Turns n t seq Processed.unknown c g =
      if_either (λ (s : Progress w). Turns n s)
        (c.strict_kex && not (is_some c.recv.keys.encryption))
        (λ _. stops Error.protocol_error (raised Error.protocol_error refl) g)
        (λ _. then_finish n t seq (using (uint32 seq) (λ number. send_packet w 3 (number ∷ [])) c) (
          fine_using (uint32 seq) (λ number. send_packet w 3 (number ∷ [])) c (uint32-Ends seq) g
            (λ number. send_packet-Fine w n 3 (number ∷ []) c g)))
  after_process-Turns n t seq Processed.task c g =
      waits (record { short = g.short; block = g.block; next = g.next })

  handled :
      (n t seq : ℕ) (r : Outcome w)
      → Fine n r
      → Turns n (elim r.0 as (λ _. Progress w) [
        | err e ↦ (err (decode_error_to_protocol e), r.1)
        | ok result ↦ after_process w parts t seq result r.1
      ])
  handled n t seq (err e, c) h = stops _ (decode_error-Ends e (retype e h.ends)) h.room
  handled n t seq (ok result, c) h = after_process-Turns n t seq result c h.room

  dispatch_packet-Turns :
      (n seq : ℕ) (payload : List ℕ) (c : Connection w)
      → Room n c
      → Turns n (dispatch_packet w parts seq payload c)
  unfolding dispatch_packet
  dispatch_packet-Turns n seq payload c g =
      let head = get_byte (init payload) in
      result_step head.0 _ c (get_byte-Reader (init payload)) g (λ t.
        route_step (route t head.1 c) _ _ _
          (stops Error.protocol_error (raised Error.protocol_error refl) g)
          (finish-Turns n t seq (record c { ignore_first_kex = false }) (as_before _ refl refl g))
          (λ target.
            handled n t seq (process_packet w parts target t (remainder target head.1) c)
              (process_packet-Fine w parts steady n target t (remainder target head.1) c g)))

  pub recv_packet-Turns : (n : ℕ) (c : Connection w) → Room n c → Turns n (recv_packet w parts c)
  unfolding recv_packet
  recv_packet-Turns n c g =
      packet_step c (open_packet w c.auth_complete c.recv) (dispatch_packet w parts c.recv.seq)
        (opened-Room w n c g) g (λ payload d k. dispatch_packet-Turns n c.recv.seq payload d k)
