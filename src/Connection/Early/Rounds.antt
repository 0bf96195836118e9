-- ===== src/Connection/Early/Rounds.antt =====
-- A connection keeps to the rule on packets before the end of authentication, whatever it receives.
use asyncssh.Base.{
  ℕ, zero, suc, ◌*◌, ◌≡◌, refl, Bool, true, false, not, ◌&&◌, some, List, [], ◌∷◌, length, ok,
  Error, is_empty,
}
use asyncssh.Packet.{init, get_byte, uint32}
use asyncssh.Connection.Types.{using, ◌then_◌, World, Handler, Target, Connection, is_some}
use asyncssh.Connection.Send.{send_packet, send_disconnect}
use asyncssh.Connection.Receive.{Progress, open_packet}
use asyncssh.Connection.Handlers.{Parts, Processed, process_packet}
use asyncssh.Connection.Dispatch.{
  Route, route, remainder, finish_recv_packet, after_process, dispatch_packet, recv_packet,
  call_handler, recv_rounds, is_disconnect_error, handle_error, recv_data, data_received,
}
use asyncssh.Connection.Guard.{send_disconnect-Held}
use asyncssh.Connection.Rules.{
  keep_using, keep_then, keep_if, keep_answer, keep_result, keep_option, keep_more,
}
use asyncssh.Connection.Early.{
  Early, held, release, early, force_close-Early, route-Admitted, send_packet-Early,
  recv_version-Early, finish_recv_packet-Early,
}
use asyncssh.Connection.Early.Handling.{PartsEarly, process_packet-Early}

-- How a predicate passes through the choice by a Route.
keep_route :
    {w : World} (r : Route) (x y : Progress w) (f : Target → Progress w)
    → Early x.1
    → Early y.1
    → ((target : Target) → r ≡ Route.deliver target → Early (f target).1)
    → Early
        (elim r as (λ _. Progress w) [
          | Route.refuse ↦ x
          | Route.skip ↦ y
          | Route.deliver target ↦ f target
        ]).1
keep_route Route.refuse x y f h k l = h
keep_route Route.skip x y f h k l = k
keep_route (Route.deliver target) x y f h k l = l target refl

module _ (w : World) (parts : Parts w) (k : PartsEarly parts) where
  finish-Early :
      (pkttype seq : ℕ) (c : Connection w)
      → Early c
      → Early (let s = finish_recv_packet w pkttype seq c in using s.0 (λ u c. (ok true, c)) s.1).1
  finish-Early pkttype seq c g =
      keep_answer Early true (finish_recv_packet w pkttype seq c)
        (finish_recv_packet-Early w pkttype seq c g)

  after_process-Early :
      (pkttype seq : ℕ) (result : Processed) (c : Connection w)
      → Early c
      → Early (after_process w parts pkttype seq result c).1
  unfolding after_process
  after_process-Early t seq Processed.done c g = finish-Early t seq c g
  after_process-Early t seq Processed.unknown c g =
      keep_if Early {B = Bool} (c.strict_kex && not (is_some c.recv.keys.encryption)) _ _ (λ _. g)
        (λ _.
          keep_answer Early true
            (using (uint32 seq) (λ number. send_packet w 3 (number ∷ [])) c
              then_ finish_recv_packet w t seq)
            (keep_then Early (using (uint32 seq) (λ number. send_packet w 3 (number ∷ [])) c) _
              (keep_using Early (uint32 seq) _ c g
                (λ number. send_packet-Early w 3 (number ∷ []) c g))
              (finish_recv_packet-Early w t seq)))
  after_process-Early t seq Processed.task c g = early c _ refl refl refl g

  dispatch_packet-Early :
      (seq : ℕ) (payload : List ℕ) (c : Connection w)
      → Early c
      → Early (dispatch_packet w parts seq payload c).1
  unfolding dispatch_packet
  dispatch_packet-Early seq payload c g =
      let head = get_byte (init payload) in
      keep_using Early head.0 _ c g (λ t.
        keep_route (route t head.1 c) _ _ _ g
          (finish-Early t seq _ (early c (record c { ignore_first_kex = false }) refl refl refl g))
          (λ target e.
            let handled =
              process_packet-Early w parts k target t (remainder target head.1) c
                (route-Admitted t head.1 c target e) g in
            keep_result Early (process_packet w parts target t (remainder target head.1) c).0 _ _
              (λ x _. handled) (λ result _. after_process-Early t seq result _ handled)))

  recv_packet-Early : (c : Connection w) → Early c → Early (recv_packet w parts c).1
  unfolding recv_packet
  recv_packet-Early c g =
      keep_option Early (open_packet w c.auth_complete c.recv) _ _ g (λ opened _.
        let d = record c { recv = opened.1 } in
        let h = early c d refl refl refl g in
        keep_using Early opened.0 _ d h (λ payload. dispatch_packet-Early c.recv.seq payload d h))

  call_handler-Early :
      (h : Handler) (c : Connection w) → Early c → Early (call_handler w parts h c).1
  unfolding call_handler
  call_handler-Early Handler.version c g = recv_version-Early w c g
  call_handler-Early Handler.pkthdr c g = early c _ refl refl refl g
  call_handler-Early Handler.packet c g = recv_packet-Early c g
  call_handler-Early Handler.blocked c g = g

  recv_rounds-Early : (n : ℕ) (c : Connection w) → Early c → Early (recv_rounds w parts n c).1
  unfolding recv_rounds
  recv_rounds-Early zero c g = g
  recv_rounds-Early (suc n) c g =
      let h = call_handler-Early c.recv.handler c g in
      keep_if Early {B = Unit {0}} (is_empty c.recv.inpbuf) _ _ (λ _. g)
        (λ _.
          keep_result Early (call_handler w parts c.recv.handler c).0 _ _ (λ e _. h)
            (λ more _. keep_more Early more _ _ (recv_rounds-Early n _ h) h))

  handle_error-Early : (e : Error) (c : Connection w) → Early c → Early (handle_error w parts e c).1
  unfolding handle_error
  handle_error-Early e c g =
      let (code, reason, lang) = parts.describe e in
      keep_if Early {B = Unit {0}} (is_disconnect_error e) _ _
        (λ _.
          keep_then Early (send_disconnect w code reason lang c) _
            (release _ (send_disconnect-Held w c.auth_complete code reason lang c (held c g)))
            (λ c g. force_close-Early (some e) c g))
        (λ _. force_close-Early (some e) c g)

  pub recv_data-Early : (c : Connection w) → Early c → Early (recv_data w parts c).1
  unfolding recv_data
  recv_data-Early c g =
      let h = recv_rounds-Early (suc (2 * length c.recv.inpbuf)) c g in
      keep_result Early (recv_rounds w parts (suc (2 * length c.recv.inpbuf)) c).0 _ _
        (λ e _. handle_error-Early e _ h) (λ u _. h)

  -- Between calls of `data_received`, if the parts that the connection calls keep to it, a connection whose
  -- authentication is not complete has sent no packet of a type above 79 and handed none to a handler, whatever
  -- bytes arrive; also when the call raises.
  pub data_received-Early :
      (bytes : List ℕ) (c : Connection w) → Early c → Early (data_received w parts bytes c).1
  unfolding data_received
  data_received-Early bytes c g = recv_data-Early _ (early c _ refl refl refl g)
