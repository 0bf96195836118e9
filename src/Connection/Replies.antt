-- ===== src/Connection/Replies.antt =====
-- The handlers of a connection end and leave room.
use asyncssh.Base.{ℕ, refl, not, ◌&&◌, ◌||◌, [], ◌∷◌, ◌==◌, bytes_eq, if_either, err, Error}
use asyncssh.Packet.{SshPacket, and_then, check_end, get_uint32, string}
use asyncssh.Connection.Types.{World, Target, Connection, Step, using, is_some}
use asyncssh.Connection.Send.{send_packet}
use asyncssh.Connection.Keys.{process_newkeys, userauth_service}
use asyncssh.Connection.Receive.{is_ascii}
use asyncssh.Connection.Handlers.{
  Parts, Processed, Outcome, contains, ended, disconnect_fields, debug_fields, service_field,
  ext_info_fields, cisco, is_next, process_disconnect, process_ignore, process_unimplemented,
  process_debug, process_service_request, process_service_accept, process_ext_info, finished,
  process_self, process_packet,
}
use asyncssh.Connection.Ends.{raised, string-Ends}
use asyncssh.Connection.Room.{
  Room, as_before, Fine, fine, fine_using, send_packet-Fine, send_deferred_packets-Fine,
}
use asyncssh.Connection.Reading.{refused, force_close-Room}
use asyncssh.Connection.Readers.{
  read_then, get_uint32-Reader, check_end-Reader, ended-Reader, disconnect_fields-Reader,
  debug_fields-Reader, service_field-Reader, ext_info_fields-Reader,
}

-- The parts that stand elsewhere end, and leave what was received and the block sizes alone, or shorter.
pub record Steady {w : World} (parts : Parts w) : Type 0 where
  pub kex :
      (n t : ℕ) (p : SshPacket) (c : Connection w) → Room n c → Fine n (parts.process_kex t p c)
  pub auth :
      (n t : ℕ) (p : SshPacket) (c : Connection w) → Room n c → Fine n (parts.process_auth t p c)
  pub channel :
      (n k t : ℕ) (p : SshPacket) (c : Connection w)
      → Room n c
      → Fine n (parts.process_channel k t p c)
  pub other :
      (n t : ℕ) (p : SshPacket) (c : Connection w) → Room n c → Fine n (parts.process_other t p c)
  pub try_next : (n : ℕ) (c : Connection w) → Room n c → Fine n (parts.try_next_auth c)

module _ (w : World) (parts : Parts w) (steady : Steady parts) (n : ℕ) where
  protocol :
      {A : Type 0} {c : Connection w} → Room n c → Fine {A = A} n (err Error.protocol_error, c)
  protocol g = refused Error.protocol_error (raised Error.protocol_error refl) g

  process_disconnect-Fine :
      (p : SshPacket) (c : Connection w) → Room n c → Fine n (process_disconnect w parts p c)
  unfolding process_disconnect
  process_disconnect-Fine p c g =
      fine_using (disconnect_fields p).0 _ c (disconnect_fields-Reader p) g (λ (code, reason, lang).
        if_either (λ (s : Step w). Fine n s) (parts.is_utf8 reason && is_ascii lang)
          (λ _. fine tt (force_close-Room _ c g)) (λ _. protocol g))

  process_ignore-Fine :
      (p : SshPacket) (c : Connection w) → Room n c → Fine n (process_ignore w parts p c)
  unfolding process_ignore
  process_ignore-Fine p c g =
      if_either (λ (s : Step w). Fine n s) (contains cisco c.server_version) (λ _. fine tt g)
        (λ _. fine_using (service_field p).0 _ c (service_field-Reader p) g (λ d. fine tt g))

  process_unimplemented-Fine :
      (p : SshPacket) (c : Connection w) → Room n c → Fine n (process_unimplemented w parts p c)
  unfolding process_unimplemented
  process_unimplemented-Fine p c g =
      fine_using (and_then get_uint32 ended p).0 _ c
        (read_then get_uint32 ended get_uint32-Reader (λ s. ended-Reader s) p) g (λ seq. fine tt g)

  process_debug-Fine :
      (p : SshPacket) (c : Connection w) → Room n c → Fine n (process_debug w parts p c)
  unfolding process_debug
  process_debug-Fine p c g =
      fine_using (debug_fields p).0 _ c (debug_fields-Reader p) g (λ (always, msg, lang).
        if_either (λ (s : Step w). Fine n s) (parts.is_utf8 msg && is_ascii lang) (λ _. fine tt g)
          (λ _. protocol g))

  refuse_service :
      {c : Connection w} → Room n c → Fine {A = Unit {0}} n (err Error.disconnect_error, c)
  refuse_service g = refused Error.disconnect_error (raised Error.disconnect_error refl) g

  process_service_request-Fine :
      (p : SshPacket) (c : Connection w) → Room n c → Fine n (process_service_request w parts p c)
  unfolding process_service_request
  process_service_request-Fine p c g =
      fine_using (service_field p).0 _ c (service_field-Reader p) g (λ service.
        if_either (λ (s : Step w). Fine n s)
          (not c.is_server || not (is_some c.recv.keys.encryption)) (λ _. protocol g)
          (λ _.
            if_either (λ (s : Step w). Fine n s) (not (is_next service c.next_service))
              (λ _. refuse_service g)
              (λ _.
                let told =
                  fine_using (string service) (λ name. send_packet w 6 (name ∷ [])) c
                    (string-Ends service) g (λ name. send_packet-Fine w n 6 (name ∷ []) c g) in
                fine_using (using (string service) (λ name. send_packet w 6 (name ∷ [])) c).0 _ _
                  told.ends told.room
                  (λ u.
                    if_either (λ (s : Step w). Fine n s) (bytes_eq service userauth_service)
                      (λ _. send_deferred_packets-Fine w n _ (as_before _ refl refl told.room))
                      (λ _. fine tt (as_before _ refl refl told.room))))))

  process_service_accept-Fine :
      (p : SshPacket) (c : Connection w) → Room n c → Fine n (process_service_accept w parts p c)
  unfolding process_service_accept
  process_service_accept-Fine p c g =
      fine_using (service_field p).0 _ c (service_field-Reader p) g (λ service.
        if_either (λ (s : Step w). Fine n s) (c.is_server || not (is_some c.recv.keys.encryption))
          (λ _. protocol g)
          (λ _.
            if_either (λ (s : Step w). Fine n s) (not (is_next service c.next_service))
              (λ _. refuse_service g)
              (λ _.
                if_either (λ (s : Step w). Fine n s) (bytes_eq service userauth_service)
                  (λ _. steady.try_next n _ (as_before _ refl refl g))
                  (λ _. fine tt (as_before _ refl refl g)))))

  process_ext_info-Fine :
      (p : SshPacket) (c : Connection w) → Room n c → Fine n (process_ext_info w parts p c)
  unfolding process_ext_info
  process_ext_info-Fine p c g =
      if_either (λ (s : Step w). Fine n s) c.can_recv_ext_info
        (λ _. fine_using (ext_info_fields p).0 _ c (ext_info_fields-Reader p) g (λ e. fine tt g))
        (λ _. protocol g)

  process_newkeys-Fine :
      (p : SshPacket) (c : Connection w) → Room n c → Fine n (process_newkeys w p c)
  unfolding process_newkeys
  process_newkeys-Fine p c g = fine_using (check_end p).0 _ c (check_end-Reader p) g (λ u.
      if_either (λ (s : Step w). Fine n s) (is_some c.next_keys.encryption)
        (λ has. fine tt (record { short = g.short; block = g.next has; next = λ e. cc }))
        (λ _. protocol g))

  finished-Fine : (s : Step w) → Fine n s → Fine n (finished w parts s)
  finished-Fine s h = fine_using s.0 _ s.1 h.ends h.room (λ u. fine Processed.done h.room)

  process_self-Fine :
      (t : ℕ) (p : SshPacket) (c : Connection w) → Room n c → Fine n (process_self w parts t p c)
  unfolding process_self
  process_self-Fine t p c g =
      let P = λ (s : Outcome w). Fine n s in
      if_either P (t == 1) (λ _. finished-Fine _ (process_disconnect-Fine p c g))
        (λ _.
          if_either P (t == 2) (λ _. finished-Fine _ (process_ignore-Fine p c g))
            (λ _.
              if_either P (t == 3) (λ _. finished-Fine _ (process_unimplemented-Fine p c g))
                (λ _.
                  if_either P (t == 4) (λ _. finished-Fine _ (process_debug-Fine p c g))
                    (λ _.
                      if_either P (t == 5)
                        (λ _. finished-Fine _ (process_service_request-Fine p c g))
                        (λ _.
                          if_either P (t == 6)
                            (λ _. finished-Fine _ (process_service_accept-Fine p c g))
                            (λ _.
                              if_either P (t == 7)
                                (λ _. finished-Fine _ (process_ext_info-Fine p c g))
                                (λ _.
                                  if_either P (t == 20) (λ _. fine Processed.task g)
                                    (λ _.
                                      if_either P (t == 21)
                                        (λ _. finished-Fine _ (process_newkeys-Fine p c g))
                                        (λ _. steady.other n t p c g)))))))))

  pub process_packet-Fine :
      (target : Target) (t : ℕ) (p : SshPacket) (c : Connection w)
      → Room n c
      → Fine n (process_packet w parts target t p c)
  unfolding process_packet
  process_packet-Fine Target.self t p c g = process_self-Fine t p _ (as_before _ refl refl g)
  process_packet-Fine Target.kex t p c g = steady.kex n t p _ (as_before _ refl refl g)
  process_packet-Fine Target.auth t p c g = steady.auth n t p _ (as_before _ refl refl g)
  process_packet-Fine (Target.channel k) t p c g =
      steady.channel n k t p _ (as_before _ refl refl g)
