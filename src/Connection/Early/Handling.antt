-- ===== src/Connection/Early/Handling.antt =====
-- The handlers keep to the rule on packets before the end of authentication.
use asyncssh.Base.{
  ℕ, ◌≤◌, ◌≡◌, refl, true, false, not, ◌&&◌, ◌||◌, none, [], ◌∷◌, ◌++◌, All-append, ◌==◌, bytes_eq,
}
use asyncssh.Packet.{SshPacket, and_then, get_uint32, string, check_end}
use asyncssh.Connection.Types.{using, World, Target, Connection, Step, is_some}
use asyncssh.Connection.Send.{send_packet}
use asyncssh.Connection.Keys.{process_newkeys, userauth_service}
use asyncssh.Connection.Receive.{is_ascii}
use asyncssh.Connection.Handlers.{
  Parts, Processed, process_packet, process_self, process_disconnect, process_ignore,
  process_unimplemented, process_debug, process_service_request, process_service_accept,
  process_ext_info, contains, cisco, disconnect_fields, debug_fields, service_field,
  ext_info_fields, is_next, ended, finished,
}
use asyncssh.Connection.Rules.{keep_using, keep_then, keep_if, keep_answer}
use asyncssh.Connection.Early.{Early, early, force_close-Early, send_packet-Early, deferred-Early}

module _ (w : World) (parts : Parts w) where
  process_disconnect-Early :
      (p : SshPacket) (c : Connection w) → Early c → Early (process_disconnect w parts p c).1
  unfolding process_disconnect
  process_disconnect-Early p c g =
      keep_using Early (disconnect_fields p).0 _ c g (λ (code, reason, lang).
        keep_if Early {B = Unit {0}} (parts.is_utf8 reason && is_ascii lang) _ _
          (λ _. force_close-Early _ c g) (λ _. g))

  process_ignore-Early :
      (p : SshPacket) (c : Connection w) → Early c → Early (process_ignore w parts p c).1
  unfolding process_ignore
  process_ignore-Early p c g =
      keep_if Early {B = Unit {0}} (contains cisco c.server_version) _ _ (λ _. g)
        (λ _. keep_using Early (service_field p).0 _ c g (λ d. g))

  process_unimplemented-Early :
      (p : SshPacket) (c : Connection w) → Early c → Early (process_unimplemented w parts p c).1
  unfolding process_unimplemented
  process_unimplemented-Early p c g =
      keep_using Early (and_then get_uint32 ended p).0 _ c g (λ seq. g)

  process_debug-Early :
      (p : SshPacket) (c : Connection w) → Early c → Early (process_debug w parts p c).1
  unfolding process_debug
  process_debug-Early p c g = keep_using Early (debug_fields p).0 _ c g (λ (always, msg, lang).
      keep_if Early {B = Unit {0}} (parts.is_utf8 msg && is_ascii lang) _ _ (λ _. g) (λ _. g))

  process_service_request-Early :
      (p : SshPacket) (c : Connection w) → Early c → Early (process_service_request w parts p c).1
  unfolding process_service_request
  process_service_request-Early p c g = keep_using Early (service_field p).0 _ c g (λ service.
      keep_if Early {B = Unit {0}} (not c.is_server || not (is_some c.recv.keys.encryption)) _ _
        (λ _. g)
        (λ _.
          keep_if Early {B = Unit {0}} (not (is_next service c.next_service)) _ _ (λ _. g)
            (λ _.
              keep_then Early (using (string service) (λ name. send_packet w 6 (name ∷ [])) c) _
                (keep_using Early (string service) _ c g
                  (λ name. send_packet-Early w 6 (name ∷ []) c g))
                (λ c g.
                  let d = record c { next_service = none } in
                  let e = record d { auth_in_progress = true; can_recv_ext_info = false } in
                  keep_if Early {B = Unit {0}} (bytes_eq service userauth_service) _ _
                    (λ _. deferred-Early w e (early c e refl refl refl g))
                    (λ _. early c d refl refl refl g)))))

  process_ext_info-Early :
      (p : SshPacket) (c : Connection w) → Early c → Early (process_ext_info w parts p c).1
  unfolding process_ext_info
  process_ext_info-Early p c g =
      keep_if Early {B = Unit {0}} c.can_recv_ext_info _ _
        (λ _. keep_using Early (ext_info_fields p).0 _ c g (λ extensions. g)) (λ _. g)

  process_newkeys-Early :
      (p : SshPacket) (c : Connection w) → Early c → Early (process_newkeys w p c).1
  unfolding process_newkeys
  process_newkeys-Early p c g = keep_using Early (check_end p).0 _ c g (λ u.
      keep_if Early {B = Unit {0}} (is_some c.next_keys.encryption) _ _
        (λ _. early c _ refl refl refl g) (λ _. g))

-- What a connection relies on: the parts that it calls keep to the rule as well.
pub record PartsEarly {w : World} (parts : Parts w) : Type 0 where
  pub kex : (t : ℕ) (p : SshPacket) (c : Connection w) → Early c → Early (parts.process_kex t p c).1
  pub auth :
      (t : ℕ) (p : SshPacket) (c : Connection w) → Early c → Early (parts.process_auth t p c).1
  pub channel :
      (n t : ℕ) (p : SshPacket) (c : Connection w)
      → Early c
      → Early (parts.process_channel n t p c).1
  pub other :
      (t : ℕ) (p : SshPacket) (c : Connection w) → Early c → Early (parts.process_other t p c).1
  pub next_auth : (c : Connection w) → Early c → Early (parts.try_next_auth c).1

module _ (w : World) (parts : Parts w) (k : PartsEarly parts) where
  process_service_accept-Early :
      (p : SshPacket) (c : Connection w) → Early c → Early (process_service_accept w parts p c).1
  unfolding process_service_accept
  process_service_accept-Early p c g = keep_using Early (service_field p).0 _ c g (λ service.
      keep_if Early {B = Unit {0}} (c.is_server || not (is_some c.recv.keys.encryption)) _ _
        (λ _. g)
        (λ _.
          keep_if Early {B = Unit {0}} (not (is_next service c.next_service)) _ _ (λ _. g)
            (λ _.
              let d = record c { next_service = none } in
              keep_if Early {B = Unit {0}} (bytes_eq service userauth_service) _ _
                (λ _.
                  let e = record d { auth_in_progress = true } in
                  k.next_auth e (early c e refl refl refl g))
                (λ _. early c d refl refl refl g))))

  finished-Early : (s : Step w) → Early s.1 → Early (finished w parts s).1
  finished-Early s g = keep_answer Early Processed.done s g

  process_self-Early :
      (pkttype : ℕ) (p : SshPacket) (c : Connection w)
      → Early c
      → Early (process_self w parts pkttype p c).1
  unfolding process_self
  process_self-Early t p c g =
      let own = λ (s : Step w) (h : Early s.1). finished-Early s h in
      keep_if Early {B = Processed} (t == 1) _ _
        (λ _. own (process_disconnect w parts p c) (process_disconnect-Early w parts p c g))
        (λ _.
          keep_if Early {B = Processed} (t == 2) _ _
            (λ _. own (process_ignore w parts p c) (process_ignore-Early w parts p c g))
            (λ _.
              keep_if Early {B = Processed} (t == 3) _ _
                (λ _.
                  own (process_unimplemented w parts p c)
                    (process_unimplemented-Early w parts p c g))
                (λ _.
                  keep_if Early {B = Processed} (t == 4) _ _
                    (λ _. own (process_debug w parts p c) (process_debug-Early w parts p c g))
                    (λ _.
                      keep_if Early {B = Processed} (t == 5) _ _
                        (λ _.
                          own (process_service_request w parts p c)
                            (process_service_request-Early w parts p c g))
                        (λ _.
                          keep_if Early {B = Processed} (t == 6) _ _
                            (λ _.
                              own (process_service_accept w parts p c)
                                (process_service_accept-Early p c g))
                            (λ _.
                              keep_if Early {B = Processed} (t == 7) _ _
                                (λ _.
                                  own (process_ext_info w parts p c)
                                    (process_ext_info-Early w parts p c g))
                                (λ _.
                                  keep_if Early {B = Processed} (t == 20) _ _ (λ _. g)
                                    (λ _.
                                      keep_if Early {B = Processed} (t == 21) _ _
                                        (λ _.
                                          own (process_newkeys w p c)
                                            (process_newkeys-Early w parts p c g))
                                        (λ _. k.other t p c g)))))))))

  logged :
      (target : Target) (pkttype : ℕ) (c : Connection w)
      → (c.auth_complete ≡ false → pkttype ≤ 79)
      → Early c
      → Early (record c { delivered = c.delivered ++ (target, pkttype) ∷ [] })
  logged target pkttype c low g = record {
    quiet = g.quiet;
    heard = λ e.
        All-append (λ d. d.1 ≤ 79) c.delivered ((target, pkttype) ∷ []) (g.heard e) (low e, tt);
  }

  pub process_packet-Early :
      (target : Target) (pkttype : ℕ) (p : SshPacket) (c : Connection w)
      → (c.auth_complete ≡ false → pkttype ≤ 79)
      → Early c
      → Early (process_packet w parts target pkttype p c).1
  unfolding process_packet
  process_packet-Early Target.self t p c low g =
      process_self-Early t p _ (logged Target.self t c low g)
  process_packet-Early Target.kex t p c low g = k.kex t p _ (logged Target.kex t c low g)
  process_packet-Early Target.auth t p c low g = k.auth t p _ (logged Target.auth t c low g)
  process_packet-Early (Target.channel n) t p c low g =
      k.channel n t p _ (logged (Target.channel n) t c low g)
