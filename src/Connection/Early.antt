-- ===== src/Connection/Early.antt =====
-- What a connection sends and processes while authentication is not complete.
use asyncssh.Base.{
  ℕ, zero, suc, ◌*◌, ◌≤◌, ◌≡◌, refl, ◌∙◌, arith, Bool, true, false, not, ◌&&◌, ◌||◌, some, none,
  List, [], ◌∷◌, ◌++◌, length, All, All-append, ◌==◌, Result, ok, err, Error, Option, ltb, leb,
  take, drop, if◌then◌else◌, ◌%◌, ◌^◌, ◌+◌, bytes_eq, is_empty, sym,
}
use asyncssh.Packet.{SshPacket, and_then, get_uint32, init, get_byte, uint32, string, check_end}
use asyncssh.Connection.Types.{
  using, World, Handler, Target, Connection, Receiving, Keys, Step, returns, is_some, Wait,
}
use asyncssh.Connection.Send.{
  max_seq, ssh2, send_packet, send_disconnect, send_kexinit, send_deferred_packets,
}
use asyncssh.Connection.Keys.{process_newkeys, userauth_service}
use asyncssh.Connection.Receive.{
  Progress, force_close, is_ascii, find_line, strip_cr, starts_with, ssh, ssh199, accept_version,
  recv_version, recv_pkthdr, open_packet,
}
use asyncssh.Connection.Handlers.{
  Parts, Processed, Outcome, process_packet, process_self, process_disconnect, process_ignore,
  process_unimplemented, process_debug, process_service_request, process_service_accept,
  process_ext_info, contains, cisco, disconnect_fields, debug_fields, service_field,
  ext_info_fields, is_nothing, is_next, ended, finished,
}
use asyncssh.Connection.Dispatch.{
  Route, route, remainder, finish_recv_packet, after_process, dispatch_packet, recv_packet,
  call_handler, recv_rounds, is_disconnect_error, handle_error, recv_data, data_received,
}
use asyncssh.Connection.Guard.{
  Held, same, send_packet-Held, send_kexinit-Held, send_deferred_packets-Held, send_disconnect-Held,
}
use asyncssh.Connection.Rules.{
  keep_using, keep_then, keep_if, keep_if_state, keep_answer, keep_result, keep_option,
}
mod Handling
mod Rounds
mod Calling
mod Runs

module _ {w : World} where
  -- While `_auth_complete` is False, no type above MSG_USERAUTH_LAST has been sent or processed.
  pub record Early (c : Connection w) : Type 0 where
    pub quiet : c.auth_complete ≡ false → All (λ t. t ≤ 79) c.sent
    pub heard : c.auth_complete ≡ false → All (λ d. d.1 ≤ 79) c.delivered

  pub held : (c : Connection w) → Early c → Held c.auth_complete c
  held c g = record { complete = refl; quiet = g.quiet; heard = g.heard }

  pub release : {b : Bool} (c : Connection w) → Held b c → Early c
  release c g = record {
    quiet = λ e. g.quiet (sym g.complete ∙ e);
    heard = λ e. g.heard (sym g.complete ∙ e);
  }

  pub early :
      (c d : Connection w)
      → d.auth_complete ≡ c.auth_complete
      → d.sent ≡ c.sent
      → d.delivered ≡ c.delivered
      → Early c
      → Early d
  early c d a s l g = release d (same d a s l (held c g))

  pub force_close-Early : (e : Option Error) (c : Connection w) → Early c → Early (force_close e c)
  unfolding force_close
  force_close-Early e c g =
      keep_if_state Early c.has_transport _ _ (λ _. early c _ refl refl refl g) (λ _. g)

  pub route-Admitted :
      (pkttype : ℕ) (p : SshPacket) (c : Connection w) (target : Target)
      → route pkttype p c ≡ Route.deliver target
      → c.auth_complete ≡ false
      → pkttype ≤ 79
  unfolding route
  route-Admitted pkttype p c target h a = ground arith

module _ (w : World) where
  pub send_packet-Early :
      (pkttype : ℕ) (args : List (List ℕ)) (c : Connection w)
      → Early c
      → Early (send_packet w pkttype args c).1
  send_packet-Early pkttype args c g =
      release _ (send_packet-Held w c.auth_complete pkttype args c (held c g))

  pub deferred-Early : (c : Connection w) → Early c → Early (send_deferred_packets w c).1
  deferred-Early c g = release _ (send_deferred_packets-Held w c.auth_complete c (held c g))

  accept_version-Early :
      (version : List ℕ) (c : Connection w) → Early c → Early (accept_version w version c).1
  unfolding accept_version
  accept_version-Early version c g =
      let closed =
        keep_if_state Early (ltb 255 (length version)) _ _
          (λ _. force_close-Early (some Error.protocol_error) c g) (λ _. g) in
      let named =
        keep_if_state Early c.is_server _ _ (λ _. early _ _ refl refl refl closed)
          (λ _. early _ _ refl refl refl closed) in
      keep_if Early (is_ascii version) _ _
        (λ _.
          let sent = release _ (send_kexinit-Held w _ _ (held _ named)) in
          keep_using Early (send_kexinit w _).0 _ _ sent (λ u. early _ _ refl refl refl sent))
        (λ _. named)

  pub recv_version-Early : (c : Connection w) → Early c → Early (recv_version w c).1
  unfolding recv_version
  recv_version-Early c g =
      keep_option Early (find_line (take 8192 c.recv.inpbuf)) _ _
        (keep_if_state Early (leb 8192 (length c.recv.inpbuf)) _ _
          (λ _. force_close-Early (some Error.protocol_error) c g) (λ _. g))
        (λ line _.
          let r = c.recv in
          let d = record c { recv = record r { inpbuf = drop (suc (length line)) r.inpbuf } } in
          let rest = early c d refl refl refl g in
          let e = record d { banner_lines = suc d.banner_lines } in
          let counted = early c e refl refl refl g in
          keep_if Early {B = Bool}
            (starts_with ssh2 (strip_cr line)
              || not c.is_server && starts_with ssh199 (strip_cr line))
            _ _ (λ _. accept_version-Early (strip_cr line) d rest)
            (λ _.
              keep_if Early {B = Bool} (not c.is_server && not (starts_with ssh (strip_cr line))) _
                _
                (λ _.
                  keep_if Early {B = Bool} (ltb 1024 e.banner_lines) _ _
                    (λ _. force_close-Early (some Error.protocol_error) e counted) (λ _. counted))
                (λ _. force_close-Early (some Error.disconnect_error) d rest)))

  pub finish_recv_packet-Early :
      (pkttype seq : ℕ) (c : Connection w) → Early c → Early (finish_recv_packet w pkttype seq c).1
  unfolding finish_recv_packet
  finish_recv_packet-Early pkttype seq c g =
      let d = record c { auth_final = true } in
      let final =
        keep_if_state Early (ltb 79 pkttype) d c (λ _. early c d refl refl refl g) (λ _. g) in
      let e = if ltb 79 pkttype then d else c in
      keep_if Early {B = Unit {0}}
        (e.has_transport && e.recv.seq == max_seq && not (is_some e.recv.keys.encryption)) _ _
        (λ _. final) (λ _. early e _ refl refl refl final)
