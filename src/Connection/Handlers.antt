-- ===== src/Connection/Handlers.antt =====
-- The handlers of a connection's own packets: `_process_disconnect` and its like.
use asyncssh.Base.{
  ℕ, zero, suc, Bool, true, false, not, ◌&&◌, ◌||◌, Option, none, some, List, [], ◌∷◌, ◌++◌, ◌==◌,
  if◌then◌else◌, bytes_eq, is_empty, Result, ok, Error,
}
use asyncssh.Packet.{
  SshPacket, Decoder, and_then, check_end, get_boolean, get_string, get_uint32, string,
}
use asyncssh.Connection.Types.{
  World, Target, Connection, Wait, Step, returns, raises, using, ◌then_◌, is_some,
}
use asyncssh.Connection.Send.{send_packet, send_deferred_packets}
use asyncssh.Connection.Keys.{process_newkeys, userauth_service, set_item}
use asyncssh.Connection.Receive.{force_close, is_ascii, starts_with}

-- What `process_packet` comes to: a handler returned, there was none, or it made a task.
pub data Processed : Type 0 where
  done unknown task : Processed

abbrev pub Outcome : World → Type 0
Outcome w = Result Processed × Connection w

-- The parts of the program that a connection calls and that stand elsewhere: `process_packet` of the key
-- exchange, of the authentication and of a channel, the handlers of the connection's other packets,
-- `try_next_auth`, the text of an exception as `_send_disconnect` takes it, and which byte strings are UTF-8.
pub record Parts (w : World) : Type 0 where
  pub process_kex : ℕ → SshPacket → Connection w → Outcome w
  pub process_auth : ℕ → SshPacket → Connection w → Outcome w
  pub process_channel : ℕ → ℕ → SshPacket → Connection w → Outcome w
  pub process_other : ℕ → SshPacket → Connection w → Outcome w
  pub try_next_auth : Connection w → Step w
  pub describe : Error → ℕ × List ℕ × List ℕ
  pub is_utf8 : List ℕ → Bool

-- `b'Cisco' in version`
unfoldable pub contains : List ℕ → List ℕ → Bool
unfolding starts_with
contains part [] = is_empty part
contains part (b ∷ bs) = starts_with part (b ∷ bs) || contains part bs

-- The fields of a message, read one after the other, with the end of the packet checked.
abbrev pub ended : {A : Type 0} → A → Decoder A
ended a = and_then check_end (λ u p. (ok a, p))

unfoldable pub disconnect_fields : Decoder (ℕ × List ℕ × List ℕ)
unfolding get_uint32 get_string check_end
disconnect_fields = and_then get_uint32 (λ code.
    and_then get_string (λ reason. and_then get_string (λ lang. ended (code, reason, lang))))

unfoldable pub debug_fields : Decoder (Bool × List ℕ × List ℕ)
unfolding get_boolean get_string check_end
debug_fields =
    and_then get_boolean (λ always.
      and_then get_string (λ msg. and_then get_string (λ lang. ended (always, msg, lang))))

unfoldable pub service_field : Decoder (List ℕ)
unfolding get_string check_end
service_field = and_then get_string (λ service. ended service)

-- The names and values of `_process_ext_info`.
unfoldable pub get_extensions : ℕ → List (List ℕ × List ℕ) → Decoder (List (List ℕ × List ℕ))
unfolding get_string set_item
get_extensions zero found p = (ok found, p)
get_extensions (suc n) found p =
    and_then get_string
      (λ name. and_then get_string (λ value. get_extensions n (set_item name value found))) p

unfoldable pub ext_info_fields : Decoder (List (List ℕ × List ℕ))
unfolding get_uint32 get_extensions check_end
ext_info_fields = and_then get_uint32 (λ n. and_then (get_extensions n []) ended)

abbrev pub cisco : List ℕ
cisco = 67 ∷ 105 ∷ 115 ∷ 99 ∷ 111 ∷ []

abbrev pub is_nothing : Wait → Bool
is_nothing Wait.nothing = true
is_nothing _ = false

-- `service != self._next_service`
abbrev pub is_next : List ℕ → Option (List ℕ) → Bool
is_next service none = false
is_next service (some next) = bytes_eq service next

module _ (w : World) (parts : Parts w) where
  unfoldable pub process_disconnect : SshPacket → Connection w → Step w
  unfolding disconnect_fields is_ascii
  process_disconnect p c =
      using (disconnect_fields p).0
        (λ (code, reason, lang) c.
          if parts.is_utf8 reason && is_ascii lang
          then returns (
              force_close
                (if not (code == 11) || not (is_nothing c.wait)
                  then some Error.disconnect_error
                  else none)
                c)
          else raises Error.protocol_error c)
        c

  unfoldable pub process_ignore : SshPacket → Connection w → Step w
  unfolding service_field contains
  process_ignore p c =
      if contains cisco c.server_version
      then returns c
      else using (service_field p).0 (λ d. returns) c

  unfoldable pub process_unimplemented : SshPacket → Connection w → Step w
  unfolding get_uint32 check_end
  process_unimplemented p c = using (and_then get_uint32 ended p).0 (λ seq. returns) c

  unfoldable pub process_debug : SshPacket → Connection w → Step w
  unfolding debug_fields is_ascii
  process_debug p c =
      using (debug_fields p).0
        (λ (always, msg, lang) c.
          if parts.is_utf8 msg && is_ascii lang then returns c else raises Error.protocol_error c)
        c

  unfoldable pub process_service_request : SshPacket → Connection w → Step w
  unfolding service_field
  process_service_request p c =
      using (service_field p).0
        (λ service c.
          if not c.is_server || not (is_some c.recv.keys.encryption)
          then raises Error.protocol_error c
          else if not (is_next service c.next_service)
          then raises Error.disconnect_error c
          else using (string service) (λ name. send_packet w 6 (name ∷ [])) c then_ (λ c.
            let d = record c { next_service = none } in
            if bytes_eq service userauth_service
            then send_deferred_packets w
                (record d { auth_in_progress = true; can_recv_ext_info = false })
            else returns d))
        c

  unfoldable pub process_service_accept : SshPacket → Connection w → Step w
  unfolding service_field
  process_service_accept p c =
      using (service_field p).0
        (λ service c.
          if c.is_server || not (is_some c.recv.keys.encryption)
          then raises Error.protocol_error c
          else if not (is_next service c.next_service)
          then raises Error.disconnect_error c
          else (let d = record c { next_service = none } in
              if bytes_eq service userauth_service
              then parts.try_next_auth (record d { auth_in_progress = true })
              else returns d))
        c

  unfoldable pub process_ext_info : SshPacket → Connection w → Step w
  unfolding ext_info_fields
  process_ext_info p c =
      if c.can_recv_ext_info
      then using (ext_info_fields p).0 (λ extensions. returns) c
      else raises Error.protocol_error c

  -- A handler that returned.
  abbrev pub finished : Step w → Outcome w
  finished s = using s.0 (λ u c. (ok Processed.done, c)) s.1

  -- `process_packet` of the connection itself. `_process_kexinit` is a coroutine.
  unfoldable pub process_self : ℕ → SshPacket → Connection w → Outcome w
  process_self pkttype p c =
      if pkttype == 1
      then finished (process_disconnect p c)
      else if pkttype == 2
      then finished (process_ignore p c)
      else if pkttype == 3
      then finished (process_unimplemented p c)
      else if pkttype == 4
      then finished (process_debug p c)
      else if pkttype == 5
      then finished (process_service_request p c)
      else if pkttype == 6
      then finished (process_service_accept p c)
      else if pkttype == 7
      then finished (process_ext_info p c)
      else if pkttype == 20
      then (ok Processed.task, c)
      else if pkttype == 21
      then finished (process_newkeys w p c)
      else parts.process_other pkttype p c

  -- `handler.process_packet`, which is logged.
  unfoldable pub process_packet : Target → ℕ → SshPacket → Connection w → Outcome w
  process_packet target pkttype p c =
      let d = record c { delivered = c.delivered ++ (target, pkttype) ∷ [] } in
      elim target [
        | Target.self ↦ process_self pkttype p d
        | Target.kex ↦ parts.process_kex pkttype p d
        | Target.auth ↦ parts.process_auth pkttype p d
        | Target.channel n ↦ parts.process_channel n pkttype p d
      ]
