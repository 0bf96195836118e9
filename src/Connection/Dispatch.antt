-- ===== src/Connection/Dispatch.antt =====
-- What a connection does with a payload, and the loop over what it has received.
use asyncssh.Base.{
  ℕ, zero, suc, ◌+◌, ◌*◌, ◌%◌, ◌^◌, Bool, true, false, not, ◌&&◌, none, some, List, [], ◌∷◌, ◌++◌,
  length, ltb, leb, ◌==◌, if◌then◌else◌, is_empty, mem, Result, ok, err, Error,
}
use asyncssh.Packet.{SshPacket, init, get_byte, get_uint32, uint32}
use asyncssh.Connection.Types.{
  World, Handler, Target, Connection, Step, returns, raises, using, ◌then_◌, is_some,
}
use asyncssh.Connection.Send.{max_seq, send_packet, send_disconnect}
use asyncssh.Connection.Receive.{Progress, force_close, recv_version, recv_pkthdr, open_packet}
use asyncssh.Connection.Handlers.{Parts, Processed, process_packet}

-- Where a packet goes: to a handler, or nowhere, with or without a protocol error.
pub data Route : Type 0 where
  deliver : Target → Route
  skip refuse : Route

abbrev pub between : ℕ → ℕ → ℕ → Bool
between lo hi n = leb lo n && leb n hi

-- The packet that a handler is given: of a channel packet the number has been read.
unfoldable pub remainder : Target → SshPacket → SshPacket
unfolding get_uint32
remainder (Target.channel n) p = (get_uint32 p).1
remainder target p = p

module _ {w : World} where
  -- A packet for the channel whose number it starts with.
  unfoldable pub route_channel : Result ℕ → Connection w → Route
  route_channel (err e) c = Route.refuse
  route_channel (ok n) c =
      if mem n c.channels then Route.deliver (Target.channel n) else Route.refuse

  -- The chain of tests on the type of a packet, with the rest of the packet.
  unfoldable pub route : ℕ → SshPacket → Connection w → Route
  unfolding route_channel get_uint32
  route pkttype p c =
      let encrypted = is_some c.recv.keys.encryption in
      if between 30 49 pkttype
      then (if c.has_kex
          then if c.ignore_first_kex then Route.skip else Route.deliver Target.kex
          else Route.refuse)
      else if c.strict_kex && not encrypted && between 2 4 pkttype
      then Route.refuse
      else if between 60 79 pkttype
      then if c.has_auth then Route.deliver Target.auth else Route.refuse
      else if ltb 49 pkttype && not encrypted
      then Route.refuse
      else if ltb 79 pkttype && not c.auth_complete
      then Route.refuse
      else if between 93 127 pkttype
      then route_channel (get_uint32 p).0 c
      else Route.deliver Target.self

-- The errors that are a DisconnectError.
abbrev pub is_disconnect_error : Error → Bool
is_disconnect_error Error.protocol_error = true
is_disconnect_error Error.mac_error = true
is_disconnect_error Error.disconnect_error = true
is_disconnect_error e = false

-- `except PacketDecodeError as exc: raise ProtocolError`
abbrev pub decode_error_to_protocol : Error → Error
decode_error_to_protocol Error.packet_decode_error = Error.protocol_error
decode_error_to_protocol e = e

module _ (w : World) where
  -- `_finish_recv_packet`, without the call of `_recv_data` of a task
  unfoldable pub finish_recv_packet : ℕ → ℕ → Connection w → Step w
  finish_recv_packet pkttype seq c =
      let d = if ltb 79 pkttype then record c { auth_final = true } else c in
      let r = d.recv in
      if d.has_transport && r.seq == max_seq && not (is_some r.keys.encryption)
      then raises Error.protocol_error d
      else returns (record d {
        recv = record r {
          handler = Handler.pkthdr;
          seq =
              if d.has_transport
              then if pkttype == 21 && d.strict_kex then 0 else (seq + 1) % 2 ^ 32
              else r.seq;
        };
      })

module _ (w : World) (parts : Parts w) where
  -- After `process_packet` has returned.
  unfoldable pub after_process : ℕ → ℕ → Processed → Connection w → Progress w
  after_process pkttype seq Processed.done c =
      let s = finish_recv_packet w pkttype seq c in using s.0 (λ u c. (ok true, c)) s.1
  after_process pkttype seq Processed.unknown c =
      if c.strict_kex && not (is_some c.recv.keys.encryption)
      then (err Error.protocol_error, c)
      else (let s =
            using (uint32 seq) (λ number. send_packet w 3 (number ∷ [])) c
            then_ finish_recv_packet w pkttype seq in
          using s.0 (λ u c. (ok true, c)) s.1)
  after_process pkttype seq Processed.task c =
      let r = c.recv in (ok false, record c { recv = record r { handler = Handler.blocked } })

  -- The part of `_recv_packet` that follows the payload.
  unfoldable pub dispatch_packet : ℕ → List ℕ → Connection w → Progress w
  unfolding get_byte init remainder
  dispatch_packet seq payload c =
      let head = get_byte (init payload) in
      using head.0
        (λ pkttype c. elim (route pkttype head.1 c) [
          | Route.refuse ↦ (err Error.protocol_error, c)
          | Route.skip ↦
              (let s = finish_recv_packet w pkttype seq (record c { ignore_first_kex = false }) in
                using s.0 (λ u c. (ok true, c)) s.1)
          | Route.deliver target ↦
              (let r = process_packet w parts target pkttype (remainder target head.1) c in
                elim r.0 [
                  | err e ↦ (err (decode_error_to_protocol e), r.1)
                  | ok result ↦ after_process pkttype seq result r.1
                ])
        ])
        c

  unfoldable pub recv_packet : Connection w → Progress w
  recv_packet c = elim (open_packet w c.auth_complete c.recv) [
    | none ↦ (ok false, c)
    | some opened ↦ using opened.0 (dispatch_packet c.recv.seq) (record c { recv = opened.1 })
  ]

  -- `self._recv_handler()`
  unfoldable pub call_handler : Handler → Connection w → Progress w
  call_handler Handler.version c = recv_version w c
  call_handler Handler.pkthdr c = let r = recv_pkthdr w c.recv in (ok r.0, record c { recv = r.1 })
  call_handler Handler.packet c = recv_packet c
  call_handler Handler.blocked c = (ok false, c)

  -- The loop of `_recv_data`, on fuel.
  unfoldable pub recv_rounds : ℕ → Connection w → Step w
  recv_rounds zero c = raises Error.out_of_fuel c
  recv_rounds (suc n) c =
      if is_empty c.recv.inpbuf
      then returns c
      else (let r = call_handler c.recv.handler c in
          elim r.0 [
            | err e ↦ raises e r.1
            | ok more ↦ elim more [ true ↦ recv_rounds n r.1 | false ↦ returns r.1 ]
          ])

  -- What `_recv_data` does with an exception; `internal_error` closes without a message.
  unfoldable pub handle_error : Error → Connection w → Step w
  handle_error e c =
      if is_disconnect_error e
      then (let (code, reason, lang) = parts.describe e in
          send_disconnect w code reason lang c then_ (λ c. returns (force_close (some e) c)))
      else returns (force_close (some e) c)

  -- `_recv_data`, but for the keepalive timer
  unfoldable pub recv_data : Connection w → Step w
  recv_data c =
      let r = recv_rounds (suc (2 * length c.recv.inpbuf)) c in
      elim r.0 [ ok u ↦ returns r.1 | err e ↦ handle_error e r.1 ]

  unfoldable pub data_received : List ℕ → Connection w → Step w
  data_received bytes c =
      let r = c.recv in recv_data (record c { recv = record r { inpbuf = r.inpbuf ++ bytes } })

  -- `_finish_recv_packet` at the end of a task
  unfoldable pub finish_task : ℕ → ℕ → Connection w → Step w
  finish_task pkttype seq c =
      finish_recv_packet w pkttype seq c
      then_ (λ c. if is_empty c.recv.inpbuf then returns c else recv_data c)
