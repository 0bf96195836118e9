-- ===== src/Connection/Send.antt =====
-- How a connection sends: `send_packet` and the methods that it is made of.
use asyncssh.Base.{
  ℕ, zero, suc, ◌+◌, ◌-◌, ◌%◌, ◌^◌, Bool, true, false, not, ◌&&◌, ◌||◌, Option, none, some, List,
  [], ◌∷◌, ◌++◌, length, ltb, leb, ◌==◌, if◌then◌else◌, Result, ok, err, Error, is_empty, ◌>>=◌,
}
use asyncssh.Packet.{byte, boolean, uint32, string, name_list}
use asyncssh.Connection.Types.{
  World, Sending, Connection, Deferred, Offer, Step, returns, raises, using, ◌then_◌, is_some,
}

-- `b''.join(args)`
unfoldable pub concat : List (List ℕ) → List ℕ
concat [] = []
concat (arg ∷ args) = arg ++ concat args

abbrev pub max_seq : ℕ
max_seq = 0xffffffff

-- `padlen`, for `-(enchdrlen + size) % blocksize` and a block size that is not 0
unfoldable pub padding : ℕ → ℕ → ℕ → ℕ
padding enchdrlen blocksize size =
    let padlen = (blocksize - (enchdrlen + size) % blocksize) % blocksize in
    if ltb padlen 4 then padlen + blocksize else padlen

-- The names and values of a dictionary, as `_send_ext_info` writes them.
unfoldable pub encode_all : List (List ℕ × List ℕ) → Result (List ℕ)
encode_all [] = ok []
encode_all ((name, value) ∷ rest) = do
  head ← string name
  body ← string value
  others ← encode_all rest
  ok (head ++ body ++ others)

-- `packet` of `_send_kexinit`, with the cookie
unfoldable pub kexinit_packet : List ℕ → Offer → Result (List ℕ)
kexinit_packet cookie o = do
  kex ← name_list o.kex_algs
  host ←
      name_list
        (if is_empty o.host_key_algs then (110 ∷ 117 ∷ 108 ∷ 108 ∷ []) ∷ [] else o.host_key_algs)
  enc ← name_list o.enc_algs
  mac ← name_list o.mac_algs
  cmp ← name_list o.cmp_algs
  langs ← name_list []
  follows ← boolean false
  reserved ← uint32 0
  ok (
      20 ∷ cookie
      ++ concat (
          kex ∷ host ∷ enc ∷ enc ∷ mac ∷ mac ∷ cmp ∷ cmp ∷ langs ∷ langs ∷ follows ∷ reserved ∷ []))

-- `packet[1:]`
abbrev pub tail : List ℕ → List ℕ
tail [] = []
tail (b ∷ bs) = bs

-- "SSH-2.0-"
abbrev pub ssh2 : List ℕ
ssh2 = 83 ∷ 83 ∷ 72 ∷ 45 ∷ 50 ∷ 46 ∷ 48 ∷ 45 ∷ []

-- The methods of `send_packet` that only need the sending side.
module _ (w : World) where
  -- `payload`, and the compressor after it
  unfoldable pub deflate :
      Bool → Bool → Option w.Stream → List ℕ → Result (List ℕ) × Option w.Stream
  deflate auth_complete after_auth none orig_payload = (ok orig_payload, none)
  deflate auth_complete after_auth (some z) orig_payload =
      if auth_complete || not after_auth
      then (let r = w.compress z orig_payload in
          elim r.0 [
            | none ↦ (err Error.disconnect_error, some r.1)
            | some payload ↦ (ok payload, some r.1)
          ])
      else (ok orig_payload, some z)

  -- `hdr` and `packet`, not yet encrypted, from the padding that the n-th call of `urandom` gives
  unfoldable pub frame : ℕ → ℕ → ℕ → List ℕ → Result (List ℕ × List ℕ)
  unfolding padding
  frame enchdrlen blocksize n payload = do
    let padlen = padding enchdrlen blocksize (length payload)
    pad ← byte padlen
    let packet = pad ++ payload ++ w.urandom n padlen
    hdr ← uint32 (length packet)
    ok (hdr, packet)

  -- The packet as it is sent and its MAC, and the encryption object after it.
  unfoldable pub seal : Option w.Cipher → ℕ → List ℕ → List ℕ → (List ℕ × List ℕ) × Option w.Cipher
  seal none seq hdr packet = ((hdr ++ packet, []), none)
  seal (some key) seq hdr packet = let r = w.encrypt_packet key seq hdr packet in (r.0, some r.1)

  -- The sequence number of the next packet, also where the method raises.
  unfoldable pub next_seq : Bool → ℕ → Bool → ℕ → Result (Unit {0}) × ℕ
  next_seq strict_kex pkttype encrypted seq =
      if seq == max_seq && not encrypted
      then (err Error.protocol_error, 0)
      else (ok tt, if pkttype == 21 && strict_kex then 0 else (seq + 1) % 2 ^ 32)

  -- `_send` of the sealed packet, and the new sequence number; the result is `pktlen`.
  unfoldable pub emit_frame : Bool → Bool → ℕ → List ℕ × List ℕ → Sending w → Result ℕ × Sending w
  emit_frame has_transport strict_kex pkttype (hdr, packet) s =
      let sealed = seal s.encryption s.seq hdr packet in
      let numbered = next_seq strict_kex pkttype (is_some s.encryption) s.seq in
      using numbered.0 (λ u s. (ok (length packet), s))
        (record s {
          encryption = sealed.1;
          written = if has_transport then s.written ++ (sealed.0.0 ++ sealed.0.1) else s.written;
          seq = numbered.1;
        })

  -- From the payload to the transport.
  unfoldable pub emit_payload : Bool → Bool → Bool → ℕ → List ℕ → Sending w → Result ℕ × Sending w
  emit_payload has_transport strict_kex auth_complete pkttype orig_payload s =
      let deflated = deflate auth_complete s.compress_after_auth s.compressor orig_payload in
      using deflated.0
        (λ payload s.
          using (frame s.enchdrlen s.blocksize s.draws payload)
            (emit_frame has_transport strict_kex pkttype) (record s { draws = suc s.draws }))
        (record s { compressor = deflated.1 })

  unfoldable pub emit : Bool → Bool → Bool → ℕ → List (List ℕ) → Sending w → Result ℕ × Sending w
  unfolding concat
  emit has_transport strict_kex auth_complete pkttype args s =
      using (byte pkttype)
        (λ head. emit_payload has_transport strict_kex auth_complete pkttype (head ++ concat args))
        s

  -- `send_packet` after its guards: what was emitted is counted and logged.
  unfoldable pub send_now : ℕ → List (List ℕ) → Connection w → Step w
  send_now pkttype args c =
      let r = emit c.has_transport c.strict_kex c.auth_complete pkttype args c.send in
      using r.0
        (λ pktlen c. returns (record c {
          rekey_bytes_sent =
              if c.kex_complete then c.rekey_bytes_sent + pktlen else c.rekey_bytes_sent;
          sent = c.sent ++ pkttype ∷ [];
        }))
        (record c { send = r.1 })

  -- The test of the keys' age, at the start of `send_packet`.
  unfoldable pub needs_rekey : Connection w → Bool
  needs_rekey c =
      c.auth_complete
      && c.kex_complete
      && (leb c.rekey_bytes c.rekey_bytes_sent
          || not (c.rekey_seconds == 0) && leb c.rekey_time (c.clock c.moment))

  -- Whether key exchange or authentication must come first.
  unfoldable pub must_wait : ℕ → Connection w → Bool
  must_wait pkttype c =
      (pkttype == 5 || pkttype == 6 || ltb 49 pkttype) && not c.kex_complete
      || pkttype == 53 && not (c.auth_in_progress || c.auth_complete)
      || ltb 79 pkttype && not c.auth_complete

  -- `_send_kexinit`, from the function that sends its packet
  unfoldable pub send_kexinit_by :
      (ℕ → List (List ℕ) → Connection w → Step w) → Connection w → Step w
  unfolding kexinit_packet concat
  send_kexinit_by send c =
      let s = c.send in
      let cookie = w.urandom s.draws 16 in
      using (kexinit_packet cookie c.offer)
        (λ packet c. send 20 (tail packet ∷ []) (
          if c.is_server
          then record c { server_kexinit = packet }
          else record c { client_kexinit = packet }))
        (record c {
          send = record s { draws = suc s.draws };
          kex_complete = false;
          rekey_bytes_sent = 0;
          moment = suc c.moment;
          rekey_time =
              if c.rekey_seconds == 0
              then c.rekey_time
              else c.clock (suc c.moment) + c.rekey_seconds;
        })

  -- The start of `send_packet`, and the ignore packet that it sends ahead, from the function that sends a packet.
  unfoldable pub rekey_first : (ℕ → List (List ℕ) → Connection w → Step w) → Connection w → Step w
  unfolding needs_rekey
  rekey_first send c =
      let d = record c { moment = suc c.moment } in
      if needs_rekey d
      then send_kexinit_by send d then_ (λ c. returns (record c { kexinit_sent = true }))
      else returns d

  unfoldable pub ignore_first :
      (ℕ → List (List ℕ) → Connection w → Step w) → ℕ → Connection w → Step w
  ignore_first send pkttype c =
      if is_some c.send.encryption && not (pkttype == 2 || pkttype == 7)
      then using (string []) (λ empty. send 2 (empty ∷ [])) c
      else returns c

  -- `send_packet`, on a bound for its calls of itself
  unfoldable pub send_packet_fuel : ℕ → ℕ → List (List ℕ) → Connection w → Step w
  unfolding must_wait
  send_packet_fuel zero pkttype args c = raises Error.out_of_fuel c
  send_packet_fuel (suc n) pkttype args c = rekey_first (send_packet_fuel n) c then_ (λ c.
      if must_wait pkttype c
      then returns (record c { deferred_packets = c.deferred_packets ++ (pkttype, args) ∷ [] })
      else ignore_first (send_packet_fuel n) pkttype c then_ send_now pkttype args)

  -- A packet may be preceded by an ignore packet, which may start a key exchange if the keys have become too old
  -- in the meantime, whose packet may be preceded by an ignore packet.
  unfoldable pub send_packet : ℕ → List (List ℕ) → Connection w → Step w
  unfolding send_packet_fuel
  send_packet = send_packet_fuel 4

  unfoldable pub send_kexinit : Connection w → Step w
  send_kexinit = send_kexinit_by send_packet

  unfoldable pub send_all : List Deferred → Connection w → Step w
  send_all [] c = returns c
  send_all ((pkttype, args) ∷ rest) c = send_packet pkttype args c then_ send_all rest

  unfoldable pub send_deferred_packets : Connection w → Step w
  send_deferred_packets c = send_all c.deferred_packets (record c { deferred_packets = [] })

  -- `reason` and `lang` are the bytes of their UTF-8 encodings.
  unfoldable pub send_disconnect : ℕ → List ℕ → List ℕ → Connection w → Step w
  send_disconnect code reason lang c =
      using (uint32 code)
        (λ code.
          using (string reason)
            (λ reason. using (string lang) (λ lang. send_packet 1 (code ∷ reason ∷ lang ∷ []))))
        c

  unfoldable pub send_service_request : List ℕ → Connection w → Step w
  send_service_request service c =
      using (string service) (λ name. send_packet 5 (name ∷ []))
        (record c { next_service = some service })

  -- `_send`
  unfoldable pub write : List ℕ → Connection w → Connection w
  write bytes c =
      if c.has_transport
      then (let s = c.send in record c { send = record s { written = s.written ++ bytes } })
      else c

  unfoldable pub send_version : Connection w → Connection w
  unfolding write
  send_version c =
      let version = ssh2 ++ c.version in
      write (version ++ 13 ∷ 10 ∷ []) (
        if c.is_server
        then record c { server_version = version }
        else record c { client_version = version })

  unfoldable pub send_ext_info : Connection w → Step w
  send_ext_info c =
      using (uint32 (length c.extensions_to_send))
        (λ size.
          using (encode_all c.extensions_to_send) (λ body. send_packet 7 ((size ++ body) ∷ [])))
        c
