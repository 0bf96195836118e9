-- ===== src/Connection/Receive.antt =====
-- How a connection receives: the version line, packet headers and packets, up to the payload.
use asyncssh.Base.{
  ℕ, suc, ◌+◌, Bool, true, false, not, ◌&&◌, ◌||◌, Option, none, some, List, [], ◌∷◌, ◌++◌, length,
  take, drop, ltb, leb, ◌==◌, if◌then◌else◌, bytes_eq, is_empty, Result, ok, err, Error,
}
use asyncssh.Base.Bytes.{from_bytes}
use asyncssh.Base.Int.{pos}
use asyncssh.Base.Slices.{diff, slice_to, slice_from, slice, shorter}
use asyncssh.Connection.Types.{World, Handler, Receiving, Connection, using}
use asyncssh.Connection.Send.{ssh2, send_kexinit}

-- The bytes before the first newline.
unfoldable pub find_line : List ℕ → Option (List ℕ)
find_line [] = none
find_line (b ∷ bs) =
    if b == 10 then some [] else elim (find_line bs) [ none ↦ none | some line ↦ some (b ∷ line) ]

-- The line without a carriage return at its end.
unfoldable pub strip_cr : List ℕ → List ℕ
strip_cr [] = []
strip_cr (b ∷ []) = if b == 13 then [] else b ∷ []
strip_cr (b ∷ c ∷ bs) = b ∷ strip_cr (c ∷ bs)

unfoldable pub starts_with : List ℕ → List ℕ → Bool
starts_with prefix bytes = bytes_eq (take (length prefix) bytes) prefix

unfoldable pub is_ascii : List ℕ → Bool
is_ascii [] = true
is_ascii (b ∷ bs) = ltb b 128 && is_ascii bs

-- "SSH-" and "SSH-1.99-"
abbrev pub ssh : List ℕ
ssh = 83 ∷ 83 ∷ 72 ∷ 45 ∷ []

abbrev pub ssh199 : List ℕ
ssh199 = 83 ∷ 83 ∷ 72 ∷ 45 ∷ 49 ∷ 46 ∷ 57 ∷ 57 ∷ 45 ∷ []

abbrev pub max_banner_lines : ℕ
max_banner_lines = 1024

abbrev pub max_banner_line_len : ℕ
max_banner_line_len = 8192

abbrev pub max_version_line_len : ℕ
max_version_line_len = 255

module _ {w : World} where
  unfoldable pub force_close : Option Error → Connection w → Connection w
  force_close e c =
      if c.has_transport then record c { has_transport = false; cleanup_scheduled = some e } else c

-- A handler answers whether it made progress.
abbrev pub Progress : World → Type 0
Progress w = Result Bool × Connection w

-- `packet_data[1:-packet_data[0]]`
unfoldable pub strip_padding : List ℕ → Result (List ℕ)
unfolding slice diff
strip_padding [] = err Error.index_error
strip_padding (padlen ∷ rest) = ok (slice (pos 1) (diff 0 padlen) (padlen ∷ rest))

module _ (w : World) where
  -- After a line that is a version.
  unfoldable pub accept_version : List ℕ → Connection w → Progress w
  unfolding is_ascii
  accept_version version c =
      let d =
        if ltb max_version_line_len (length version)
        then force_close (some Error.protocol_error) c
        else c in
      let e =
        if c.is_server
        then record d { client_version = version }
        else record d { server_version = version } in
      if is_ascii version
      then (let sent = send_kexinit w e in
          using sent.0
            (λ u c.
              let r = c.recv in
              (
                ok true,
                record c { kexinit_sent = true; recv = record r { handler = Handler.pkthdr } },
              ))
            sent.1)
      else (err Error.unicode_error, e)

  unfoldable pub recv_version : Connection w → Progress w
  unfolding find_line strip_cr starts_with
  recv_version c =
      let r = c.recv in
      elim (find_line (take max_banner_line_len r.inpbuf)) [
        | none ↦ (
          ok false,
          if leb max_banner_line_len (length r.inpbuf)
              then force_close (some Error.protocol_error) c
              else c,
        )
        | some line ↦
            (let version = strip_cr line in
              let d = record c { recv = record r { inpbuf = drop (suc (length line)) r.inpbuf } } in
              if starts_with ssh2 version || not c.is_server && starts_with ssh199 version
              then accept_version version d
              else if not c.is_server && not (starts_with ssh version)
              then (let e = record d { banner_lines = suc d.banner_lines } in
                  if ltb max_banner_lines e.banner_lines
                  then (ok false, force_close (some Error.protocol_error) e)
                  else (ok true, e))
              else (ok false, force_close (some Error.disconnect_error) d))
      ]

  -- The first block of a packet as `decrypt_header` leaves it, and the header.
  unfoldable pub open_header : Option w.Cipher → ℕ → List ℕ → (List ℕ × List ℕ) × Option w.Cipher
  open_header none seq block = ((block, take 4 block), none)
  open_header (some key) seq block = let d = w.decrypt_header key seq block 4 in (d.0, some d.1)

  -- `_recv_pkthdr`, of the receiving side
  unfoldable pub recv_pkthdr : Receiving w → Bool × Receiving w
  unfolding open_header
  recv_pkthdr r =
      let k = r.keys in
      if ltb (length r.inpbuf) k.blocksize
      then (false, r)
      else (let opened = open_header k.encryption r.seq (take k.blocksize r.inpbuf) in
          (
            true,
            record r {
              inpbuf = drop k.blocksize r.inpbuf;
              packet = opened.0.0;
              pktlen = from_bytes opened.0.1;
              handler = Handler.packet;
              keys = record k { encryption = opened.1 };
            },
          ))

  -- `packet_data`, and the encryption object after it
  unfoldable pub decrypt :
      Option w.Cipher → ℕ → List ℕ → List ℕ → List ℕ → Result (List ℕ) × Option w.Cipher
  decrypt none seq first rest mac = (ok (drop 4 first ++ rest), none)
  decrypt (some key) seq first rest mac =
      let d = w.decrypt_packet key seq first rest 4 mac in
      (
        elim d.0 [
          | none ↦ err Error.mac_error
          | some bytes ↦ if is_empty bytes then err Error.mac_error else ok bytes
        ],
        some d.1,
      )

  -- `payload`, and the decompressor after it
  unfoldable pub inflate :
      Bool → Bool → Option w.Stream → List ℕ → Result (List ℕ) × Option w.Stream
  inflate auth_complete after_auth none orig_payload = (ok orig_payload, none)
  inflate auth_complete after_auth (some z) orig_payload =
      if auth_complete || not after_auth
      then (let d = w.decompress z orig_payload in
          elim d.0 [
            | none ↦ (err Error.disconnect_error, some d.1)
            | some payload ↦ (ok payload, some d.1)
          ])
      else (ok orig_payload, some z)

  -- From the decrypted packet to the payload.
  unfoldable pub open_payload : Bool → List ℕ → Receiving w → Result (List ℕ) × Receiving w
  unfolding strip_padding inflate
  open_payload auth_complete packet_data r =
      using (strip_padding packet_data)
        (λ orig_payload r.
          let k = r.keys in
          let d = inflate auth_complete k.decompress_after_auth k.decompressor orig_payload in
          (d.0, record r { keys = record k { decompressor = d.1 } }))
        r

  -- The first part of `_recv_packet`: the payload, or nothing while the packet is not complete.
  unfoldable pub open_packet : Bool → Receiving w → Option (Result (List ℕ) × Receiving w)
  unfolding diff slice_to slice_from slice shorter decrypt
  open_packet auth_complete r =
      let k = r.keys in
      let total = 4 + r.pktlen in
      let rem = diff (total + k.macsize) k.blocksize in
      let end_ = diff total k.blocksize in
      if shorter (length r.inpbuf) rem
      then none
      else (let plain =
            decrypt k.encryption r.seq r.packet (slice_to end_ r.inpbuf)
              (slice end_ rem r.inpbuf) in
          some (
            using plain.0
              (λ packet_data r.
                open_payload auth_complete packet_data
                  (record r { inpbuf = slice_from rem r.inpbuf; packet = [] }))
              (record r { keys = record k { encryption = plain.1 } })))
