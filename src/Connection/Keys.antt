-- ===== src/Connection/Keys.antt =====
-- How a key exchange ends: the choice of algorithms, the new keys, and what follows them.
use asyncssh.Base.{
  ℕ, Bool, true, false, Option, none, some, List, [], ◌∷◌, bytes_eq, is_empty, ltb, ◌||◌, ◌&&◌,
  if◌then◌else◌, Result, ok, err, Error,
}
use asyncssh.Packet.{SshPacket, check_end, join}
use asyncssh.Connection.Types.{
  World, Sending, Keys, Connection, Wait, Step, returns, raises, using, ◌then_◌, is_some,
}
use asyncssh.Connection.Send.{
  send_packet, send_ext_info, send_service_request, send_deferred_packets,
}

-- `alg in algs`
unfoldable pub supports : List ℕ → List (List ℕ) → Bool
supports alg [] = false
supports alg (a ∷ algs) = bytes_eq alg a || supports alg algs

-- The loop of `_choose_alg`.
unfoldable pub first_common : List (List ℕ) → List (List ℕ) → Result (List ℕ)
unfolding supports
first_common [] server_algs = err Error.disconnect_error
first_common (alg ∷ algs) server_algs =
    if supports alg server_algs then ok alg else first_common algs server_algs

unfoldable pub choose_alg : Bool → List (List ℕ) → List (List ℕ) → Result (List ℕ)
unfolding first_common
choose_alg is_client local_algs remote_algs =
    if is_client then first_common local_algs remote_algs else first_common remote_algs local_algs

-- One direction of what was negotiated: the parameters of the algorithms and the objects that
-- `get_encryption`, `get_compressor` and `get_decompressor` make for it.
pub record Direction (w : World) : Type 0 where
  pub cipher : w.Cipher
  pub blocksize : ℕ
  pub hashsize : ℕ
  pub etm : Bool
  pub compressor : Option w.Stream
  pub decompressor : Option w.Stream
  pub after_auth : Bool

-- "ssh-userauth"
abbrev pub userauth_service : List ℕ
userauth_service = 115 ∷ 115 ∷ 104 ∷ 45 ∷ 117 ∷ 115 ∷ 101 ∷ 114 ∷ 97 ∷ 117 ∷ 116 ∷ 104 ∷ []

-- "global-requests-ok" and "server-sig-algs"
abbrev pub global_requests_ok : List ℕ
global_requests_ok =
    103 ∷ 108 ∷ 111 ∷ 98 ∷ 97 ∷ 108 ∷ 45 ∷ 114 ∷ 101 ∷ 113 ∷ 117 ∷ 101 ∷ 115 ∷ 116 ∷ 115 ∷ 45 ∷ 111
    ∷ 107 ∷ []

abbrev pub server_sig_algs : List ℕ
server_sig_algs =
    115 ∷ 101 ∷ 114 ∷ 118 ∷ 101 ∷ 114 ∷ 45 ∷ 115 ∷ 105 ∷ 103 ∷ 45 ∷ 97 ∷ 108 ∷ 103 ∷ 115 ∷ []

-- `extensions[name] = value`
unfoldable pub set_item : List ℕ → List ℕ → List (List ℕ × List ℕ) → List (List ℕ × List ℕ)
set_item name value [] = (name, value) ∷ []
set_item name value ((n, v) ∷ rest) =
    if bytes_eq n name then (n, value) ∷ rest else (n, v) ∷ set_item name value rest

abbrev pub max8 : ℕ → ℕ
max8 n = if ltb n 8 then 8 else n

module _ (w : World) where
  -- The keys of the sending side, for the direction in which this end sends.
  unfoldable pub install_send : Direction w → Sending w → Sending w
  install_send d s = record s {
    encryption = some d.cipher;
    enchdrlen = if d.etm then 1 else 5;
    blocksize = max8 d.blocksize;
    compressor = d.compressor;
    compress_after_auth = d.after_auth;
  }

  -- The keys that wait for the peer's NEWKEYS.
  unfoldable pub prepare_recv : Direction w → Keys w
  prepare_recv d = record {
    encryption = some d.cipher;
    blocksize = max8 d.blocksize;
    macsize = d.hashsize;
    decompressor = d.decompressor;
    decompress_after_auth = d.after_auth;
  }

  -- The end of `send_newkeys`.
  unfoldable pub finish_newkeys : Bool → Connection w → Step w
  finish_newkeys first_kex c =
      (if c.can_send_ext_info
        then send_ext_info w c then_ (λ c. returns (record c { can_send_ext_info = false }))
        else returns c)
      then_ (λ c.
          (let d = record c { kex_complete = true } in
            if first_kex
            then (if d.is_server
                then returns (record d { next_service = some userauth_service })
                else send_service_request w userauth_service d)
            else returns d)
          then_ send_deferred_packets w)

  -- The test `first_kex and self._wait == 'kex'`, of a client.
  abbrev pub waits_for_kex : Wait → Bool
  waits_for_kex Wait.for_kex = true
  waits_for_kex _ = false

  -- `send_newkeys`: the exchange hash `h`, and what was negotiated from client to server and back.
  unfoldable pub send_newkeys :
      List ℕ → List (List ℕ) → Direction w → Direction w → Connection w → Step w
  unfolding set_item install_send prepare_recv
  send_newkeys h sig_algs cs sc c =
      let first_kex = is_empty c.session_id in
      let d = if first_kex then record c { session_id = h } else c in
      if d.has_kex
      then send_packet w 21 [] (record d { has_kex = false }) then_ (λ c.
        let extensions = set_item global_requests_ok [] c.extensions_to_send in
        if c.is_server
        then finish_newkeys first_kex (record c {
          extensions_to_send = set_item server_sig_algs (join sig_algs) extensions;
          send = install_send sc c.send;
          next_keys = prepare_recv cs;
        })
        else (let e = record c {
          extensions_to_send = extensions;
          send = install_send cs c.send;
          next_keys = prepare_recv sc;
        } in
            if first_kex && waits_for_kex c.wait
            then returns (record e { wait = Wait.nothing })
            else finish_newkeys first_kex e))
      else raises Error.assertion_error d

  -- `_process_newkeys`
  unfoldable pub process_newkeys : SshPacket → Connection w → Step w
  unfolding check_end
  process_newkeys p c =
      using (check_end p).0
        (λ u c.
          if is_some c.next_keys.encryption
          then (let r = c.recv in
              let k = c.next_keys in
              returns (record c {
                recv = record r { keys = k };
                next_keys = record k { encryption = none };
                can_recv_ext_info = true;
              }))
          else raises Error.protocol_error c)
        c
