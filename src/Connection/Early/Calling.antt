-- ===== src/Connection/Early/Calling.antt =====
-- A connection keeps to the rule on packets before the end of authentication, whatever it is called for.
use asyncssh.Base.{
  ℕ, ◌≡◌, refl, arith, Bool, true, false, ◌&&◌, some, none, List, [], ◌∷◌, Error, Option,
  if◌then◌else◌, is_empty,
}
use asyncssh.Packet.{string}
use asyncssh.Connection.Types.{◌then_◌, World, Connection, Step, returns}
use asyncssh.Connection.Send.{send_packet, send_disconnect, send_deferred_packets}
use asyncssh.Connection.Keys.{userauth_service}
use asyncssh.Connection.Handlers.{Parts}
use asyncssh.Connection.Dispatch.{finish_recv_packet}
use asyncssh.Connection.Guard.{send_disconnect-Held}
use asyncssh.Connection.Rules.{keep_using, keep_then, keep_if, keep_if_state}
use asyncssh.Connection.Early.{
  Early, held, release, early, force_close-Early, send_packet-Early, deferred-Early,
  finish_recv_packet-Early,
}
use asyncssh.Connection.Early.Handling.{PartsEarly}
use asyncssh.Connection.Keys.{Direction, send_newkeys, finish_newkeys, waits_for_kex}
use asyncssh.Packet.{boolean}
use asyncssh.Connection.Send.{send_version, write, send_ext_info, send_service_request}
use asyncssh.Connection.Guard.{send_ext_info-Held, send_service_request-Held}
use asyncssh.Connection.Dispatch.{finish_task}
use asyncssh.Connection.Calls.{
  Options, fresh, Call, call, run, connection_made, connection_lost, disconnect,
  send_userauth_success, send_server_host_keys, send_global_request, encode_strings,
  hostkeys_request, is_for_auth,
}
use asyncssh.Connection.Early.Rounds.{data_received-Early, recv_data-Early}

module _ (w : World) where
  write-Early : (bytes : List ℕ) (c : Connection w) → Early c → Early (write w bytes c)
  unfolding write
  write-Early bytes c g =
      keep_if_state Early c.has_transport _ _ (λ _. early c _ refl refl refl g) (λ _. g)

  connection_made-Early : (c : Connection w) → Early c → Early (connection_made w c)
  unfolding connection_made send_version
  connection_made-Early c g = write-Early _ _ (
      keep_if_state Early c.is_server _ _ (λ _. early c _ refl refl refl g)
        (λ _. early c _ refl refl refl g))

  finish_newkeys-Early :
      (first_kex : Bool) (c : Connection w) → Early c → Early (finish_newkeys w first_kex c).1
  unfolding finish_newkeys
  finish_newkeys-Early first_kex c g =
      let rest = λ (d : Connection w) (h : Early d).
        keep_then Early
          (let e = record d { kex_complete = true } in
            if first_kex
            then (if e.is_server
                then returns (record e { next_service = some userauth_service })
                else send_service_request w userauth_service e)
            else returns e)
          (send_deferred_packets w)
          (let e = record d { kex_complete = true } in
            let later = early d e refl refl refl h in
            keep_if Early {B = Unit {0}} first_kex _ _
              (λ _.
                keep_if Early {B = Unit {0}} e.is_server _ _ (λ _. early e _ refl refl refl later)
                  (λ _.
                    release _ (send_service_request-Held w _ userauth_service e (held e later))))
              (λ _. later))
          (deferred-Early w) in
      keep_then Early
        (if c.can_send_ext_info
          then send_ext_info w c then_ (λ c. returns (record c { can_send_ext_info = false }))
          else returns c)
        _
        (keep_if Early {B = Unit {0}} c.can_send_ext_info _ _
          (λ _.
            keep_then Early (send_ext_info w c) _ (release _ (send_ext_info-Held w _ c (held c g)))
              (λ d h. early d _ refl refl refl h))
          (λ _. g))
        rest

  send_newkeys-Early :
      (h : List ℕ) (sig_algs : List (List ℕ)) (cs sc : Direction w) (c : Connection w)
      → Early c
      → Early (send_newkeys w h sig_algs cs sc c).1
  unfolding send_newkeys
  send_newkeys-Early h sig_algs cs sc c g =
      let first_kex = is_empty c.session_id in
      let d = if first_kex then record c { session_id = h } else c in
      let started : Early d =
        keep_if_state Early first_kex _ _ (λ _. early c _ refl refl refl g) (λ _. g) in
      keep_if Early {B = Unit {0}} d.has_kex _ _
        (λ _.
          keep_then Early (send_packet w 21 [] (record d { has_kex = false })) _
            (send_packet-Early w 21 [] _
              (early d (record d { has_kex = false }) refl refl refl started))
            (λ c g.
              keep_if Early {B = Unit {0}} c.is_server _ _
                (λ _. finish_newkeys-Early first_kex _ (early c _ refl refl refl g))
                (λ _.
                  keep_if Early {B = Unit {0}} (first_kex && waits_for_kex w c.wait) _ _
                    (λ _. early c _ refl refl refl g)
                    (λ _. finish_newkeys-Early first_kex _ (early c _ refl refl refl g)))))
        (λ _. started)

  connection_lost-Early :
      (e : Option Error) (c : Connection w) → Early c → Early (connection_lost w e c)
  unfolding connection_lost
  connection_lost-Early e c g = force_close-Early _ c g

  send_global_request-Early :
      (request : List ℕ) (args : List (List ℕ)) (want_reply : Bool) (c : Connection w)
      → Early c
      → Early (send_global_request w request args want_reply c).1
  unfolding send_global_request
  send_global_request-Early request args want_reply c g =
      keep_using Early (string request) _ c g (λ name.
        keep_using Early (boolean want_reply) _ c g
          (λ reply. send_packet-Early w 80 (name ∷ reply ∷ args) c g))

  send_server_host_keys-Early :
      (keys : List (List ℕ)) (c : Connection w) → Early c → Early (send_server_host_keys w keys c).1
  unfolding send_server_host_keys
  send_server_host_keys-Early keys c g =
      keep_if Early {B = Unit {0}} (is_empty keys) _ _ (λ _. g)
        (λ _.
          keep_using Early (encode_strings keys) _ c g
            (λ args. send_global_request-Early hostkeys_request args false c g))

  -- Once authentication is complete nothing is asked for.
  complete-Early : (c : Connection w) → c.auth_complete ≡ true → Early c
  complete-Early c e = record { quiet = λ f. ground arith; heard = λ f. ground arith }

  pub send_userauth_success-Early :
      (keys : List (List ℕ)) (c : Connection w) → Early c → Early (send_userauth_success w keys c).1
  unfolding send_userauth_success
  send_userauth_success-Early keys c g =
      keep_then Early (send_packet w 52 [] c then_ _) _
        (keep_then Early (send_packet w 52 [] c) _ (send_packet-Early w 52 [] c g)
          (λ d h. deferred-Early w _ (complete-Early _ refl)))
        (λ d h.
          keep_if Early {B = Unit {0}} (is_for_auth d.wait) _ _ (λ _. early d _ refl refl refl h)
            (λ _. send_server_host_keys-Early keys d h))

module _ (w : World) (parts : Parts w) (k : PartsEarly parts)
    (close_channels : Connection w → Step w)
    (closing : (c : Connection w) → Early c → Early (close_channels c).1) where
  finish_task-Early :
      (t seq : ℕ) (c : Connection w) → Early c → Early (finish_task w parts t seq c).1
  unfolding finish_task
  finish_task-Early t seq c g =
      keep_then Early (finish_recv_packet w t seq c) _ (finish_recv_packet-Early w t seq c g)
        (λ d h.
          keep_if Early {B = Unit {0}} (is_empty d.recv.inpbuf) _ _ (λ _. h)
            (λ _. recv_data-Early w parts k d h))

  disconnect-Early :
      (code : ℕ) (reason lang : List ℕ) (c : Connection w)
      → Early c
      → Early (disconnect w close_channels code reason lang c).1
  unfolding disconnect
  disconnect-Early code reason lang c g =
      keep_then Early (close_channels c then_ send_disconnect w code reason lang) _
        (keep_then Early (close_channels c) _ (closing c g)
          (λ d h. release _ (send_disconnect-Held w _ code reason lang d (held d h))))
        (λ d h. force_close-Early none d h)

  call-Early : (x : Call w) (c : Connection w) → Early c → Early (call w parts close_channels x c).1
  unfolding call
  call-Early Call.made c g = connection_made-Early w c g
  call-Early (Call.received bytes) c g = data_received-Early w parts k bytes c g
  call-Early (Call.lost e) c g = connection_lost-Early w e c g
  call-Early (Call.sends t args) c g = send_packet-Early w t args c g
  call-Early (Call.disconnects code reason lang) c g = disconnect-Early code reason lang c g
  call-Early (Call.keys_ready h sig_algs cs sc) c g = send_newkeys-Early w h sig_algs cs sc c g
  call-Early (Call.task_done t seq) c g = finish_task-Early t seq c g
  call-Early (Call.user_accepted keys) c g = send_userauth_success-Early w keys c g

  run_from-Early :
      (xs : List (Call w)) (c : Connection w) → Early c → Early (run w parts close_channels xs c)
  unfolding run
  run_from-Early [] c g = g
  run_from-Early (x ∷ xs) c g = run_from-Early xs _ (call-Early x c g)

  -- Whatever a new connection is called for, in any order and whether the calls return or raise, it sends no
  -- packet of a type above 79 and hands none to a handler while its authentication is not complete, if the
  -- parts that it calls keep to this.
  pub run-Early :
      (is_server : Bool) (options : Options) (clock : ℕ → ℕ) (xs : List (Call w))
      → Early (run w parts close_channels xs (fresh w is_server options clock))
  run-Early is_server options clock xs =
      run_from-Early xs (fresh w is_server options clock)
        (record { quiet = λ _. tt; heard = λ _. tt })
