-- ===== src/Connection/Calls.antt =====
-- The calls that a connection gets: from its transport, its application, its tasks and its timers.
use asyncssh.Base.{
  ℕ, Bool, true, false, not, ◌&&◌, Option, none, some, List, [], ◌∷◌, is_empty, if◌then◌else◌,
  Result, ok, err, Error,
}
use asyncssh.Packet.{boolean, string}
use asyncssh.Connection.Types.{
  World, Handler, Offer, Wait, Connection, Step, returns, using, ◌then_◌, is_some,
}
use asyncssh.Connection.Send.{send_packet, send_version, send_disconnect, send_deferred_packets}
use asyncssh.Connection.Keys.{Direction, send_newkeys}
use asyncssh.Connection.Receive.{force_close}
use asyncssh.Connection.Handlers.{Parts}
use asyncssh.Connection.Dispatch.{data_received, finish_task}

-- `options`, as far as the transport reads them.
pub record Options : Type 0 where
  pub version : List ℕ
  pub offer : Offer
  pub wait : Wait
  pub rekey_bytes : ℕ
  pub rekey_seconds : ℕ

-- A connection as `__init__` leaves it, with the readings of the clock.
abbrev pub fresh : (w : World) → Bool → Options → (ℕ → ℕ) → Connection w
fresh w is_server options clock = record {
  is_server = is_server;
  has_transport = false;
  send = record {
    seq = 0;
    encryption = none;
    enchdrlen = 5;
    blocksize = 8;
    compressor = none;
    compress_after_auth = false;
    written = [];
    draws = 0;
  };
  recv = record {
    inpbuf = [];
    packet = [];
    pktlen = 0;
    handler = Handler.version;
    seq = 0;
    keys = record {
      encryption = none;
      blocksize = 8;
      macsize = 0;
      decompressor = none;
      decompress_after_auth = false;
    };
  };
  next_keys = record {
    encryption = none;
    blocksize = 0;
    macsize = 0;
    decompressor = none;
    decompress_after_auth = false;
  };
  deferred_packets = [];
  offer = options.offer;
  banner_lines = 0;
  wait = options.wait;
  version = options.version;
  client_version = [];
  server_version = [];
  client_kexinit = [];
  server_kexinit = [];
  session_id = [];
  has_kex = false;
  kexinit_sent = false;
  kex_complete = false;
  ignore_first_kex = false;
  strict_kex = false;
  rekey_bytes = options.rekey_bytes;
  rekey_seconds = options.rekey_seconds;
  rekey_bytes_sent = 0;
  rekey_time = 0;
  clock = clock;
  moment = 0;
  can_send_ext_info = false;
  can_recv_ext_info = false;
  extensions_to_send = [];
  next_service = none;
  has_auth = false;
  auth_in_progress = false;
  auth_complete = false;
  auth_final = false;
  channels = [];
  next_recv_chan = 0;
  sent = [];
  delivered = [];
  cleanup_scheduled = none;
}

-- "hostkeys-00@openssh.com"
abbrev pub hostkeys_request : List ℕ
hostkeys_request =
    104 ∷ 111 ∷ 115 ∷ 116 ∷ 107 ∷ 101 ∷ 121 ∷ 115 ∷ 45 ∷ 48 ∷ 48 ∷ 64 ∷ 111 ∷ 112 ∷ 101 ∷ 110 ∷ 115
    ∷ 115 ∷ 104 ∷ 46 ∷ 99 ∷ 111 ∷ 109 ∷ []

-- `[String(key) for key in keys]`
unfoldable pub encode_strings : List (List ℕ) → Result (List (List ℕ))
encode_strings [] = ok []
encode_strings (key ∷ keys) = elim (string key) [
  | err e ↦ err e
  | ok first ↦ elim (encode_strings keys) [ err e ↦ err e | ok rest ↦ ok (first ∷ rest) ]
]

abbrev pub is_for_auth : Wait → Bool
is_for_auth Wait.for_auth = true
is_for_auth _ = false

module _ (w : World) where
  -- Between the setting of socket options and the end; the application's `connection_made` is a call of its own.
  unfoldable pub connection_made : Connection w → Connection w
  connection_made c = send_version w (record c { has_transport = true })

  -- `eof_received` is a call with None.
  unfoldable pub connection_lost : Option Error → Connection w → Connection w
  connection_lost e c =
      force_close (if not (is_some e) && c.has_transport then some Error.disconnect_error else e) c

  unfoldable pub send_global_request : List ℕ → List (List ℕ) → Bool → Connection w → Step w
  send_global_request request args want_reply c =
      using (string request)
        (λ name. using (boolean want_reply) (λ reply. send_packet w 80 (name ∷ reply ∷ args))) c

  -- `keys` are those of `_all_server_host_keys`.
  unfoldable pub send_server_host_keys : List (List ℕ) → Connection w → Step w
  unfolding encode_strings
  send_server_host_keys keys c =
      if is_empty keys
      then returns c
      else using (encode_strings keys) (λ args c. send_global_request hostkeys_request args false c)
          c

  -- `send_userauth_success`, but for the calls of the application and the timers
  unfoldable pub send_userauth_success : List (List ℕ) → Connection w → Step w
  send_userauth_success keys c =
      send_packet w 52 [] c
      then_ (λ c. send_deferred_packets w (record c {
        has_auth = false;
        auth_in_progress = false;
        auth_complete = true;
        next_service = none;
      }))
      then_ (λ c.
          if is_for_auth c.wait
          then returns (record c { wait = Wait.nothing })
          else send_server_host_keys keys c)

  -- `disconnect`, whose calls of `close` of the channels are a parameter
  unfoldable pub disconnect : (Connection w → Step w) → ℕ → List ℕ → List ℕ → Connection w → Step w
  disconnect close_channels code reason lang c =
      close_channels c
      then_ send_disconnect w code reason lang
      then_ (λ c. returns (force_close none c))

  -- A call of the connection from outside of it.
  pub data Call : Type 0 where
    made : Call
    received : List ℕ → Call
    lost : Option Error → Call
    sends : ℕ → List (List ℕ) → Call
    disconnects : ℕ → List ℕ → List ℕ → Call
    -- the task of `send_newkeys`, and the end of the task that processed a packet
    keys_ready : List ℕ → List (List ℕ) → Direction w → Direction w → Call
    task_done : ℕ → ℕ → Call
    user_accepted : List (List ℕ) → Call

  unfoldable pub call : Parts w → (Connection w → Step w) → Call → Connection w → Step w
  call parts close_channels made c = returns (connection_made c)
  call parts close_channels (received bytes) c = data_received w parts bytes c
  call parts close_channels (lost e) c = returns (connection_lost e c)
  call parts close_channels (sends t args) c = send_packet w t args c
  call parts close_channels (disconnects code reason lang) c =
      disconnect close_channels code reason lang c
  call parts close_channels (keys_ready h sig_algs cs sc) c = send_newkeys w h sig_algs cs sc c
  call parts close_channels (task_done t seq) c = finish_task w parts t seq c
  call parts close_channels (user_accepted keys) c = send_userauth_success keys c

  -- Calls one after the other, whether they return or raise.
  unfoldable pub run : Parts w → (Connection w → Step w) → List Call → Connection w → Connection w
  run parts close_channels [] c = c
  run parts close_channels (x ∷ xs) c =
      run parts close_channels xs (call parts close_channels x c).1
