-- ===== src/Socks/Machine.antt =====
-- The state of a SOCKS handshake, and its methods.
use asyncssh.Base.{
  ℕ, ◌+◌, ◌*◌, Bool, true, false, not, ◌&&◌, ◌||◌, Option, none, some, List, [], ◌∷◌, ◌++◌, take,
  drop, replicate, get_elem?, is_empty, mem, bytes_eq, ◌==◌, if◌then◌else◌, Result, ok, err, Error,
}

-- `_recv_handler`, where `None` is `idle`.
pub data Handler : Type 0 where
  idle version socks4_addr socks4_user socks4_hostname : Handler
  socks5_authlist socks5_command socks5_addr socks5_hostlen socks5_host socks5_port : Handler

-- `_bytes_needed`, where -1 is `until_nul`.
pub data Needed : Type 0 where
  until_nul : Needed
  exactly : ℕ → Needed

-- `_host`: what `str(ip_address(data))` and `data.decode('utf-8')` make of the bytes is left to their
-- definitions; the string is empty if the bytes of a name are, and for no address.
pub data Host : Type 0 where
  address : List ℕ → Host
  hostname : List ℕ → Host

pub record Forwarder : Type 0 where
  pub inpbuf : List ℕ
  pub bytes_needed : Needed
  pub recv_handler : Handler
  pub addrtype : ℕ
  pub host : Host
  pub port : ℕ
  -- `_transport is not None`
  pub has_transport : Bool
  -- what was written to the transport
  pub written : List ℕ
  -- the calls of `forward`, a task that sets the peer later
  pub forwarded : List (Host × ℕ)

-- `__init__`, and `connection_made`
abbrev pub connected : Forwarder
connected = record {
  inpbuf = [];
  bytes_needed = exactly 2;
  recv_handler = version;
  addrtype = 0;
  host = hostname [];
  port = 0;
  has_transport = true;
  written = [];
  forwarded = [];
}

abbrev pub Step : Type 0
Step = Result (Unit {0}) × Forwarder

abbrev pub returns : Forwarder → Step
returns s = (ok tt, s)

abbrev pub raises : Error → Forwarder → Step
raises e s = (err e, s)

abbrev pub proceed : Result (Unit {0}) → (Forwarder → Step) → Forwarder → Step
proceed (ok u) f s = f s
proceed (err e) f s = raises e s

-- `if self._host`
abbrev pub has_host : Host → Bool
has_host (address a) = true
has_host (hostname h) = not (is_empty h)

-- `close` of SSHForwarder, for a forwarder that has no peer yet
unfoldable pub close : Forwarder → Step
close s = returns (record s { has_transport = false })

-- `assert self._transport is not None`
abbrev pub with_transport : (Forwarder → Step) → Forwarder → Step
with_transport f s = if s.has_transport then f s else raises Error.assertion_error s

abbrev pub write : List ℕ → Forwarder → Step
write bytes s = with_transport (λ t. returns (record t { written = t.written ++ bytes })) s

-- `_connect`
unfoldable pub connect : Forwarder → Step
connect s =
    with_transport
      (λ t.
        returns
          (record t { recv_handler = idle; forwarded = t.forwarded ++ (t.host, t.port) ∷ [] }))
      s

abbrev pub socks4_ok_response : List ℕ
socks4_ok_response = 0 ∷ 0x5a ∷ 0 ∷ 0 ∷ 0 ∷ 0 ∷ 0 ∷ 0 ∷ []

-- `_socks5_addr_len`
unfoldable pub socks5_addr_len : ℕ → Option ℕ
socks5_addr_len t = if t == 1 then some 4 else if t == 4 then some 16 else none

unfoldable pub send_socks4_ok : Forwarder → Step
send_socks4_ok s = write socks4_ok_response s

-- `_socks5_addr_len[self._addrtype]` raises KeyError for another type.
unfoldable pub send_socks5_ok : Forwarder → Step
unfolding socks5_addr_len
send_socks5_ok s =
    with_transport
      (λ t. elim (socks5_addr_len t.addrtype) [
        | none ↦ raises Error.index_error t
        | some n ↦ write ((5 ∷ 0 ∷ 0 ∷ []) ++ t.addrtype ∷ replicate (n + 2) 0) t
      ])
      s

abbrev pub expect : Needed → Handler → Forwarder → Step
expect n h s = returns (record s { bytes_needed = n; recv_handler = h })

-- `data[i]`
abbrev pub at : List ℕ → ℕ → (ℕ → Forwarder → Step) → Forwarder → Step
at bytes i f s = elim (get_elem? bytes i) [ none ↦ raises Error.index_error s | some b ↦ f b s ]

unfoldable pub recv_version : List ℕ → Forwarder → Step
unfolding close
recv_version bytes = at bytes 0 (λ v s.
    if v == 4
    then at bytes 1 (λ cmd t. if cmd == 1 then expect (exactly 6) socks4_addr t else close t) s
    else if v == 5
    then at bytes 1 (λ n t. expect (exactly n) socks5_authlist t) s
    else close s)

abbrev pub with_port : ℕ → ℕ → Forwarder → Forwarder
with_port hi lo s = record s { port = hi * 256 + lo }

-- The address 0.0.0.x, with x not 0, announces a host name.
unfoldable pub recv_socks4_addr : List ℕ → Forwarder → Step
recv_socks4_addr bytes = at bytes 0 (λ hi. at bytes 1 (λ lo. at bytes 5 (λ last s.
    expect until_nul socks4_user (record s {
      port = hi * 256 + lo;
      host =
          if not (bytes_eq (take 3 (drop 2 bytes)) (0 ∷ 0 ∷ 0 ∷ [])) || last == 0
          then address (drop 2 bytes)
          else s.host;
    }))))

unfoldable pub recv_socks4_user : List ℕ → Forwarder → Step
unfolding send_socks4_ok connect
recv_socks4_user bytes s =
    if has_host s.host
    then proceed (send_socks4_ok s).0 connect (send_socks4_ok s).1
    else expect until_nul socks4_hostname s

-- `_recv_socks5_authlist`
unfoldable pub recv_socks5_authlist : List ℕ → Forwarder → Step
unfolding close
recv_socks5_authlist bytes = with_transport (λ t.
    if mem 0 bytes
    then (let sent = write (5 ∷ 0 ∷ []) t in
        proceed sent.0 (expect (exactly 4) socks5_command) sent.1)
    else close t)

unfoldable pub recv_socks5_hostlen : List ℕ → Forwarder → Step
recv_socks5_hostlen bytes = at bytes 0 (λ n. expect (exactly n) socks5_host)

unfoldable pub recv_socks5_addr : List ℕ → Forwarder → Step
recv_socks5_addr bytes s = expect (exactly 2) socks5_port (record s { host = address bytes })

unfoldable pub recv_socks5_port : List ℕ → Forwarder → Step
unfolding send_socks5_ok connect
recv_socks5_port bytes = at bytes 0 (λ hi.
    at bytes 1
      (λ lo s. let done = send_socks5_ok (with_port hi lo s) in proceed done.0 connect done.1))

-- The type of address in a command that is well formed.
unfoldable pub choose_address : ℕ → Forwarder → Step
unfolding close socks5_addr_len
choose_address t s =
    if t == 3
    then expect (exactly 1) socks5_hostlen (record s { addrtype = 1 })
    else elim (socks5_addr_len t) [
      | none ↦ close s
      | some n ↦ expect (exactly n) socks5_addr (record s { addrtype = t })
    ]

unfoldable pub recv_socks5_command : List ℕ → Forwarder → Step
unfolding close choose_address
recv_socks5_command bytes = at bytes 0 (λ v. at bytes 1 (λ cmd. at bytes 2 (λ reserved.
    at bytes 3
      (λ t s. if v == 5 && cmd == 1 && reserved == 0 then choose_address t s else close s))))

-- `bytes.decode('utf-8')` belongs to the language: which byte strings it takes is a parameter.
module _ (is_utf8 : List ℕ → Bool) where
  unfoldable pub recv_socks4_hostname : List ℕ → Forwarder → Step
  unfolding close send_socks4_ok connect
  recv_socks4_hostname bytes s =
      if is_utf8 bytes
      then (let done = send_socks4_ok (record s { host = hostname bytes }) in
          proceed done.0 connect done.1)
      else close s

  unfoldable pub recv_socks5_host : List ℕ → Forwarder → Step
  unfolding close
  recv_socks5_host bytes s =
      if is_utf8 bytes
      then expect (exactly 2) socks5_port (record s { host = hostname bytes })
      else close s

  -- `self._recv_handler(data)`
  unfoldable pub dispatch : Handler → List ℕ → Forwarder → Step
  dispatch idle bytes s = returns s
  dispatch version bytes s = recv_version bytes s
  dispatch socks4_addr bytes s = recv_socks4_addr bytes s
  dispatch socks4_user bytes s = recv_socks4_user bytes s
  dispatch socks4_hostname bytes s = recv_socks4_hostname bytes s
  dispatch socks5_authlist bytes s = recv_socks5_authlist bytes s
  dispatch socks5_command bytes s = recv_socks5_command bytes s
  dispatch socks5_addr bytes s = recv_socks5_addr bytes s
  dispatch socks5_hostlen bytes s = recv_socks5_hostlen bytes s
  dispatch socks5_host bytes s = recv_socks5_host bytes s
  dispatch socks5_port bytes s = recv_socks5_port bytes s
