-- ===== src/Socks/Destinations.antt =====
-- Handshakes in the other two ways of naming a destination: a name in SOCKS 4, an address in SOCKS 5.
use asyncssh.Base.{
  suc, ℕ, ◌+◌, ◌*◌, ◌≡◌, refl, ◌∙◌, arith, Bool, true, false, some, List, [], ◌∷◌, ◌++◌, length,
  replicate, mem, ◌==◌,
}
use asyncssh.Socks.Machine.{
  Step, idle, socks4_addr, socks4_user, socks4_hostname, socks5_addr, socks5_port, until_nul,
  exactly, Forwarder, returns, connect, connected, socks5_addr_len, send_socks4_ok, send_socks5_ok,
  recv_version, recv_socks4_addr, recv_socks4_user, recv_socks5_addr, recv_socks5_port,
  choose_address, recv_socks5_command, recv_socks4_hostname, dispatch, address, hostname,
  socks4_ok_response,
}
use asyncssh.Socks.Receive.{rounds, data_received}
use asyncssh.Socks.Steps.{round, rounds_idle, next_input_exactly, next_input_nul}
use asyncssh.Socks.Handshake.{greeted, socks5_greeting, data_received-greeted}

-- A type of address that has a length does not announce a name.
addr_len_no_name : (t k : ℕ) → socks5_addr_len t ≡ some k → t == 3 ≡ false
unfolding socks5_addr_len
addr_len_no_name t k h = ground arith

module _ (is_utf8 : List ℕ → Bool) where
  -- A SOCKS 4 CONNECT request for the address 0.0.0.d with d not 0, with a user name and a UTF-8 host name both
  -- free of NUL, is answered with success, opens one tunnel to that name and port, and leaves what follows it
  -- in the buffer.
  pub socks4_hostname_connect :
      (hi lo d : ℕ) (user name rest : List ℕ)
      → d == 0 ≡ false
      → mem 0 user ≡ false
      → mem 0 name ≡ false
      → is_utf8 name ≡ true
      → data_received is_utf8
          (4 ∷ 1 ∷ hi ∷ lo ∷ 0 ∷ 0 ∷ 0 ∷ d ∷ user ++ (0 ∷ name ++ (0 ∷ rest)))
          connected
        ≡ returns (record connected {
          inpbuf = rest;
          bytes_needed = until_nul;
          recv_handler = idle;
          host = hostname name;
          port = hi * 256 + lo;
          written = socks4_ok_response;
          forwarded = (hostname name, hi * 256 + lo) ∷ [];
        })
  unfolding data_received dispatch recv_version recv_socks4_addr recv_socks4_user
      recv_socks4_hostname send_socks4_ok connect
  socks4_hostname_connect hi lo d user name rest special nu nn valid =
      let after : List ℕ = name ++ (0 ∷ rest) in
      let s0 : Forwarder = record connected {
        inpbuf = 4 ∷ 1 ∷ hi ∷ lo ∷ 0 ∷ 0 ∷ 0 ∷ d ∷ user ++ (0 ∷ after);
      } in
      let s1 : Forwarder = record s0 {
        inpbuf = hi ∷ lo ∷ 0 ∷ 0 ∷ 0 ∷ d ∷ user ++ (0 ∷ after);
        bytes_needed = exactly 6;
        recv_handler = socks4_addr;
      } in
      let s2 : Forwarder = record s1 {
        inpbuf = user ++ (0 ∷ after);
        bytes_needed = until_nul;
        recv_handler = socks4_user;
        port = hi * 256 + lo;
      } in
      let s3 : Forwarder = record s2 { inpbuf = after; recv_handler = socks4_hostname } in
      round is_utf8 _ s0 s1 (4 ∷ 1 ∷ []) s1.inpbuf refl (next_input_exactly 2 (4 ∷ 1 ∷ []) _ refl)
        refl
      ∙ round is_utf8 _ s1 s2 (hi ∷ lo ∷ 0 ∷ 0 ∷ 0 ∷ d ∷ []) s2.inpbuf refl
          (next_input_exactly 6 (hi ∷ lo ∷ 0 ∷ 0 ∷ 0 ∷ d ∷ []) _ refl) (rw (special) refl)
      ∙ round is_utf8 _ s2 s3 user after refl (next_input_nul user after nu) refl
      ∙ round is_utf8 _ s3 _ name rest refl (next_input_nul name rest nn) (rw (valid) refl)
      ∙ rounds_idle is_utf8 _ _ refl

  address_request :
      (i t k hi lo : ℕ) (addr rest : List ℕ)
      → socks5_addr_len t ≡ some k
      → length addr ≡ k
      → rounds is_utf8
          (suc (suc (suc (suc i))))
          (greeted (5 ∷ 1 ∷ 0 ∷ t ∷ addr ++ (hi ∷ lo ∷ rest)))
        ≡ returns (record connected {
          inpbuf = rest;
          bytes_needed = exactly 2;
          recv_handler = idle;
          addrtype = t;
          host = address addr;
          port = hi * 256 + lo;
          written = 5 ∷ 0 ∷ 5 ∷ 0 ∷ 0 ∷ t ∷ replicate (k + 2) 0;
          forwarded = (address addr, hi * 256 + lo) ∷ [];
        })
  unfolding dispatch recv_socks5_command choose_address recv_socks5_addr recv_socks5_port
      send_socks5_ok connect
  address_request i t k hi lo addr rest known la =
      let after : List ℕ = hi ∷ lo ∷ rest in
      let s2 : Forwarder = greeted (5 ∷ 1 ∷ 0 ∷ t ∷ addr ++ after) in
      let s3 : Forwarder = record s2 {
        inpbuf = addr ++ after;
        bytes_needed = exactly k;
        recv_handler = socks5_addr;
        addrtype = t;
      } in
      let s4 : Forwarder = record s3 {
        inpbuf = after;
        bytes_needed = exactly 2;
        recv_handler = socks5_port;
        host = address addr;
      } in
      round is_utf8 _ s2 s3 (5 ∷ 1 ∷ 0 ∷ t ∷ []) s3.inpbuf refl
        (next_input_exactly 4 (5 ∷ 1 ∷ 0 ∷ t ∷ []) _ refl)
        (rw (addr_len_no_name t k known, known) refl)
      ∙ round is_utf8 _ s3 s4 addr after refl (next_input_exactly k addr after la) refl
      ∙ round is_utf8 _ s4 _ (hi ∷ lo ∷ []) rest refl (next_input_exactly 2 (hi ∷ lo ∷ []) _ refl)
          (rw (known) refl)
      ∙ rounds_idle is_utf8 _ _ refl

  -- A SOCKS 5 client offers no authentication among its methods and asks to connect to an address of one of the two
  -- types that have a length, in that many bytes. If both messages arrive in one call of data_received, both are
  -- answered, one tunnel is opened to that address and port, and what follows is left in the buffer. If the
  -- greeting arrives in a call of its own, it is answered, with all of it taken from the buffer, and the call with
  -- the request comes to the same state.
  pub socks5_address_connect :
      (n t k hi lo : ℕ) (methods addr rest : List ℕ)
      → length methods ≡ n
      → mem 0 methods ≡ true
      → socks5_addr_len t ≡ some k
      → length addr ≡ k
      → let request = 5 ∷ 1 ∷ 0 ∷ t ∷ addr ++ (hi ∷ lo ∷ rest) in
        let done : Step = returns (record connected {
          inpbuf = rest;
          bytes_needed = exactly 2;
          recv_handler = idle;
          addrtype = t;
          host = address addr;
          port = hi * 256 + lo;
          written = 5 ∷ 0 ∷ 5 ∷ 0 ∷ 0 ∷ t ∷ replicate (k + 2) 0;
          forwarded = (address addr, hi * 256 + lo) ∷ [];
        }) in
        (data_received is_utf8 (5 ∷ n ∷ methods ++ request) connected ≡ done)
        × (data_received is_utf8 (5 ∷ n ∷ methods) connected ≡ returns (greeted []))
        × (data_received is_utf8 request (greeted []) ≡ done)
  unfolding data_received
  socks5_address_connect n t k hi lo methods addr rest lm auth known la = (
    socks5_greeting is_utf8 _ n methods _ lm auth ∙ address_request _ t k hi lo addr rest known la,
    data_received-greeted is_utf8 n methods lm auth,
    address_request _ t k hi lo addr rest known la,
  )
