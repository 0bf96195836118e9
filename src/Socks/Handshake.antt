-- ===== src/Socks/Handshake.antt =====
-- Whole handshakes of a SOCKS client.
use mathlib.Core.List.{append-nil}
use asyncssh.Base.{
  sym, ℕ, suc, ◌+◌, ◌*◌, ◌≡◌, refl, ap, ◌∙◌, Bool, true, false, not, ◌||◌, List, [], ◌∷◌, ◌++◌,
  length, bytes_eq, mem, ◌==◌, ok, err, Error,
}
use asyncssh.Socks.Machine.{
  idle, socks4_addr, socks4_user, socks5_authlist, socks5_command, socks5_hostlen, socks5_host,
  socks5_port, until_nul, exactly, Forwarder, Step, returns, raises, close, connect, connected,
  socks5_addr_len, send_socks4_ok, send_socks5_ok, recv_version, recv_socks4_addr, recv_socks4_user,
  recv_socks5_authlist, recv_socks5_hostlen, recv_socks5_port, choose_address, recv_socks5_command,
  recv_socks5_host, dispatch, address, hostname, socks4_ok_response,
}
use asyncssh.Socks.Steps.{next_input_exactly, next_input_nul, round, rounds_idle}
use asyncssh.Socks.Receive.{enough, found, next_input, is_idle, rounds, data_received}

-- A forwarder that has answered the greeting of a SOCKS 5 client that needs no authentication, with these bytes in
-- its buffer.
abbrev pub greeted : List ℕ → Forwarder
greeted bytes = record connected {
  inpbuf = bytes;
  bytes_needed = exactly 4;
  recv_handler = socks5_command;
  written = 5 ∷ 0 ∷ [];
}

module _ (is_utf8 : List ℕ → Bool) where
  -- A SOCKS 4 CONNECT request for an address other than 0.0.0.x with x not 0, with a user name free of NUL,
  -- is answered with success, opens one tunnel to that address and port, and leaves what follows it in the
  -- buffer.
  pub socks4_connect :
      (hi lo a b c d : ℕ) (user rest : List ℕ)
      → not (bytes_eq (a ∷ b ∷ c ∷ []) (0 ∷ 0 ∷ 0 ∷ [])) || d == 0 ≡ true
      → mem 0 user ≡ false
      → data_received is_utf8 (4 ∷ 1 ∷ hi ∷ lo ∷ a ∷ b ∷ c ∷ d ∷ user ++ 0 ∷ rest) connected
        ≡ returns (record connected {
          inpbuf = rest;
          bytes_needed = until_nul;
          recv_handler = idle;
          host = address (a ∷ b ∷ c ∷ d ∷ []);
          port = hi * 256 + lo;
          written = socks4_ok_response;
          forwarded = (address (a ∷ b ∷ c ∷ d ∷ []), hi * 256 + lo) ∷ [];
        })
  unfolding data_received dispatch recv_version recv_socks4_addr recv_socks4_user send_socks4_ok
      connect
  socks4_connect hi lo a b c d user rest named h =
      let s0 : Forwarder = record connected {
        inpbuf = 4 ∷ 1 ∷ hi ∷ lo ∷ a ∷ b ∷ c ∷ d ∷ user ++ 0 ∷ rest;
      } in
      let s1 : Forwarder = record s0 {
        inpbuf = hi ∷ lo ∷ a ∷ b ∷ c ∷ d ∷ user ++ 0 ∷ rest;
        bytes_needed = exactly 6;
        recv_handler = socks4_addr;
      } in
      let s2 : Forwarder = record s1 {
        inpbuf = user ++ 0 ∷ rest;
        bytes_needed = until_nul;
        recv_handler = socks4_user;
        host = address (a ∷ b ∷ c ∷ d ∷ []);
        port = hi * 256 + lo;
      } in
      round is_utf8 _ s0 s1 (4 ∷ 1 ∷ []) s1.inpbuf refl (next_input_exactly 2 (4 ∷ 1 ∷ []) _ refl)
        refl
      ∙ round is_utf8 _ s1 s2 (hi ∷ lo ∷ a ∷ b ∷ c ∷ d ∷ []) s2.inpbuf refl
          (next_input_exactly 6 (hi ∷ lo ∷ a ∷ b ∷ c ∷ d ∷ []) _ refl) (rw (named) refl)
      ∙ round is_utf8 _ s2 _ user rest refl (next_input_nul user rest h) refl
      ∙ rounds_idle is_utf8 _ _ refl

  -- The greeting of a SOCKS 5 client is read and answered.
  pub socks5_greeting :
      (k n : ℕ) (methods after : List ℕ)
      → length methods ≡ n
      → mem 0 methods ≡ true
      → rounds is_utf8 (suc (suc k)) (record connected { inpbuf = 5 ∷ n ∷ methods ++ after })
        ≡ rounds is_utf8 k (greeted after)
  unfolding dispatch recv_version recv_socks5_authlist
  socks5_greeting k n methods after lm auth =
      let s0 : Forwarder = record connected { inpbuf = 5 ∷ n ∷ methods ++ after } in
      let s1 : Forwarder = record s0 {
        inpbuf = methods ++ after;
        bytes_needed = exactly n;
        recv_handler = socks5_authlist;
      } in
      round is_utf8 _ s0 s1 (5 ∷ n ∷ []) s1.inpbuf refl (next_input_exactly 2 (5 ∷ n ∷ []) _ refl)
        refl
      ∙ round is_utf8 _ s1 (greeted after) methods after refl
          (next_input_exactly n methods after lm) (rw (auth) refl)

  rounds-greeted : (k : ℕ) → rounds is_utf8 (suc k) (greeted []) ≡ returns (greeted [])
  unfolding rounds next_input
  rounds-greeted k = refl

  pub data_received-greeted :
      (n : ℕ) (methods : List ℕ)
      → length methods ≡ n
      → mem 0 methods ≡ true
      → data_received is_utf8 (5 ∷ n ∷ methods) connected ≡ returns (greeted [])
  unfolding data_received
  data_received-greeted n methods lm auth =
      ap
        (λ bytes.
          rounds is_utf8 (enough (length (5 ∷ n ∷ methods)))
            (record connected { inpbuf = 5 ∷ n ∷ bytes }))
        (sym (append-nil methods))
      ∙ socks5_greeting _ n methods [] lm auth
      ∙ rounds-greeted _

  hostname_request :
      (k m hi lo : ℕ) (name rest : List ℕ)
      → length name ≡ m
      → is_utf8 name ≡ true
      → rounds is_utf8
          (suc (suc (suc (suc (suc k)))))
          (greeted (5 ∷ 1 ∷ 0 ∷ 3 ∷ m ∷ name ++ hi ∷ lo ∷ rest))
        ≡ returns (record connected {
          inpbuf = rest;
          bytes_needed = exactly 2;
          recv_handler = idle;
          addrtype = 1;
          host = hostname name;
          port = hi * 256 + lo;
          written = 5 ∷ 0 ∷ 5 ∷ 0 ∷ 0 ∷ 1 ∷ 0 ∷ 0 ∷ 0 ∷ 0 ∷ 0 ∷ 0 ∷ [];
          forwarded = (hostname name, hi * 256 + lo) ∷ [];
        })
  unfolding dispatch recv_socks5_command choose_address recv_socks5_hostlen recv_socks5_host
      recv_socks5_port send_socks5_ok socks5_addr_len connect
  hostname_request k m hi lo name rest ln valid =
      let s2 : Forwarder = greeted (5 ∷ 1 ∷ 0 ∷ 3 ∷ m ∷ name ++ hi ∷ lo ∷ rest) in
      let s3 : Forwarder = record s2 {
        inpbuf = m ∷ name ++ hi ∷ lo ∷ rest;
        bytes_needed = exactly 1;
        recv_handler = socks5_hostlen;
        addrtype = 1;
      } in
      let s4 : Forwarder = record s3 {
        inpbuf = name ++ hi ∷ lo ∷ rest;
        bytes_needed = exactly m;
        recv_handler = socks5_host;
      } in
      let s5 : Forwarder = record s4 {
        inpbuf = hi ∷ lo ∷ rest;
        bytes_needed = exactly 2;
        recv_handler = socks5_port;
        host = hostname name;
      } in
      round is_utf8 _ s2 s3 (5 ∷ 1 ∷ 0 ∷ 3 ∷ []) s3.inpbuf refl
        (next_input_exactly 4 (5 ∷ 1 ∷ 0 ∷ 3 ∷ []) _ refl) refl
      ∙ round is_utf8 _ s3 s4 (m ∷ []) s4.inpbuf refl (next_input_exactly 1 (m ∷ []) _ refl) refl
      ∙ round is_utf8 _ s4 s5 name s5.inpbuf refl (next_input_exactly m name s5.inpbuf ln)
          (rw (valid) refl)
      ∙ round is_utf8 _ s5 _ (hi ∷ lo ∷ []) rest refl (next_input_exactly 2 (hi ∷ lo ∷ []) _ refl)
          refl
      ∙ rounds_idle is_utf8 _ _ refl

  -- A SOCKS 5 client offers no authentication among its methods and asks to connect to a host name that is UTF-8.
  -- If both messages arrive in one call of data_received, both are answered, one tunnel is opened to that host and
  -- port, and what follows is left in the buffer. If the greeting arrives in a call of its own, it is answered,
  -- with all of it taken from the buffer, and the call with the request comes to the same state.
  pub socks5_connect :
      (n m hi lo : ℕ) (methods name rest : List ℕ)
      → length methods ≡ n
      → mem 0 methods ≡ true
      → length name ≡ m
      → is_utf8 name ≡ true
      → let request = 5 ∷ 1 ∷ 0 ∷ 3 ∷ m ∷ name ++ hi ∷ lo ∷ rest in
        let done : Step = returns (record connected {
          inpbuf = rest;
          bytes_needed = exactly 2;
          recv_handler = idle;
          addrtype = 1;
          host = hostname name;
          port = hi * 256 + lo;
          written = 5 ∷ 0 ∷ 5 ∷ 0 ∷ 0 ∷ 1 ∷ 0 ∷ 0 ∷ 0 ∷ 0 ∷ 0 ∷ 0 ∷ [];
          forwarded = (hostname name, hi * 256 + lo) ∷ [];
        }) in
        (data_received is_utf8 (5 ∷ n ∷ methods ++ request) connected ≡ done)
        × (data_received is_utf8 (5 ∷ n ∷ methods) connected ≡ returns (greeted []))
        × (data_received is_utf8 request (greeted []) ≡ done)
  unfolding data_received
  socks5_connect n m hi lo methods name rest lm auth ln valid = (
    socks5_greeting _ n methods _ lm auth ∙ hostname_request _ m hi lo name rest ln valid,
    data_received-greeted n methods lm auth,
    hostname_request _ m hi lo name rest ln valid,
  )

  round_raises :
      (n : ℕ) (s t : Forwarder) (e : Error) (bytes rest : List ℕ)
      → is_idle s.recv_handler ≡ false
      → next_input s.bytes_needed s.inpbuf ≡ found bytes rest
      → dispatch is_utf8 s.recv_handler bytes (record s { inpbuf = rest }) ≡ raises e t
      → rounds is_utf8 (suc n) s ≡ raises e t
  unfolding rounds
  round_raises n s t e bytes rest i f d =
      rw (i, f)
        (ap (λ x. elim x.0 as (λ r. Step) [ err e ↦ raises e x.1 | ok u ↦ rounds is_utf8 n x.1 ]) d)

  -- A client that offers no method that is accepted, and sends at least as many bytes again as it offered
  -- methods, makes `data_received` raise an AssertionError: the refused client's handler is called once more.
  pub socks5_refused :
      (n : ℕ) (methods more rest : List ℕ)
      → length methods ≡ n
      → mem 0 methods ≡ false
      → length more ≡ n
      → (data_received is_utf8 (5 ∷ n ∷ methods ++ (more ++ rest)) connected).0
        ≡ err Error.assertion_error
  unfolding data_received dispatch recv_version recv_socks5_authlist close
  socks5_refused n methods more rest lm auth lr =
      let s0 : Forwarder = record connected { inpbuf = 5 ∷ n ∷ methods ++ (more ++ rest) } in
      let s1 : Forwarder = record s0 {
        inpbuf = methods ++ (more ++ rest);
        bytes_needed = exactly n;
        recv_handler = socks5_authlist;
      } in
      let s2 : Forwarder = record s1 { inpbuf = more ++ rest; has_transport = false } in
      ap (λ x. x.0)
        (round is_utf8 _ s0 s1 (5 ∷ n ∷ []) s1.inpbuf refl
            (next_input_exactly 2 (5 ∷ n ∷ []) _ refl) refl
          ∙ round is_utf8 _ s1 s2 methods s2.inpbuf refl (next_input_exactly n methods s2.inpbuf lm)
              (rw (auth) refl)
          ∙ round_raises _ s2 _ _ more rest refl (next_input_exactly n more rest lr) refl)
