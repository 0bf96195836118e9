-- ===== src/Socks/Runs.antt =====
-- Handshakes at concrete inputs.
use asyncssh.Base.{ℕ, List, ◌++◌, ◌≡◌, ◌≢◌, refl, Bool, true, [], ◌∷◌, ltb, ◌&&◌, err, Error}
use asyncssh.Socks.Machine.{
  Step, connected, socks5_addr_len, address, hostname, socks4_ok_response, idle, exactly, until_nul,
  returns,
}
use asyncssh.Socks.Receive.{data_received}
use asyncssh.Socks.Handshake.{greeted, socks4_connect, socks5_connect, socks5_refused}
use asyncssh.Socks.Destinations.{socks4_hostname_connect, socks5_address_connect}
use asyncssh.Socks.Termination.{data_received_ends}

-- A decoder of ASCII.
abbrev is_ascii : List ℕ → Bool
is_ascii [] = true
is_ascii (b ∷ bs) = ltb b 128 && is_ascii bs

-- Port 80 of 10.0.0.1 for the user "me", and two bytes for the peer.
socks4_connect_example :
    data_received is_ascii (4 ∷ 1 ∷ 0 ∷ 80 ∷ 10 ∷ 0 ∷ 0 ∷ 1 ∷ 109 ∷ 101 ∷ 0 ∷ 7 ∷ 8 ∷ []) connected
    ≡ returns (record connected {
      inpbuf = 7 ∷ 8 ∷ [];
      bytes_needed = until_nul;
      recv_handler = idle;
      host = address (10 ∷ 0 ∷ 0 ∷ 1 ∷ []);
      port = 80;
      written = socks4_ok_response;
      forwarded = (address (10 ∷ 0 ∷ 0 ∷ 1 ∷ []), 80) ∷ [];
    })
socks4_connect_example =
    socks4_connect is_ascii 0 80 10 0 0 1 (109 ∷ 101 ∷ []) (7 ∷ 8 ∷ []) refl refl

-- Port 443 of "ab", with the methods 2 and 0.
socks5_connect_example :
    let request : List ℕ = 5 ∷ 1 ∷ 0 ∷ 3 ∷ 2 ∷ 97 ∷ 98 ∷ 1 ∷ 187 ∷ 9 ∷ [] in
    let done : Step = returns (record connected {
      inpbuf = 9 ∷ [];
      bytes_needed = exactly 2;
      recv_handler = idle;
      addrtype = 1;
      host = hostname (97 ∷ 98 ∷ []);
      port = 443;
      written = 5 ∷ 0 ∷ 5 ∷ 0 ∷ 0 ∷ 1 ∷ 0 ∷ 0 ∷ 0 ∷ 0 ∷ 0 ∷ 0 ∷ [];
      forwarded = (hostname (97 ∷ 98 ∷ []), 443) ∷ [];
    }) in
    (data_received is_ascii ((5 ∷ 2 ∷ 2 ∷ 0 ∷ []) ++ request) connected ≡ done)
    × (data_received is_ascii (5 ∷ 2 ∷ 2 ∷ 0 ∷ []) connected ≡ returns (greeted []))
    × (data_received is_ascii request (greeted []) ≡ done)
socks5_connect_example =
    socks5_connect is_ascii 2 2 1 187 (2 ∷ 0 ∷ []) (97 ∷ 98 ∷ []) (9 ∷ []) refl refl refl refl

data_received_ends_example :
    (data_received is_ascii (5 ∷ 1 ∷ 2 ∷ 0 ∷ []) connected).0 ≢ err Error.out_of_fuel
data_received_ends_example = data_received_ends is_ascii refl (5 ∷ 1 ∷ 2 ∷ 0 ∷ []) connected

socks5_refused_example :
    (data_received is_ascii (5 ∷ 1 ∷ 2 ∷ 4 ∷ 6 ∷ []) connected).0 ≡ err Error.assertion_error
socks5_refused_example = socks5_refused is_ascii 1 (2 ∷ []) (4 ∷ []) (6 ∷ []) refl refl refl

-- Port 22 of "h" by the address 0.0.0.1, for a user with no name.
socks4_hostname_connect_example :
    data_received is_ascii (4 ∷ 1 ∷ 0 ∷ 22 ∷ 0 ∷ 0 ∷ 0 ∷ 1 ∷ 0 ∷ 104 ∷ 0 ∷ 5 ∷ []) connected
    ≡ returns (record connected {
      inpbuf = 5 ∷ [];
      bytes_needed = until_nul;
      recv_handler = idle;
      host = hostname (104 ∷ []);
      port = 22;
      written = socks4_ok_response;
      forwarded = (hostname (104 ∷ []), 22) ∷ [];
    })
socks4_hostname_connect_example =
    socks4_hostname_connect is_ascii 0 22 1 [] (104 ∷ []) (5 ∷ []) refl refl refl refl

-- Port 22 of 10.0.0.9.
socks5_address_connect_example :
    let request : List ℕ = 5 ∷ 1 ∷ 0 ∷ 1 ∷ 10 ∷ 0 ∷ 0 ∷ 9 ∷ 0 ∷ 22 ∷ [] in
    let done : Step = returns (record connected {
      inpbuf = [];
      bytes_needed = exactly 2;
      recv_handler = idle;
      addrtype = 1;
      host = address (10 ∷ 0 ∷ 0 ∷ 9 ∷ []);
      port = 22;
      written = 5 ∷ 0 ∷ 5 ∷ 0 ∷ 0 ∷ 1 ∷ 0 ∷ 0 ∷ 0 ∷ 0 ∷ 0 ∷ 0 ∷ [];
      forwarded = (address (10 ∷ 0 ∷ 0 ∷ 9 ∷ []), 22) ∷ [];
    }) in
    (data_received is_ascii ((5 ∷ 1 ∷ 0 ∷ []) ++ request) connected ≡ done)
    × (data_received is_ascii (5 ∷ 1 ∷ 0 ∷ []) connected ≡ returns (greeted []))
    × (data_received is_ascii request (greeted []) ≡ done)
unfolding socks5_addr_len
socks5_address_connect_example =
    socks5_address_connect is_ascii 1 1 4 0 22 (0 ∷ []) (10 ∷ 0 ∷ 0 ∷ 9 ∷ []) [] refl refl refl refl
