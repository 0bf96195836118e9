-- ===== src/Connection/Types.antt =====
-- The state of an SSH connection, as far as packets, key exchange and authentication are concerned.
use asyncssh.Base.{ℕ, Bool, true, false, Option, none, some, List, Result, ok, err, Error}

-- What the transport calls of other modules and of the system: an Encryption object of encryption.py, a
-- Compressor and a Decompressor, each an object whose state changes with a call, and `os.urandom`, which is
-- told how often it was called before.
pub record World : Type 1 where
  pub Cipher : Type 0
  pub Stream : Type 0
  -- sequence number, header, packet; the encrypted packet and the MAC
  pub encrypt_packet : Cipher → ℕ → List ℕ → List ℕ → (List ℕ × List ℕ) × Cipher
  -- sequence number, first block, header length; the first block and the header
  pub decrypt_header : Cipher → ℕ → List ℕ → ℕ → (List ℕ × List ℕ) × Cipher
  -- sequence number, first block, rest, header length, MAC
  pub decrypt_packet : Cipher → ℕ → List ℕ → List ℕ → ℕ → List ℕ → Option (List ℕ) × Cipher
  pub compress : Stream → List ℕ → Option (List ℕ) × Stream
  pub decompress : Stream → List ℕ → Option (List ℕ) × Stream
  pub urandom : ℕ → ℕ → List ℕ

-- The values of `_recv_handler`; `blocked` is the function that `_recv_packet` puts there while a task
-- processes a packet.
pub data Handler : Type 0 where
  version pkthdr packet blocked : Handler

-- Whose `process_packet` a packet is handed to.
pub data Target : Type 0 where
  self kex auth : Target
  channel : ℕ → Target

-- The values of `_wait`, where None is `nothing`; a waiter that has been cancelled counts as none.
pub data Wait : Type 0 where
  nothing for_kex for_auth for_auth_methods : Wait

-- The fields `_send_...`, `_compressor` and `_compress_after_auth`; `written` is what the transport was given,
-- `draws` counts the calls of `urandom`.
pub record Sending (w : World) : Type 0 where
  pub seq : ℕ
  pub encryption : Option w.Cipher
  pub enchdrlen : ℕ
  pub blocksize : ℕ
  pub compressor : Option w.Stream
  pub compress_after_auth : Bool
  pub written : List ℕ
  pub draws : ℕ

-- The keys of one direction: `_recv_encryption` to `_decompress_after_auth`, or `_next_recv_encryption` to
-- `_next_decompress_after_auth`.
pub record Keys (w : World) : Type 0 where
  pub encryption : Option w.Cipher
  pub blocksize : ℕ
  pub macsize : ℕ
  pub decompressor : Option w.Stream
  pub decompress_after_auth : Bool

-- `_inpbuf`, `_packet`, `_pktlen`, `_recv_handler` and `_recv_seq`, with the keys.
pub record Receiving (w : World) : Type 0 where
  pub inpbuf : List ℕ
  pub packet : List ℕ
  pub pktlen : ℕ
  pub handler : Handler
  pub seq : ℕ
  pub keys : Keys w

-- A packet that waits in `_deferred_packets`: its type and the arguments of `send_packet`.
abbrev pub Deferred : Type 0
Deferred = ℕ × List (List ℕ)

-- The algorithms that the connection offers, with those that `_get_extra_kex_algs` adds.
pub record Offer : Type 0 where
  pub kex_algs : List (List ℕ)
  pub host_key_algs : List (List ℕ)
  pub enc_algs : List (List ℕ)
  pub mac_algs : List (List ℕ)
  pub cmp_algs : List (List ℕ)

pub record Connection (w : World) : Type 0 where
  pub is_server : Bool
  -- `_transport is not None`
  pub has_transport : Bool
  pub send : Sending w
  pub recv : Receiving w
  pub next_keys : Keys w
  pub deferred_packets : List Deferred
  pub offer : Offer
  pub banner_lines : ℕ
  pub wait : Wait
  pub version : List ℕ
  pub client_version : List ℕ
  pub server_version : List ℕ
  pub client_kexinit : List ℕ
  pub server_kexinit : List ℕ
  pub session_id : List ℕ
  -- `_kex is not None`
  pub has_kex : Bool
  pub kexinit_sent : Bool
  pub kex_complete : Bool
  pub ignore_first_kex : Bool
  pub strict_kex : Bool
  pub rekey_bytes : ℕ
  pub rekey_seconds : ℕ
  pub rekey_bytes_sent : ℕ
  pub rekey_time : ℕ
  -- what `time.monotonic()` reads at each moment; every call of `send_packet` and of `_send_kexinit` is one
  pub clock : ℕ → ℕ
  pub moment : ℕ
  pub can_send_ext_info : Bool
  pub can_recv_ext_info : Bool
  pub extensions_to_send : List (List ℕ × List ℕ)
  pub next_service : Option (List ℕ)
  -- `_auth is not None`
  pub has_auth : Bool
  pub auth_in_progress : Bool
  pub auth_complete : Bool
  pub auth_final : Bool
  -- the keys of `_channels`
  pub channels : List ℕ
  pub next_recv_chan : ℕ
  -- the packets that were logged as sent, and the calls of `process_packet`, in order
  pub sent : List ℕ
  pub delivered : List (Target × ℕ)
  -- `_cleanup` has been handed to `call_soon`, with this exception
  pub cleanup_scheduled : Option (Option Error)

-- A method returns, or raises, and leaves a state in both cases.
abbrev pub Step : World → Type 0
Step w = Result (Unit {0}) × Connection w

-- A call whose result the next statements use.
abbrev pub using : {S A B : Type 0} → Result A → (A → S → Result B × S) → S → Result B × S
using (ok a) f s = f a s
using (err e) f s = (err e, s)

module _ {w : World} where
  abbrev pub returns : Connection w → Step w
  returns c = (ok tt, c)

  abbrev pub raises : Error → Connection w → Step w
  raises e c = (err e, c)

  infixl 5 ◌then_◌
  abbrev pub ◌then_◌ : Step w → (Connection w → Step w) → Step w
  s then_ f = using s.0 (λ u c. f c) s.1

abbrev pub is_some : {A : Type 0} → Option A → Bool
is_some none = false
is_some (some a) = true
