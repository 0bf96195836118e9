-- ===== src/Connection/Objects.antt =====
-- The encryption objects of encryption.py as those that a connection calls.
use asyncssh.Base.{ℕ, ◌≡◌, List, length, Option, some}
use asyncssh.Encryption.Shims.{
  Primitives, Encryption, encrypt_packet, decrypt_header, decrypt_packet,
}
use asyncssh.Encryption.Opening.{CipherLaws, Paired, opens}
use asyncssh.Connection.Types.{World}
use asyncssh.Connection.Framing.{Laws}

-- Compression and randomness: zlib and the operating system.
pub record System : Type 1 where
  pub Stream : Type 0
  pub compress : Stream → List ℕ → Option (List ℕ) × Stream
  pub decompress : Stream → List ℕ → Option (List ℕ) × Stream
  pub urandom : ℕ → ℕ → List ℕ

-- What is relied on of them.
pub record SystemLaws (y : System) : Type 1 where
  pub InStep : y.Stream → y.Stream → Type 0
  pub inflates :
      (z u : y.Stream) (plain packed : List ℕ)
      → InStep z u
      → (y.compress z plain).0 ≡ some packed
      → ((y.decompress u packed).0 ≡ some plain)
        × InStep (y.compress z plain).1 (y.decompress u packed).1
  pub random_size : (n size : ℕ) → length (y.urandom n size) ≡ size

abbrev pub world : Primitives → System → World
world p y = record {
  Cipher = Encryption p;
  Stream = y.Stream;
  encrypt_packet = encrypt_packet p;
  decrypt_header = decrypt_header p;
  decrypt_packet = decrypt_packet p;
  compress = y.compress;
  decompress = y.decompress;
  urandom = y.urandom;
}

-- The classes keep what a connection relies on, if the ciphers and the system do.
abbrev pub world_laws :
    (p : Primitives) (y : System) → CipherLaws p → SystemLaws y → Laws (world p y)
world_laws p y ciphers system = record {
  Paired = Paired p ciphers;
  opens = λ tx rx b m e seq hdr packet pair h k aligned.
      let o = opens p ciphers seq k hdr packet pair h aligned in
      (o.size, o.mac_size, o.header, o.opened, o.paired);
  InStep = system.InStep;
  inflates = system.inflates;
  random_size = system.random_size;
}
