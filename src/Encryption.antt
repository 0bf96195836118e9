-- ===== src/Encryption.antt =====
-- Encryption objects and MACs: asyncssh/encryption.py and asyncssh/mac.py, over the cipher classes of
-- asyncssh/crypto, and these over ciphers and hashes that other packages implement.
pub mod Shims
pub mod Ciphers
pub mod Inverting
pub mod Opening
pub mod Sealing
mod Runs
