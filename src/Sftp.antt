-- ===== src/Sftp.antt =====
-- The SFTP protocol: asyncssh/sftp.py.
pub mod Parallel
pub mod Multiplex
pub mod Attrs
pub mod Status
