-- ===== src/Socks.antt =====
-- The SOCKS proxy protocol: asyncssh/socks.py, class SSHSOCKSForwarder. Machine has the state and its
-- methods, Receive the method data_received; the other modules prove.
pub mod Machine
pub mod Receive
mod Rules
mod Advances
mod Steps
pub mod Handshake
pub mod Termination
pub mod Destinations
mod Runs
