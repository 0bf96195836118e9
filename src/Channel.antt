-- ===== src/Channel.antt =====
-- The data path of a channel: asyncssh/channel.py, class SSHChannel with no encoding set.
-- `Types` has the state, `Send` and `Receive` the methods of each direction, `Handlers` what the
-- owner and the peer call; the other modules prove.
pub mod Types
pub mod Send
pub mod Receive
pub mod Handlers
pub mod Stream
pub mod Rounds
pub mod Rules
pub mod Owner
pub mod Invariant
pub mod Flushing
pub mod Safety
pub mod Calls
pub mod Writing
pub mod Delivery
mod Runs
