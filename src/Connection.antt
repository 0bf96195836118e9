-- ===== src/Connection.antt =====
-- The transport of a connection: asyncssh/connection.py, class SSHConnection. Types has the state; the other
-- modules have the methods, and prove.
pub mod Types
pub mod Send
pub mod Keys
pub mod Receive
pub mod Handlers
pub mod Dispatch
pub mod Calls
pub mod Padding
pub mod Choice
mod Cutting
pub mod Framing
pub mod RoundTrip
pub mod NewKeys
pub mod Objects
mod Rules
pub mod Guard
mod Ends
pub mod Depth
pub mod Room
pub mod Early
pub mod Toy
mod Runs
mod Reading
mod PacketRoom
mod Readers
mod Replies
mod Turns
pub mod Rounds
