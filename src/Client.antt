-- ===== src/Client.antt =====
-- client.go: the connections of the client.
pub mod Receive
pub mod Response
pub mod Rpc
pub mod Auth
pub mod Remote
pub mod Pool
pub mod Send
mod Tests
pub mod LoginTests
mod UploadsTests
mod PoolTests
