-- ===== src/Server.antt =====
-- The server: serve.go, and the server's part of auth.go.
pub mod Users
pub mod Auth
pub mod Os
pub mod Cache
pub mod Files
pub mod Dispatch
pub mod Workers
pub mod Fixtures
mod Tests
mod LifetimeTests
