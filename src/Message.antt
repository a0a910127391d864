-- ===== src/Message.antt =====
-- The package `message`: message/message.go, message/implement.go and message/interface.go.
pub mod Types
pub mod Header
pub mod Reader
pub mod Fixtures
mod Tests
