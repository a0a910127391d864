-- ===== src/Cp.antt =====
-- cp.go: the addresses of the command cp, and which way a copy goes.
pub mod Address
pub mod SshConfig
pub mod Route
pub mod Glob
pub mod Run
pub mod Walk
mod Tests
