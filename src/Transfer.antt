-- ===== src/Transfer.antt =====
-- transfer.go: how a file becomes chunks, and what a chunk becomes on the wire.
pub mod Chunk
pub mod Schedule
pub mod Goroutines
pub mod Resume
pub mod Upload
pub mod Download
mod Tests
pub mod Fixtures
mod UploadTests
mod DownloadTests
mod WorkerTests
mod GoroutineTests
