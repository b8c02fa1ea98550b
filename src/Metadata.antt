-- ===== src/Metadata.antt =====
-- metadata/metadata.go: the metadata server that virtual machines ask for their names.
pub mod Http
pub mod Handlers
pub mod Replay
pub mod Serve
mod Tests
