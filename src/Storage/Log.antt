-- ===== src/Storage/Log.antt =====
-- pkg/storage/log.go: the append-only log.
pub mod Writer
pub mod Segments
pub mod Messages
pub mod Offsets
mod Tests
