-- ===== src/Storage/Index.antt =====
-- pkg/storage/index.go: the sparse index of a topic.
pub mod Entries
pub mod File
pub mod Rebuild
mod Tests
