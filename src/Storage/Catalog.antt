-- ===== src/Storage/Catalog.antt =====
-- pkg/storage/catalog.go: the consumer offsets of a topic.
pub mod Consumers
pub mod File
mod Tests
