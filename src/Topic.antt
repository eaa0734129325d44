-- ===== src/Topic.antt =====
-- pkg/queue/topic.go: a topic owns a log, an index and a catalog.
pub mod State
pub mod Open
pub mod Messages
pub mod Upkeep
pub mod History
pub mod Samples
mod Tests
