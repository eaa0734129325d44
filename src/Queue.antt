-- ===== src/Queue.antt =====
-- pkg/queue/queue.go: the registry of topics, its methods and its cleanup process.
pub mod State
pub mod Topics
pub mod Upkeep
pub mod Cleanup
pub mod Samples
mod Tests
