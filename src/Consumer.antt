-- ===== src/Consumer.antt =====
-- pkg/queue/consumer.go: a consumer with its channels, over the queue.
pub mod State
pub mod Polling
pub mod Loop
pub mod Lifecycle
mod Tests
