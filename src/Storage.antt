-- ===== src/Storage.antt =====
-- pkg/storage: the log, the index and the consumer catalog of one topic, over the directory that
-- they share.
pub mod Document
pub mod Disk
pub mod Segment
pub mod Log
pub mod Samples
pub mod Index
pub mod Catalog
