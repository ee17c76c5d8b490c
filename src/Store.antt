-- ===== src/Store.antt =====
-- The crate zetmq-store: streams of messages and their consumers.
pub mod Word
pub mod Stream
pub mod Memory
pub mod Consumer
pub mod Segment
