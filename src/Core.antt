-- ===== src/Core.antt =====
pub mod Subject
pub mod Pattern
pub mod Trie
pub mod Engine
pub mod Registry
pub mod Delivery
pub mod Metrics
pub mod QueueGroup
pub mod Broker
