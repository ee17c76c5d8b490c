-- ===== src/Server.antt =====
-- The crate zetmq-server.
pub mod Auth
pub mod Config
pub mod Login
pub mod StoreManager
pub mod Outbound
pub mod Dispatcher
pub mod Session
pub mod EmptyStores
pub mod Idle
