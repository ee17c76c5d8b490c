-- ===== src/Protocol.antt =====
-- The crate zetmq-protocol: frames, their headers and the commands they carry.
pub mod Error
pub mod FrameType
pub mod Header
pub mod Frame
pub mod Headers
pub mod Payload
pub mod StreamInfo
pub mod Command
