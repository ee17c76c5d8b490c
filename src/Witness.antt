-- ===== src/Witness.antt =====
-- The theorems at work on concrete inputs.
mod Data
mod Routing
mod Brokers
mod Streams
mod Frames
mod Permissions
mod Segments
mod Payloads
mod Sessions
mod Clients
