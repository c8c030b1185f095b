-- ===== src/Common.antt =====
-- ghost-common: addresses, frames, and the padding and fragmentation of stealth.rs.
pub mod Config
pub mod Types
pub mod Addr
pub mod Frame
