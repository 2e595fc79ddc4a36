-- ===== src/Protocol.antt =====
-- crates/spectre-protocol: byte cursors, frames and packets.
pub mod Error
pub mod Utf8
pub mod Buffer
pub mod Frame
pub mod Gps
pub mod W3gs
pub mod DotaTv
