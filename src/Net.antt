-- ===== src/Net.antt =====
-- crates/spectre-net.
pub mod Conn
