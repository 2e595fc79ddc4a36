-- ===== src/Mpq.antt =====
-- crates/spectre-mpq/src: the reader of MPQ archives, its cipher and its two tables.
pub mod Crypt
pub mod Header
pub mod Tables
pub mod HashTable
