-- ===== src/Protocol/W3gs.antt =====
-- crates/spectre-protocol/src/w3gs: the packets between the host and the game clients.
pub mod Ids
pub mod Slot
pub mod Incoming
pub mod Outgoing
