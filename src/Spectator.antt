-- ===== src/Spectator.antt =====
-- crates/spectre-spectator/src: the replays that spectators are sent.
pub mod Body
