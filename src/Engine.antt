-- ===== src/Engine.antt =====
-- crates/spectre-engine: the actor that runs one game.
pub mod Tick
pub mod History
pub mod Slots
pub mod Link
pub mod Players
pub mod Gproxy
pub mod Hcl
pub mod State
pub mod Broadcast
pub mod Catchup
pub mod Announce
pub mod Desync
pub mod Lag
pub mod Rejoin
pub mod Lobby
pub mod Transfer
pub mod Actions
pub mod Map
pub mod Phases
pub mod Reap
pub mod Keeps
pub mod Soundness
pub mod MapSize
pub mod OnTick
pub mod Chat
pub mod Actor
pub mod Join
pub mod Virtual
