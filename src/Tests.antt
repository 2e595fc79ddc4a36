-- ===== src/Tests.antt =====
-- Concrete inputs at which the theorems' hypotheses hold.
mod Protocol
mod Packets
mod Seats
mod Engine
mod Archive
mod Rejoin
mod Transfer
mod Wire
mod Game
