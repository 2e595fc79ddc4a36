-- ===== src/Engine/Gproxy.antt =====
-- crates/spectre-engine/src/gproxy.rs: the packets kept for a client that may come back.
pub mod Replay
pub mod Reconnect
pub mod Handlers
pub mod Reaper
use ghostrs.Base.{
  ℕ, ◌+◌, ◌-◌, ◌/◌, ◌%◌, ◌^◌, List, [], ◌∷◌, ◌++◌, Option, none, some, Bool, true, false, ◌||◌, ltb,
  leb, ◌==◌, if◌then◌else◌, length, drop, as_u32, as_u8, min,
}
use ghostrs.Protocol.Buffer.{Bytes}
use ghostrs.Engine.Players.{GProxyBuffer}

pub new : ℕ → GProxyBuffer
new capacity = record { capacity = capacity; first_packet_id = 0; packets = [] }

-- `pop_front` is `drop 1`; the u32 id wraps (a debug build panics there).
pub push : GProxyBuffer → Bytes → GProxyBuffer
push b packet =
    if length b.packets == b.capacity
    then record b {
      first_packet_id = as_u32 (b.first_packet_id + 1);
      packets = drop 1 b.packets ++ packet ∷ [];
    }
    else record b { packets = b.packets ++ packet ∷ [] }

pub total_sent : GProxyBuffer → ℕ
total_sent b = as_u32 (b.first_packet_id + as_u32 (length b.packets))

pub replay_from : GProxyBuffer → ℕ → Option (List Bytes)
replay_from b last_received =
    if ltb (total_sent b) last_received || ltb last_received b.first_packet_id
    then none
    else some (drop (last_received - b.first_packet_id) b.packets)

-- `gproxy_empty_actions`, of the configured wait in seconds.
pub gproxy_empty_actions : ℕ → ℕ
gproxy_empty_actions secs =
    let mins = if leb 60 secs then secs / 60 else secs in
    if secs == 0 then 0 else as_u8 (min (mins - 1) 9)

-- A game's packets in order.
unfoldable pub push_all : GProxyBuffer → List Bytes → GProxyBuffer
push_all b [] = b
push_all b (p ∷ ps) = push_all (push b p) ps
