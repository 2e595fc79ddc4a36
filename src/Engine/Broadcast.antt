-- ===== src/Engine/Broadcast.antt =====
-- `broadcast` and `send_to` of crates/spectre-engine/src/state.rs, on the fields of `GameState` that
-- they use. `now` is what `Instant::now()` reads.
pub mod Lost
use mathlib.Core.Option
use ghostrs.Base.{
  ℕ, ◌+◌, ◌-◌, ◌^◌, Bool, true, false, ◌||◌, List, [], ◌∷◌, Option, none, some, leb, if◌then◌else◌,
  map, min, text,
}
use ghostrs.Protocol.Buffer.{Bytes}
use ghostrs.Engine.Link.{
  PlayerLink, LinkError, backpressure, closed, Sent, delivered, failed, try_send,
}
use ghostrs.Engine.State.{GameState, is_playing, is_some, is_rejoining}
use ghostrs.Engine.History
use ghostrs.Engine.Players.{
  Player, PlayerTable, GProxyBuffer, RejoinStage, normal, awaiting_map_size, awaiting_loaded,
  with_pid,
}
use ghostrs.Engine.Gproxy

abbrev pub max_consecutive_drops : ℕ
max_consecutive_drops = 100

-- `if let Some(buf) = p.gproxy_buffer.as_mut() { buf.push(..) }`.
abbrev pub record_packet : Bytes → Player → Player
record_packet bytes p = record p {
  gproxy_buffer = Option.map (λ b. Gproxy.push b bytes) p.gproxy_buffer;
}

-- The arms of the `match` on `try_send`, on the player with the link after the call.
abbrev pub settle : ℕ → Sent → Player → Player
settle now delivered p = record p { consecutive_send_failures = 0 }
settle now (failed backpressure) p =
    let failures = min (p.consecutive_send_failures + 1) (2 ^ 32 - 1) in
    let counted : Player = record p { consecutive_send_failures = failures } in
    if leb max_consecutive_drops failures
    then record counted { left = some (text "lagged out (write queue full)") }
    else counted
settle now (failed closed) p =
    if p.gproxy
    then (if is_some p.disconnected_since then p else record p { disconnected_since = some now })
    else record p { left = some (text "connection closed") }

abbrev pub transmit : ℕ → Bytes → Player → Player
transmit now bytes p =
    settle now (try_send p.link bytes).0 (record p { link = (try_send p.link bytes).1 })

-- One player in the loop of `broadcast`.
unfoldable pub offer : ℕ → Bytes → Player → Player
offer now bytes p =
    if is_some p.left || p.virtual_host
    then p
    else if is_rejoining p.rejoin || is_some p.catchup_cursor || is_some p.disconnected_since
    then record_packet bytes p
    else transmit now bytes (record_packet bytes p)

unfoldable pub broadcast : ℕ → Bytes → GameState → GameState
broadcast now bytes st = record st {
  full_history =
      if is_playing st.phase then History.push st.full_history bytes else st.full_history;
  players = map (offer now bytes) st.players;
}

-- `send_to` on the player that it finds.
unfoldable pub deliver : ℕ → Bytes → Player → Player
deliver now bytes p =
    if is_some p.left
    then p
    else if is_some p.disconnected_since
    then record_packet bytes p
    else transmit now bytes (record_packet bytes p)

unfoldable pub send_to : ℕ → ℕ → Bytes → GameState → GameState
send_to now pid bytes st = record st { players = with_pid st.players pid (deliver now bytes) }
