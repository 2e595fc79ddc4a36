-- ===== src/Engine/Catchup.antt =====
-- `pump_rejoin_catchup` of crates/spectre-engine/src/state.rs: the history of a game for a client that
-- came back with none of it. `now` is what `Instant::now()` reads.
pub mod Loop
pub mod Progress
pub mod Order
pub mod Ends
pub mod Drops
pub mod Reaches
use ghostrs.Base.{
  ℕ, ◌+◌, Bool, true, false, ◌&&◌, not, List, [], ◌∷◌, Option, none, some, leb, ltb, if◌then◌else◌,
  map, text,
}
use ghostrs.Protocol.Buffer.{Bytes}
use ghostrs.Engine.Link.{PlayerLink, LinkError, backpressure, closed, Sent, delivered, failed}
use ghostrs.Engine.Link.{try_send}
use ghostrs.Engine.History.{FullHistory, first_seq, next_seq, snapshot_from_seq}
use ghostrs.Engine.Players.{Player}
use ghostrs.Engine.State.{GameState, is_some}

-- The arm of `LinkError::Closed`.
abbrev pub hang_up : ℕ → Player → Player
hang_up now p =
    if p.gproxy && not (is_some p.disconnected_since)
    then record p { disconnected_since = some now; catchup_cursor = none }
    else record p { left = some (text "connection closed during catch-up"); catchup_cursor = none }

-- The arms of the `match` on `try_send`; `go` is the rest of the loop.
abbrev pub on_sent : ℕ → ℕ → Player → (Player → ℕ × Player) → Sent × PlayerLink → ℕ × Player
on_sent now cur p go (delivered, link) =
    go (record p { link = link; consecutive_send_failures = 0 })
on_sent now cur p go (failed backpressure, link) = (cur, record p { link = link })
on_sent now cur p go (failed closed, link) = (cur, hang_up now (record p { link = link }))

-- `for pkt in pending`, with `cur`: the cursor and the player behind the loop.
unfoldable pub pump_loop : ℕ → List Bytes → ℕ → Player → ℕ × Player
pump_loop now [] cur p = (cur, p)
pump_loop now (pkt ∷ pending) cur p =
    on_sent now cur p (pump_loop now pending (cur + 1)) (try_send p.link pkt)

-- The writes behind the loop.
abbrev pub settle_cursor : ℕ → ℕ × Player → Player
settle_cursor next (cur, p) =
    if is_some p.catchup_cursor
    then (if leb next cur
        then record p { catchup_cursor = none; catching_up = true }
        else record p { catchup_cursor = some cur })
    else p

abbrev pub pump_from : ℕ → FullHistory → Player → Option ℕ → Player
pump_from now h p none = p
pump_from now h p (some cursor) =
    if is_some p.left
    then record p { catchup_cursor = none }
    else if ltb cursor (first_seq h)
    then record p {
      left = some (text "catch-up fell behind history eviction");
      catchup_cursor = none;
    }
    else settle_cursor (next_seq h) (pump_loop now (snapshot_from_seq h cursor) cursor p)

-- One player in the loop.
unfoldable pub pump_player : ℕ → FullHistory → Player → Player
pump_player now h p = pump_from now h p p.catchup_cursor

unfoldable pub pump_rejoin_catchup : ℕ → GameState → GameState
pump_rejoin_catchup now st = record st {
  players = map (pump_player now st.full_history) st.players;
}
