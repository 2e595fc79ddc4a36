-- ===== src/Engine/Lag.antt =====
-- crates/spectre-engine/src/lagcheck.rs: the lag screen of a running game. Times are milliseconds,
-- and `crc32` stands for `crc32fast::hash`.
pub mod Limit
use ghostrs.Base.{
  ℕ, zero, suc, ◌+◌, ◌-◌, ◌/◌, ◌%◌, ◌^◌, Bool, true, false, ◌&&◌, ◌||◌, not, List, [], ◌∷◌, ◌++◌,
  Option, none, some, leb, ltb, ◌==◌, if◌then◌else◌, any, map, as_u32, text,
}
use ghostrs.Protocol.Buffer.{Bytes}
use ghostrs.Protocol.W3gs.Ids
use ghostrs.Protocol.W3gs.Outgoing.{start_lag, stop_lag, incoming_action}
use ghostrs.Engine.Players.{Player, PlayerTable, filter}
use ghostrs.Engine.State.{GameState, is_some, is_rejoining, kick_player}
use ghostrs.Engine.Announce.{broadcast_ok, broadcast_some}

abbrev pub is_watched : Player → Bool
is_watched p =
    not p.virtual_host
    && (not (is_some p.left)
        && (not (is_rejoining p.rejoin) && (not (is_some p.catchup_cursor) && not p.catching_up)))

-- `t.elapsed().as_millis() as u32`, or 0.
abbrev pub elapsed_ms : ℕ → Option ℕ → ℕ
elapsed_ms now none = 0
elapsed_ms now (some t) = as_u32 (now - t)

-- The two lists that the loop fills: pids with a time.
pub record Noticed : Type 0 where
  pub newly_lagging : List (ℕ × ℕ)
  pub recovered : List (ℕ × ℕ)

abbrev pub stops : ℕ → Player → Player
stops now p = record p { lagging = false; started_lagging = none }

abbrev pub starts : ℕ → Player → Player
starts now p = record p { lagging = true; started_lagging = some now }

-- One player in the loop, `behind` by so many turns.
abbrev pub judge_lag : ℕ → ℕ → ℕ → Player → Player
judge_lag now limit behind p =
    if p.lagging
    then (if ltb behind (limit / 2) then stops now p else p)
    else (if ltb limit behind then starts now p else p)

unfoldable pub lag_player : ℕ → ℕ → ℕ → Player → Player
lag_player now limit game_sync p =
    if is_watched p then judge_lag now limit (game_sync - p.sync_counter) p else p

-- Who is in the lists, read off the players before the loop.
abbrev pub has_recovered : ℕ → ℕ → Player → Bool
has_recovered limit game_sync p =
    is_watched p && (p.lagging && ltb (game_sync - p.sync_counter) (limit / 2))

abbrev pub has_started : ℕ → ℕ → Player → Bool
has_started limit game_sync p =
    is_watched p && (not p.lagging && ltb limit (game_sync - p.sync_counter))

unfoldable pub notices : ℕ → ℕ → ℕ → PlayerTable → Noticed
notices now limit game_sync [] = record { newly_lagging = []; recovered = [] }
notices now limit game_sync (p ∷ players) =
    let rest = notices now limit game_sync players in
    record {
      newly_lagging =
          (if has_started limit game_sync p then (p.pid, 0) ∷ [] else []) ++ rest.newly_lagging;
      recovered =
          (if has_recovered limit game_sync p
            then (p.pid, elapsed_ms now p.started_lagging) ∷ []
            else [])
          ++ rest.recovered;
    }

-- `for (pid, lag_ms) in … { self.broadcast(stop_lag(pid, lag_ms)) }`.
unfoldable pub tell_stopped : ℕ → List (ℕ × ℕ) → GameState → GameState
tell_stopped now [] st = st
tell_stopped now ((pid, lag_ms) ∷ rest) st =
    tell_stopped now rest (broadcast_some now (stop_lag pid lag_ms) st)

abbrev pub screen_reset : ℕ → GameState → GameState
screen_reset now st = record st { last_lag_screen_reset = now }

abbrev pub raise_screen : ℕ → Bool → List (ℕ × ℕ) → GameState → GameState
raise_screen now was_lagging [] st = st
raise_screen now was_lagging (l ∷ laggers) st =
    let st' = broadcast_ok now (start_lag (l ∷ laggers)) st in
    if was_lagging then st' else screen_reset now st'

abbrev pub any_lagging : PlayerTable → Bool
any_lagging players = any (λ p. not p.virtual_host && p.lagging) players

unfoldable pub laggers_of : ℕ → PlayerTable → List (ℕ × ℕ)
laggers_of now [] = []
laggers_of now (p ∷ players) =
    let rest = laggers_of now players in
    if p.lagging && (not (is_some p.left) && not p.virtual_host)
    then (p.pid, elapsed_ms now p.started_lagging) ∷ rest
    else rest

-- The loop with what it tells the players.
abbrev pub note_lag : ℕ → GameState → GameState
note_lag now st =
    let seen = notices now st.cfg.sync_limit st.sync_counter st.players in
    raise_screen now st.lagging seen.newly_lagging (
      tell_stopped now seen.recovered
        (record st { players = map (lag_player now st.cfg.sync_limit st.sync_counter) st.players }))

abbrev pub set_lagging : GameState → GameState
set_lagging st = record st { lagging = any_lagging st.players }

module _ (crc32 : Bytes → ℕ) where
  abbrev pub refresh_with : ℕ → List (ℕ × ℕ) → GameState → GameState
  refresh_with now [] st = st
  refresh_with now (l ∷ laggers) st = screen_reset now (
      broadcast_ok now (start_lag (l ∷ laggers))
        (broadcast_ok now (incoming_action crc32 [] 0) (tell_stopped now (l ∷ laggers) st)))

  -- The screen that has been up for a minute is shown anew.
  abbrev pub refresh_screen : ℕ → GameState → GameState
  refresh_screen now st =
      if st.lagging && leb 60000 (now - st.last_lag_screen_reset)
      then refresh_with now (laggers_of now st.players) st
      else st

  -- The state after the call, and what it returns.
  unfoldable pub check_lag : ℕ → GameState → Bool × GameState
  check_lag now st =
      let st' = refresh_screen now (set_lagging (note_lag now st)) in (st'.lagging, st')

abbrev pub is_overdue_since : ℕ → ℕ → Option ℕ → Bool
is_overdue_since now max_lag none = false
is_overdue_since now max_lag (some t) = leb max_lag (now - t)

abbrev pub is_overdue : ℕ → ℕ → Player → Bool
is_overdue now max_lag p =
    is_watched p
    && (p.lagging
        && (not (is_some p.disconnected_since) && is_overdue_since now max_lag p.started_lagging))

-- `{}` of a number.
unfoldable pub decimal : ℕ → ℕ → Bytes
decimal zero n = []
decimal (suc fuel) n =
    let rest = decimal fuel (n / 10) in
    if ltb n 10 then (48 + n) ∷ [] else rest ++ (48 + n % 10) ∷ []

unfoldable pub kick_all : Bytes → PlayerTable → GameState → GameState
kick_all reason [] st = st
kick_all reason (p ∷ to_drop) st =
    kick_all reason to_drop (kick_player p.pid reason Ids.playerleave_disconnect st)

-- `max_lag` in milliseconds; the text counts whole seconds.
unfoldable pub drop_lagging_players : ℕ → ℕ → GameState → GameState
drop_lagging_players now max_lag st =
    let secs = decimal (max_lag / 1000 + 1) (max_lag / 1000) in
    kick_all (text "was dropped after lagging for " ++ secs ++ text "s")
      (filter (is_overdue now max_lag) st.players) st
