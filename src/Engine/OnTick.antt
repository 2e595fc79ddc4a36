-- ===== src/Engine/OnTick.antt =====
-- `on_tick` of crates/spectre-engine/src/actions.rs, with the notices of `reap_gproxy_timeouts`
-- (gproxy.rs): one tick of a game, in whichever phase it is. `none` is a panic, or a loop out of fuel.
-- The database row of a finished game is left out. `show_secs` is the text of a loading time, `crc32`
-- is `crc32fast::hash`, `order` that in which the vote of a desync reads its hash map, and `winner`
-- what the statistics report for the actions of the tick.
use ghostrs.Engine.Actions.{send_all_actions}
use ghostrs.Engine.Catchup.{pump_rejoin_catchup}
use ghostrs.Engine.Lag.{check_lag, drop_lagging_players}
use ghostrs.Engine.Reap.{reap_left_players}
use ghostrs.Engine.Transfer.{pump_downloads, digits}
use ghostrs.Engine.Desync.{check_desync, Bin}
use ghostrs.Engine.Announce.{broadcast_some, send_chat_all}
use ghostrs.Protocol.Buffer.{Bytes}
use mathlib.Core.Option
use ghostrs.Base.{
  as_u32, ◌/◌, map, as_u8, ◌*◌, any, ◌&&◌, ◌++◌, ◌==◌, ltb, length, ◌-◌, not, leb, if◌then◌else◌,
  List, text, Option, Bool, ℕ, none, some, [], ◌∷◌, true, false,
}
use ghostrs.Protocol.W3gs.Ids
use ghostrs.Protocol.W3gs.Outgoing.{ping_from_host}
use ghostrs.Engine.Gproxy.Reconnect.{reap_gproxy_timeouts, Notice, lost_connection, waiting_seconds}
use ghostrs.Engine.Players.{with_pid, PlayerTable, Player, filter}
use ghostrs.Engine.State.{
  is_in_game, is_some, GameState, GamePhase, lobby, loading, playing, over, countdown, game_over,
  relay_send,
}
use ghostrs.Engine.Phases.{begin_loading, ◌>>=◌}

abbrev pub notice_text : Notice → Bytes
notice_text (lost_connection name) =
    text "Player [" ++ name ++ text "] has lost connection but is using GProxy++ and may reconnect."
notice_text (waiting_seconds secs) =
    text "Waiting for reconnect (" ++ digits secs ++ text " seconds remain)..."

unfoldable pub say_notices : ℕ → List Notice → GameState → Option GameState
say_notices now [] st = some st
say_notices now (n ∷ notices) st = send_chat_all now (notice_text n) st >>= say_notices now notices

unfoldable pub reap_timeouts : ℕ → ℕ → GameState → Option GameState
reap_timeouts now grace st =
    let (players, notices) = reap_gproxy_timeouts now grace st.players in
    say_notices now notices (record st { players = players })

-- Before a game is live, and every five seconds.
abbrev pub is_waiting_phase : GamePhase → Bool
is_waiting_phase lobby = true
is_waiting_phase (countdown a b c) = true
is_waiting_phase loading = true
is_waiting_phase playing = false
is_waiting_phase over = false

abbrev pub ping_all : ℕ → GameState → GameState
ping_all now st =
    if is_waiting_phase st.phase && leb 5000 (now - st.last_ping_at)
    then (let st' = broadcast_some now (ping_from_host (as_u32 (now - st.created_at))) st in
        record st' { last_ping_at = now })
    else st

abbrev pub is_due : ℕ → ℕ → Option ℕ → Bool
is_due now interval none = true
is_due now interval (some t) = leb interval (now - t)

abbrev pub announce_of : ℕ → Option Bytes → GameState → Option GameState
announce_of now none st = some st
announce_of now (some msg) st =
    if ltb 0 st.announce_interval && is_due now st.announce_interval st.last_announce_time
    then Option.map (λ (st' : GameState). record st' { last_announce_time = some now })
        (send_chat_all now msg st)
    else some st

abbrev pub unwrap_or_zero : Option ℕ → ℕ
unwrap_or_zero none = 0
unwrap_or_zero (some n) = n

abbrev pub is_here : Player → Bool
is_here p = not p.virtual_host && not (is_some p.left)

abbrev pub is_reserved_here : Player → Bool
is_reserved_here p = not p.virtual_host && (p.reserved && not (is_some p.left))

abbrev pub see_reserved : ℕ → GameState → GameState
see_reserved now st =
    if any is_reserved_here st.players then record st { last_reserved_seen = now } else st

abbrev pub close_lobby : ℕ → GameState → GameState
close_lobby now st =
    if leb (st.cfg.lobby_time_limit * 60000) (now - st.last_reserved_seen)
    then record st { phase = over }
    else st

abbrev pub lobby_tick : ℕ → GameState → Option GameState
lobby_tick now st = announce_of now st.announce_message st >>= λ st'. some (
    if unwrap_or_zero st'.autostart_players == 0 && ltb 0 st'.cfg.lobby_time_limit
    then close_lobby now (see_reserved now st')
    else st')

abbrev pub countdown_steps : ℕ
countdown_steps = 10

abbrev pub step_at : ℕ → ℕ
step_at elapsed = countdown_steps - as_u8 (elapsed / 500)

abbrev pub drop_unready : Player → Player
drop_unready p =
    if not p.loaded && (not (is_some p.left) && not p.virtual_host)
    then record p {
      left = some (text "loading timed out (60s)");
      left_code = Ids.playerleave_disconnect;
    }
    else p

abbrev pub timed_out_loading : ℕ → Option ℕ → Bool
timed_out_loading now none = false
timed_out_loading now (some started) = leb 60000 (now - started)

abbrev pub sync_fake : Option ℕ → GameState → GameState
sync_fake none st = st
sync_fake (some fpid) st = record st {
  players = with_pid st.players fpid (λ p. record p { sync_counter = st.sync_counter });
}

unfoldable pub count_here : PlayerTable → ℕ
count_here players = length (filter is_here players)

abbrev pub one_left : ℕ → GameState → GameState
one_left now st =
    if count_here st.players == 1 && (ltb 1 st.start_players && not (is_some st.game_over_time))
    then record st { game_over_time = some now }
    else st

abbrev pub game_over_reason : Bytes
game_over_reason = text "was disconnected (gameover timer finished)"

abbrev pub drop_at_end : Player → Player
drop_at_end p =
    if not (is_some p.left) && not p.virtual_host
    then record p { left = some game_over_reason; left_code = Ids.playerleave_disconnect }
    else p

abbrev pub is_over_for_minute : ℕ → Option ℕ → Bool
is_over_for_minute now none = false
is_over_for_minute now (some t) = leb 60000 (now - t)

abbrev pub end_game : ℕ → GameState → GameState
end_game now st =
    if is_over_for_minute now st.game_over_time
    then record st { players = map drop_at_end st.players }
    else st

abbrev pub may_return : ℕ → ℕ → Option ℕ → Bool
may_return now wait none = false
may_return now wait (some t) = ltb (now - t) wait

abbrev pub is_reconnectable : ℕ → ℕ → Player → Bool
is_reconnectable now wait p =
    not p.virtual_host && (p.gproxy && may_return now wait p.disconnected_since)

-- Whether nobody is left, after the phase has had its tick.
abbrev pub is_deserted : ℕ → GameState → Bool
is_deserted now st =
    count_here st.players == 0
    && (not (any (is_reconnectable now st.cfg.reconnect_wait) st.players) && is_in_game st.phase)

unfoldable pub settle_end : ℕ → GameState → GameState
settle_end now st =
    if is_deserted now st
    then record st {
      phase = over;
      relay = Option.map (λ r. relay_send r game_over) st.relay;
      finished = true;
    }
    else st

module _ (show_secs : ℕ → Bytes) (crc32 : Bytes → ℕ) (order : List Bin → List Bin)
    (fuel now : ℕ) where
  abbrev pub countdown_tick : ℕ → ℕ → ℕ → GameState → Option GameState
  countdown_tick started_at total last st =
      let elapsed = now - started_at in
      let step = step_at elapsed in
      if leb total elapsed
      then begin_loading show_secs now st
      else if ltb step last && leb 1 step
      then send_chat_all now (digits step ++ text ". . .")
          (record st { phase = countdown started_at total step })
      else some st

  abbrev pub loading_tick : GameState → Option GameState
  loading_tick st =
      if timed_out_loading now st.started_loading_at
      then reap_left_players show_secs now (record st { players = map drop_unready st.players })
      else some st

  -- After the vote; the flag says that the tick ends here.
  abbrev pub lag_tick : Option Bytes → ℕ → Bool × GameState → Option (Bool × GameState)
  lag_tick winner skipped (true, st) = some (true, drop_lagging_players now 60000 st)
  lag_tick winner skipped (false, st) =
      Option.map (λ (st' : GameState). (false, end_game now (one_left now st')))
        (send_all_actions crc32 now winner skipped st)

  abbrev pub playing_tick : Option Bytes → ℕ → GameState → Option (Bool × GameState)
  playing_tick winner skipped st =
      let st' = pump_rejoin_catchup now st in
      check_desync order fuel now (sync_fake st'.fake_player_pid st') >>= λ st2.
      lag_tick winner skipped (check_lag crc32 now st2)

  abbrev pub goes_on : Option GameState → Option (Bool × GameState)
  goes_on o = Option.map (λ (st : GameState). (false, st)) o

  abbrev pub phase_tick : Option Bytes → ℕ → GamePhase → GameState → Option (Bool × GameState)
  phase_tick winner skipped lobby st = goes_on (lobby_tick now st)
  phase_tick winner skipped (countdown a b c) st = goes_on (countdown_tick a b c st)
  phase_tick winner skipped loading st = goes_on (loading_tick st)
  phase_tick winner skipped playing st = playing_tick winner skipped st
  phase_tick winner skipped over st = goes_on (some (record st { finished = true }))

  abbrev pub finish_tick : Bool × GameState → GameState
  finish_tick (true, st) = st
  finish_tick (false, st) = settle_end now st

  unfoldable pub on_tick : Option Bytes → ℕ → GameState → Option GameState
  on_tick winner skipped st = pump_downloads crc32 fuel now st >>= λ st1.
      reap_timeouts now st1.cfg.reconnect_wait st1 >>= λ st2.
      let st3 = ping_all now st2 in Option.map finish_tick (phase_tick winner skipped st3.phase st3)
