-- ===== src/Engine/Keeps/Ticks.antt =====
-- The parts of a tick, and the steps of a rejoin, that neither seat nor unseat anybody.
use ghostrs.Engine.Catchup.Loop.{pump_player-pid}
use ghostrs.Protocol.W3gs.Outgoing.{ping_from_host}
use ghostrs.Engine.Lag.{drop_lagging_players}
use ghostrs.Engine.Catchup.{pump_rejoin_catchup}
use ghostrs.Engine.OnTick.{
  is_reserved_here, is_over_for_minute, count_here, is_due, is_waiting_phase, notice_text,
  is_deserted, drop_at_end, sync_fake, unwrap_or_zero, announce_of, settle_end, end_game, one_left,
  lobby_tick, see_reserved, close_lobby, ping_all, reap_timeouts, say_notices,
}
use ghostrs.Engine.Gproxy.Reconnect.{Notice, reap_player, reap_since, reap_gproxy_timeouts}
use ghostrs.Engine.Transfer.{
  download_loop, new_second, pump_with, pump_of, Pumped, pump_downloads, send_parts,
}
use ghostrs.Base.{
  not, any, ◌*◌, ltb, ◌&&◌, ◌-◌, leb, ◌==◌, as_u32, Option, ℕ, ◌≡◌, refl, List, [], ◌∷◌, none, some,
  arith,
}
use ghostrs.Protocol.Buffer.{Bytes}
use ghostrs.Engine.Players.{Player, PlayerTable}
use ghostrs.Engine.State.{is_some, is_in_lobby, GameState}
use ghostrs.Engine.Keeps.{
  host_pid, Keeps, Still, panics, goes, kept, same, and_then, behind, bind-Still, map-Still,
  if_kept, if_Still, pids, pids-map, send_to-Keeps, broadcast_some-Keeps, send_chat_all-Still,
}
use ghostrs.Engine.Keeps.Handlers.{at_pid, kick_all-Keeps}

-- The downloads.
send_parts-Keeps :
    (now : ℕ) (packets : List (ℕ × Bytes)) (st : GameState) → Keeps st (send_parts now packets st)
unfolding send_parts
send_parts-Keeps now [] st = same
send_parts-Keeps now ((pid, b) ∷ packets) st =
    and_then (send_to-Keeps now pid b st) (send_parts-Keeps now packets _)

pump_with-Still :
    (crc32 : Bytes → ℕ) (contents : Bytes) (now : ℕ) (st st' : GameState) (o : Option Pumped)
    → Keeps st st'
    → Still st (pump_with crc32 contents now st' o)
pump_with-Still crc32 contents now st st' none h = panics
pump_with-Still crc32 contents now st st' (some (downloads, counter, packets)) h =
    goes (and_then (kept h.seats h.slots h.queued) (send_parts-Keeps now packets _))

pump_of-Still :
    (crc32 : Bytes → ℕ) (fuel now : ℕ) (o : Option Bytes) (st : GameState)
    → Still st (pump_of crc32 fuel now o st)
pump_of-Still crc32 fuel now none st = goes (kept refl refl refl)
pump_of-Still crc32 fuel now (some contents) st =
    pump_with-Still crc32 contents now st (new_second now st)
      (let st' = new_second now st in
        download_loop crc32 contents fuel (host_pid st') (st'.cfg.max_download_speed * 1024)
          st'.cfg.max_downloaders st'.downloads 0 st'.download_counter)
      (if_kept (leb 1000 (now - st.last_download_counter_reset)) (kept refl refl refl) same)

pub pump_downloads-Still :
    (crc32 : Bytes → ℕ) (fuel now : ℕ) (st : GameState)
    → Still st (pump_downloads crc32 fuel now st)
unfolding pump_downloads
pump_downloads-Still crc32 fuel now st =
    if_Still (is_in_lobby st.phase) (pump_of-Still crc32 fuel now st.cfg.map.map_data st)
      (goes same)

-- The players who lost their link.
reap_since-pid :
    (now grace : ℕ) (p : Player) (o : Option ℕ) → (reap_since now grace p o).0.pid ≡ p.pid
reap_since-pid now grace p none = refl
reap_since-pid now grace p (some since) = ground arith

reap_gproxy_timeouts-pids :
    (now grace : ℕ) (players : PlayerTable)
    → pids (reap_gproxy_timeouts now grace players).0 ≡ pids players
unfolding reap_gproxy_timeouts reap_player
reap_gproxy_timeouts-pids now grace [] = refl
reap_gproxy_timeouts-pids now grace (p ∷ players) =
    cc
      (reap_since-pid now grace p p.disconnected_since, reap_gproxy_timeouts-pids now grace players)

say_notices-Still :
    (now : ℕ) (notices : List Notice) (st : GameState) → Still st (say_notices now notices st)
unfolding say_notices
say_notices-Still now [] st = goes same
say_notices-Still now (n ∷ notices) st =
    bind-Still (say_notices now notices) (send_chat_all-Still now (notice_text n) st)
      (λ st'. say_notices-Still now notices st')

pub reap_timeouts-Still : (now grace : ℕ) (st : GameState) → Still st (reap_timeouts now grace st)
unfolding reap_timeouts
reap_timeouts-Still now grace st =
    behind {st' = record st { players = (reap_gproxy_timeouts now grace st.players).0 }}
      (kept (reap_gproxy_timeouts-pids now grace st.players) refl refl)
      (say_notices-Still now (reap_gproxy_timeouts now grace st.players).1 _)

pub ping_all-Keeps : (now : ℕ) (st : GameState) → Keeps st (ping_all now st)
ping_all-Keeps now st =
    let k = broadcast_some-Keeps now (ping_from_host (as_u32 (now - st.created_at))) st in
    if_kept (is_waiting_phase st.phase && leb 5000 (now - st.last_ping_at))
      (kept k.seats k.slots k.queued) same

-- The phases of the tick.
announce_of-Still : (now : ℕ) (o : Option Bytes) (st : GameState) → Still st (announce_of now o st)
announce_of-Still now none st = goes same
announce_of-Still now (some msg) st =
    if_Still (ltb 0 st.announce_interval && is_due now st.announce_interval st.last_announce_time)
      (map-Still _ (send_chat_all-Still now msg st) (λ st'. kept refl refl refl)) (goes same)

close_lobby-Keeps : (now : ℕ) (st : GameState) → Keeps st (close_lobby now st)
close_lobby-Keeps now st =
    if_kept (leb (st.cfg.lobby_time_limit * 60000) (now - st.last_reserved_seen))
      (kept refl refl refl) same

see_reserved-Keeps : (now : ℕ) (st : GameState) → Keeps st (see_reserved now st)
see_reserved-Keeps now st = if_kept (any is_reserved_here st.players) (kept refl refl refl) same

pub lobby_tick-Still : (now : ℕ) (st : GameState) → Still st (lobby_tick now st)
lobby_tick-Still now st = bind-Still _ (announce_of-Still now st.announce_message st) λ st'. goes (
    if_kept (unwrap_or_zero st'.autostart_players == 0 && ltb 0 st'.cfg.lobby_time_limit)
      (and_then (see_reserved-Keeps now st') (close_lobby-Keeps now _)) same)

pub pump_rejoin_catchup-Keeps : (now : ℕ) (st : GameState) → Keeps st (pump_rejoin_catchup now st)
unfolding pump_rejoin_catchup
pump_rejoin_catchup-Keeps now st =
    kept (pids-map _ st.players (λ p. pump_player-pid now st.full_history p)) refl refl

pub sync_fake-Keeps : (o : Option ℕ) (st : GameState) → Keeps st (sync_fake o st)
sync_fake-Keeps none st = same
sync_fake-Keeps (some fpid) st = at_pid fpid _ st (λ p. refl)

pub one_left-Keeps : (now : ℕ) (st : GameState) → Keeps st (one_left now st)
one_left-Keeps now st =
    if_kept
      (count_here st.players == 1 && (ltb 1 st.start_players && not (is_some st.game_over_time)))
      (kept refl refl refl) same

drop_at_end-pid : (p : Player) → (drop_at_end p).pid ≡ p.pid
drop_at_end-pid p = ground arith

pub end_game-Keeps : (now : ℕ) (st : GameState) → Keeps st (end_game now st)
end_game-Keeps now st =
    if_kept (is_over_for_minute now st.game_over_time)
      (kept (pids-map _ st.players drop_at_end-pid) refl refl) same

pub settle_end-Keeps : (now : ℕ) (st : GameState) → Keeps st (settle_end now st)
unfolding settle_end
settle_end-Keeps now st = if_kept (is_deserted now st) (kept refl refl refl) same

pub drop_lagging_players-Keeps :
    (now max_lag : ℕ) (st : GameState) → Keeps st (drop_lagging_players now max_lag st)
unfolding drop_lagging_players
drop_lagging_players-Keeps now max_lag st = kick_all-Keeps _ _ st
