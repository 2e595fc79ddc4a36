-- ===== src/Engine/Keeps/Starts.antt =====
-- The steps of a rejoin and the start of play neither seat nor unseat anybody.
use ghostrs.Engine.History.{first_seq}
use ghostrs.Protocol.W3gs.Outgoing.{countdown_end, game_loaded_others, countdown_start}
use ghostrs.Engine.Phases.{
  awaits_loaded, open_replay, load_line, loaded_of, has_loaded, open_relay, ready, report_loads,
  say_loads, handle_loaded, loads, play_if, begin_playing, live, tell_times,
}
use ghostrs.Engine.Link.{PlayerLink}
use ghostrs.Engine.Rejoin.{
  start_catch_up, is_other, too_late, await_loaded, may_rejoin, token_of, rejoin_with,
  rejoin_player, rejoined, seat_again, join_flow, loaded_rejoin, tell_loaded, map_size_rejoin,
  try_full_rejoin, introduce,
}
use ghostrs.Protocol.W3gs.Outgoing.{player_info}
use ghostrs.Base.{if◌then◌else◌, text, ltb, Option, ℕ, refl, Bool, true, false, [], ◌∷◌, none, some}
use ghostrs.Protocol.Buffer.{Bytes}
use ghostrs.Protocol.W3gs.Incoming.{ReqJoin}
use ghostrs.Engine.Players.{by_pid, iter_humans, by_conn, Player, PlayerTable, filter}
use ghostrs.Engine.State.{is_in_game, FullToken, GameState}
use ghostrs.Engine.Keeps.{
  Keeps, Still, goes, kept, same, and_then, behind, bind-Still, map-Still, if_kept, if_Still,
  pids-with_pid, pids-map, broadcast_some-Keeps, send_ok-Keeps, send_some-Keeps,
  send_chat_all-Still, send_chat_to-Still,
}
use ghostrs.Engine.Keeps.Handlers.{at_pid}

introduce-Keeps :
    (now pid : ℕ) (others : PlayerTable) (st : GameState) → Keeps st (introduce now pid others st)
unfolding introduce
introduce-Keeps now pid [] st = same
introduce-Keeps now pid (q ∷ others) st =
    and_then (send_ok-Keeps now pid (player_info q.pid q.name q.external_ip q.internal_ip) st)
      (introduce-Keeps now pid others _)

join_flow-Keeps :
    (now pid : ℕ) (req : ReqJoin) (ip : Bytes) (st : GameState)
    → Keeps st (join_flow now pid req ip st)
join_flow-Keeps now pid req ip st =
    and_then (send_ok-Keeps now pid _ st)
      (and_then (introduce-Keeps now pid _ _) (send_ok-Keeps now pid _ _))

seat_again-Keeps :
    (conn_id pid : ℕ) (link : PlayerLink) (st : GameState)
    → Keeps st (seat_again conn_id pid link st)
seat_again-Keeps conn_id pid link st =
    kept (pids-with_pid pid (rejoined conn_id link) st.players (λ p. refl)) refl refl

-- The state beside a result.
if_kept_snd :
    {st : GameState} (a b : Bool × GameState) (test : Bool)
    → Keeps st a.1
    → Keeps st b.1
    → Keeps st (if test then a else b).1
if_kept_snd a b true h k = h
if_kept_snd a b false h k = k

rejoin_player-Keeps :
    (now conn_id : ℕ) (req : ReqJoin) (ip : Bytes) (link : PlayerLink) (st : GameState)
    (token : FullToken) (o : Option Player)
    → Keeps st (rejoin_player now conn_id req ip link st token o).1
rejoin_player-Keeps now conn_id req ip link st token none = same
rejoin_player-Keeps now conn_id req ip link st token (some p) =
    if_kept_snd (true, join_flow now token.pid req ip (seat_again conn_id token.pid link st))
      (false, st) (may_rejoin req token p)
      (and_then (seat_again-Keeps conn_id token.pid link st)
        (join_flow-Keeps now token.pid req ip _))
      same

rejoin_with-Keeps :
    (now conn_id : ℕ) (req : ReqJoin) (ip : Bytes) (link : PlayerLink) (st : GameState)
    (o : Option FullToken)
    → Keeps st (rejoin_with now conn_id req ip link st o).1
rejoin_with-Keeps now conn_id req ip link st none = same
rejoin_with-Keeps now conn_id req ip link st (some token) =
    rejoin_player-Keeps now conn_id req ip link st token (by_pid st.players token.pid)

pub try_full_rejoin-Keeps :
    (now conn_id : ℕ) (req : ReqJoin) (ip : Bytes) (link : PlayerLink) (st : GameState)
    → Keeps st (try_full_rejoin now conn_id req ip link st).1
unfolding try_full_rejoin
try_full_rejoin-Keeps now conn_id req ip link st =
    if_kept_snd (rejoin_with now conn_id req ip link st (token_of conn_id st.pending_full))
      (false, st) (is_in_game st.phase)
      (rejoin_with-Keeps now conn_id req ip link st (token_of conn_id st.pending_full)) same

pub map_size_rejoin-Keeps : (now pid : ℕ) (st : GameState) → Keeps st (map_size_rejoin now pid st)
unfolding map_size_rejoin
map_size_rejoin-Keeps now pid st =
    and_then (send_some-Keeps now pid countdown_start st)
      (and_then (send_some-Keeps now pid countdown_end _) (at_pid pid await_loaded _ (λ p. refl)))

tell_loaded-Keeps :
    (now pid : ℕ) (others : PlayerTable) (st : GameState) → Keeps st (tell_loaded now pid others st)
unfolding tell_loaded
tell_loaded-Keeps now pid [] st = same
tell_loaded-Keeps now pid (q ∷ others) st =
    and_then (send_some-Keeps now pid (game_loaded_others q.pid) st)
      (tell_loaded-Keeps now pid others _)

pub loaded_rejoin-Keeps : (now pid : ℕ) (st : GameState) → Keeps st (loaded_rejoin now pid st)
unfolding loaded_rejoin
loaded_rejoin-Keeps now pid st =
    if_kept (ltb 0 (first_seq st.full_history)) (at_pid pid too_late st (λ p. refl)) (
      and_then (tell_loaded-Keeps now pid (filter (is_other pid) st.players) st) (
        and_then (at_pid pid (start_catch_up (first_seq st.full_history)) _ (λ p. refl))
          (broadcast_some-Keeps now (game_loaded_others pid) _)))

module _ (show_secs : ℕ → Bytes) (now : ℕ) where
  say_loads-Still :
      (s l : Option (Bytes × ℕ)) (st : GameState) → Still st (say_loads show_secs now s l st)
  say_loads-Still none l st = goes same
  say_loads-Still (some s) none st = goes same
  say_loads-Still (some s) (some l) st =
      bind-Still _ (send_chat_all-Still now (load_line show_secs now (text "Shortest") s) st)
        (λ st'. send_chat_all-Still now (load_line show_secs now (text "Longest") l) st')

  tell_times-Still :
      (started : ℕ) (players : PlayerTable) (st : GameState)
      → Still st (tell_times show_secs now started players st)
  unfolding tell_times
  tell_times-Still started [] st = goes same
  tell_times-Still started (p ∷ players) st =
      bind-Still _ (send_chat_to-Still now p.pid _ st) (λ st'. tell_times-Still started players st')

  report_loads-Still : (o : Option ℕ) (st : GameState) → Still st (report_loads show_secs now o st)
  report_loads-Still none st = goes same
  report_loads-Still (some started) st =
      bind-Still (tell_times show_secs now started (iter_humans st.players))
        (say_loads-Still _ _ st) (λ st'. tell_times-Still started (iter_humans st.players) st')

  live-Keeps : (st : GameState) → Keeps st (live st)
  live-Keeps st = kept (pids-map ready st.players (λ p. refl)) refl refl

  pub begin_playing-Still : (st : GameState) → Still st (begin_playing show_secs now st)
  unfolding begin_playing
  begin_playing-Still st =
      map-Still (λ (st' : GameState). open_relay (open_replay st'))
        (behind (live-Keeps st) (report_loads-Still st.started_loading_at (live st)))
        (λ st'. kept refl refl refl)

  pub play_if-Still : (test : Bool) (st : GameState) → Still st (play_if show_secs now test st)
  play_if-Still test st = if_Still test (begin_playing-Still st) (goes same)

  loads-Still : (pid : ℕ) (st : GameState) → Still st (loads show_secs now pid st)
  loads-Still pid st =
      behind
        (and_then (at_pid pid (has_loaded show_secs now) st (λ p. refl))
          (broadcast_some-Keeps now (game_loaded_others pid) _))
        (play_if-Still _ _)

  loaded_of-Still : (o : Option Player) (st : GameState) → Still st (loaded_of show_secs now o st)
  loaded_of-Still none st = goes same
  loaded_of-Still (some p) st =
      if_Still (awaits_loaded (by_pid st.players p.pid)) (goes (loaded_rejoin-Keeps now p.pid st))
        (loads-Still p.pid st)

  pub handle_loaded-Still :
      (conn_id : ℕ) (st : GameState) → Still st (handle_loaded show_secs now conn_id st)
  unfolding handle_loaded
  handle_loaded-Still conn_id st = loaded_of-Still (by_conn st.players conn_id) st
