-- ===== src/Tests/Rejoin.antt =====
-- Rejoins, the catch-up, the desync vote and the lag screen at concrete inputs.
use ghostrs.Base.{
  ℕ, ◌+◌, ◌-◌, ◌≡◌, ◌⊎◌, refl, true, false, List, [], ◌∷◌, ◌++◌, none, some, arith, leb,
  if◌then◌else◌, length, take, drop, min, text, All,
}
use ghostrs.Protocol.Buffer.{Bytes}
use ghostrs.Protocol.Frame.{encode_with}
use ghostrs.Protocol.Gps.{expect}
use ghostrs.Protocol.W3gs.Incoming.{ReqJoin}
use ghostrs.Protocol.W3gs.Outgoing.{game_loaded_others}
use ghostrs.Engine.History.{new_with_cap, push_all}
use ghostrs.Engine.Link.{PlayerLink}
use ghostrs.Engine.Players.{Player, new_player, by_pid, find, awaiting_loaded}
use ghostrs.Engine.State.{GameState, GameConfig, FullToken, playing, is_some, is_in_game}
use ghostrs.Engine.Broadcast.Lost.{broadcast_all}
use ghostrs.Engine.Broadcast.{broadcast}
use ghostrs.Engine.Catchup.{pump_player, pump_rejoin_catchup}
use ghostrs.Engine.Catchup.Order.{Run, here, next, sends, pumps, catch_up_in_order}
use ghostrs.Engine.Catchup.Drops.{DropsFor}
use ghostrs.Engine.Catchup.Ends.{Ends}
use ghostrs.Engine.Catchup.Progress.{Progress}
use ghostrs.Engine.Catchup.Reaches.{carrying, room, pump_fills_link}
use ghostrs.Engine.Rejoin.{
  token_of, eq_ignore_ascii_case, try_full_rejoin, join_flow, seat_again, loaded_rejoin,
}
use ghostrs.Engine.Rejoin.Guards.{try_full_rejoin_lem}
use ghostrs.Engine.Rejoin.Handshake.{handshake_is_quiet, rejoin_replays_game}
use ghostrs.Engine.Desync.{Bin, check_desync, tally, no_tally}
use ghostrs.Engine.Desync.Verdict.{Sums, tally_lem}
use ghostrs.Engine.Desync.Rounds.{check_desync_ends, waiting}
use ghostrs.Engine.Desync.Honest.{nobody_dropped, without_checksums}
use ghostrs.Engine.Lag.{check_lag, any_lagging}
use ghostrs.Engine.Lag.Limit.{IsJudged, check_lag_lem}

abbrev config : GameConfig
config = record {
  name = text "dota";
  sync_limit = 50;
  map = record {
    path = text "Maps/a.w3x";
    size = 1000;
    info = 1;
    crc = 2;
    sha1 = [];
    num_players = 2;
    map_data = none;
    flags = 0;
    width = 64;
    height = 64;
    layout_style = 0;
    options = 0;
  };
  virtual_host_name = text "Host";
  reconnect_wait = 180_000;
  max_downloaders = 3;
  max_download_speed = 100;
  allow_downloads = 1;
  autokick_ping = 0;
  lc_pings = false;
  spoof_checks = 0;
  host_port = 6112;
  gproxy_reconnect_port = 0;
  lobby_time_limit = 0;
  owner = [];
  host_counter = 1;
  latency = 100;
  require_spoof_checks = false;
  votekick_allowed = true;
  votekick_percentage = 100;
  event_tx = none;
}

abbrev log : List Bytes
log = (1 ∷ []) ∷ (2 ∷ []) ∷ (3 ∷ []) ∷ []

abbrev open_link : PlayerLink
open_link = record { capacity = 2; queue = []; is_closed = false }

abbrev lost_player : Player
lost_player = record (new_player 1 (text "Blue") 11 open_link) {
  gproxy = true;
  reconnect_key = 77;
  disconnected_since = some 1000;
}

abbrev loading_player : Player
loading_player = record (new_player 1 (text "Blue") 12 open_link) { rejoin = awaiting_loaded }

abbrev behind_player : Player
behind_player = record (new_player 1 (text "Blue") 12 open_link) { catchup_cursor = some 0 }

abbrev game : List Player → GameState
game players = record {
  cfg = config;
  phase = playing;
  slots = [];
  players = players;
  pending = [];
  actions = [];
  tick = record { period = 100_000_000; next = 0 };
  game_ticks = 0;
  game_over_time = none;
  sync_counter = 60;
  random_seed = 0;
  created_at = 0;
  lagging = false;
  finished = false;
  downloads = [];
  download_counter = 0;
  last_download_counter_reset = 0;
  relay = none;
  replay = none;
  hcl = none;
  last_player_left = none;
  last_player_left_time = none;
  holds = [];
  autostart_players = none;
  announce_message = none;
  announce_interval = 0;
  last_announce_time = none;
  virtual_host_pid = 255;
  started_loading_at = none;
  last_ping_at = 0;
  last_reserved_seen = 0;
  start_players = 2;
  fake_player_pid = none;
  last_lag_screen_reset = 0;
  store = none;
  muted_all = false;
  mute_lobby = false;
  locked = false;
  draw_votes = [];
  start_votes = [];
  votekick_target = none;
  votekick_votes = [];
  local_admin_messages = true;
  last_game_name = text "dota";
  refresh_rehosted = false;
  full_history = push_all (new_with_cap 9) log;
  pending_full = record { conn_id = 12; pid = 1; reconnect_key = 77 } ∷ [];
}

abbrev begun : Run
begun = record { game = game (behind_player ∷ []); taken = []; log = log }

abbrev pumped : Run
pumped = record begun { game = pump_rejoin_catchup 5 begun.game }

abbrev told : Run
told = record pumped { game = broadcast 6 (4 ∷ []) pumped.game; log = pumped.log ++ (4 ∷ []) ∷ [] }

-- A pump into a queue for two packets, and a broadcast.
catch_up_in_order_example :
    (p' : Player) × (by_pid told.game.players 1 ≡ some p')
    × Progress [] told.log p' (told.taken ++ p'.link.queue)
unfolding by_pid find new_player
catch_up_in_order_example =
    catch_up_in_order 9 1 begun told behind_player (omega arith) refl refl refl refl
      (next (next here (pumps begun 5)) (sends pumped 6 (4 ∷ [])))

pump_fills_link_example :
    let p' = pump_player 5 (push_all (new_with_cap 9) log) behind_player in
    let n = min (room behind_player.link) (length log - 0) in
    (p'.link ≡ carrying behind_player.link (take n (drop 0 log)))
    × (p'.left ≡ none)
    × (p'.catchup_cursor ≡ (if leb (length log) (0 + n) then none else some (0 + n)))
unfolding new_player
pump_fills_link_example =
    pump_fills_link 5 9 0 log behind_player (omega arith) refl refl refl (omega arith) (omega arith)

abbrev request : ReqJoin
request = record {
  host_counter = 1;
  entry_key = 2;
  listen_port = 6112;
  peer_key = 3;
  name = text "bLUE";
  internal_ip = 0 ∷ 0 ∷ 0 ∷ 0 ∷ [];
}

abbrev local : Bytes
local = 127 ∷ 0 ∷ 0 ∷ 1 ∷ []

try_full_rejoin_example :
    let st = game (lost_player ∷ []) in
    (try_full_rejoin 5 12 request local open_link st ≡ (false, st))
    ⊎ ((token : FullToken) × (p : Player) × (is_in_game st.phase ≡ true)
        × (token_of 12 st.pending_full ≡ some token)
        × (by_pid st.players token.pid ≡ some p)
        × (is_some p.disconnected_since ≡ true)
        × (p.left ≡ none)
        × (eq_ignore_ascii_case p.name request.name ≡ true)
        × (p.reconnect_key ≡ token.reconnect_key)
        × (try_full_rejoin 5 12 request local open_link st
            ≡ (true, join_flow 5 token.pid request local (seat_again 12 token.pid open_link st))))
try_full_rejoin_example = try_full_rejoin_lem 5 12 request local open_link (game (lost_player ∷ []))

handshake_is_quiet_example :
    let st = game (loading_player ∷ []) in
    let st' = broadcast_all 5 ((4 ∷ []) ∷ (5 ∷ []) ∷ []) st in
    ((q : Player) × (by_pid st'.players 1 ≡ some q)
      × (q.link ≡ loading_player.link)
      × (q.rejoin ≡ loading_player.rejoin)
      × (q.left ≡ loading_player.left))
    × (st'.full_history ≡ push_all st.full_history ((4 ∷ []) ∷ (5 ∷ []) ∷ []))
unfolding by_pid find new_player
handshake_is_quiet_example =
    handshake_is_quiet 5 1 ((4 ∷ []) ∷ (5 ∷ []) ∷ []) (game (loading_player ∷ [])) loading_player
      refl refl refl

abbrev loaded_bytes : Bytes
loaded_bytes = 0xF7 ∷ 8 ∷ 5 ∷ 0 ∷ 1 ∷ []

abbrev roomy_player : Player
roomy_player = record loading_player { link = record open_link { capacity = 8 } }

abbrev loaded : Run
loaded = record {
  game = loaded_rejoin 5 1 (game (roomy_player ∷ []));
  taken = [];
  log = log ++ loaded_bytes ∷ [];
}

abbrev resumed : Run
resumed = record loaded { game = pump_rejoin_catchup 6 loaded.game }

-- The pump behind the handshake, into a queue that holds the whole log.
rejoin_replays_game_example :
    (p0 : Player) × (q : Player) × (q' : Player) × (by_pid
        (loaded_rejoin 5 1 (game (roomy_player ∷ []))).players
        1
      ≡ some p0)
    × (by_pid loaded.game.players 1 ≡ some q)
    × (by_pid resumed.game.players 1 ≡ some q')
    × Progress p0.link.queue loaded.log q (loaded.taken ++ q.link.queue)
    × Progress p0.link.queue resumed.log q' (resumed.taken ++ q'.link.queue)
    × Ends p0.link.queue resumed.log q q' (resumed.taken ++ q'.link.queue)
    × DropsFor 9 loaded.log q q'
unfolding by_pid find new_player game_loaded_others expect encode_with
rejoin_replays_game_example =
    rejoin_replays_game 5 9 1 log (game (roomy_player ∷ [])) roomy_player loaded_bytes loaded
      resumed (omega arith) refl refl refl (omega arith) refl here (pumps loaded 6)

-- Three players who have loaded; the third reports another checksum.
abbrev reporting : ℕ → ℕ → Player
reporting pid checksum = record (new_player pid (text "Red") pid open_link) {
  loaded = true;
  sync_counter = 4;
  checksums = record { turn = 4; checksum = checksum } ∷ [];
}

abbrev split_game : GameState
split_game = game (reporting 1 70 ∷ reporting 2 70 ∷ reporting 3 71 ∷ [])

check_desync_ends_example :
    (st' : GameState) × (check_desync (λ bins. bins) 4 5 split_game ≡ some st')
unfolding new_player
check_desync_ends_example =
    check_desync_ends (λ bins. bins) 4 5 split_game (ground arith) (unfold waiting in omega arith)

abbrev agreed_game : GameState
agreed_game = game (reporting 1 70 ∷ reporting 2 70 ∷ [])

nobody_dropped_example :
    (st' : GameState) × (check_desync (λ bins. bins) 3 5 agreed_game ≡ some st')
    × (without_checksums st'.players ≡ without_checksums agreed_game.players)
unfolding new_player
nobody_dropped_example =
    nobody_dropped (λ turn. 70) (λ bins. bins) 3 5 agreed_game (ground arith)
      (unfold waiting in omega arith) ((refl, tt), ((refl, tt), tt))

abbrev two_of_three : List Bin
two_of_three =
    record { checksum = 70; pids = 1 ∷ 2 ∷ [] } ∷ record { checksum = 71; pids = 3 ∷ [] } ∷ []

tally_example : Sums two_of_three (tally two_of_three no_tally)
tally_example =
    tally_lem (record { checksum = 70; pids = 1 ∷ 2 ∷ [] })
      (record { checksum = 71; pids = 3 ∷ [] } ∷ []) (omega arith)

check_lag_example :
    let r = check_lag length 5 split_game in
    All (IsJudged 50 60) r.1.players × (r.0 ≡ any_lagging r.1.players)
check_lag_example = check_lag_lem length 5 split_game
