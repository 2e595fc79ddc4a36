-- ===== src/Tests/Transfer.antt =====
-- Maps, their transfers and the packets of a tick at concrete inputs.
use ghostrs.Base.{
  true, replicate, length-replicate, ℕ, ◌≡◌, false, [], ◌∷◌, none, some, arith, length, text,
}
use ghostrs.Protocol.Buffer.{Bytes}
use ghostrs.Engine.History.{new_with_cap}
use ghostrs.Engine.Link.{PlayerLink}
use ghostrs.Engine.Players.{new_player}
use ghostrs.Protocol.W3gs.Outgoing.{ActionBlock}
use ghostrs.Engine.State.{GameState, GameConfig, Download, lobby, playing}
use ghostrs.Engine.Actions.{interval_of, new_winner, begin_tick, send_all_actions}
use ghostrs.Engine.Actions.Batches.{IsSmall, IsTick, send_all_actions-IsTick}
use ghostrs.Engine.Transfer.{Burst, start_at, part_loop, pump_downloads}
use ghostrs.Engine.Transfer.Chunks.{IsBurst, part_loop-IsBurst}
use ghostrs.Engine.Transfer.Ends.{pump_downloads-Ends}

abbrev contents : Bytes
contents = 1 ∷ 2 ∷ 3 ∷ []

abbrev fresh : Download
fresh = start_at 0 1

-- A map of three bytes.
part_loop-IsBurst_example :
    (r : Burst) × (part_loop length contents 4 255 1024 144200 fresh 0 ≡ some r)
    × IsBurst length contents 255 1024 144200 fresh 0 r
part_loop-IsBurst_example =
    part_loop-IsBurst length contents 4 255 1024 144200 fresh 0 (omega arith) (omega arith)
      (omega arith)

abbrev config : GameConfig
config = record {
  name = text "dota";
  sync_limit = 50;
  map = record {
    path = text "Maps/a.w3x";
    size = 3;
    info = 1;
    crc = 2;
    sha1 = [];
    num_players = 2;
    map_data = some contents;
    flags = 0;
    width = 64;
    height = 64;
    layout_style = 0;
    options = 0;
  };
  virtual_host_name = text "Host";
  reconnect_wait = 180_000;
  max_downloaders = 3;
  max_download_speed = 100;
  allow_downloads = 1;
  autokick_ping = 0;
  lc_pings = false;
  spoof_checks = 0;
  host_port = 6112;
  gproxy_reconnect_port = 0;
  lobby_time_limit = 0;
  owner = [];
  host_counter = 1;
  latency = 100;
  require_spoof_checks = false;
  votekick_allowed = true;
  votekick_percentage = 100;
  event_tx = none;
}

abbrev pub open_link : PlayerLink
open_link = record { capacity = 2; queue = []; is_closed = false }

abbrev pub waiting_room : GameState
waiting_room = record {
  cfg = config;
  phase = lobby;
  slots = [];
  players = new_player 1 (text "Blue") 11 open_link ∷ [];
  pending = [];
  actions = [];
  tick = record { period = 100_000_000; next = 0 };
  game_ticks = 0;
  game_over_time = none;
  sync_counter = 0;
  random_seed = 0;
  created_at = 0;
  lagging = false;
  finished = false;
  downloads = fresh ∷ [];
  download_counter = 0;
  last_download_counter_reset = 0;
  relay = none;
  replay = none;
  hcl = none;
  last_player_left = none;
  last_player_left_time = none;
  holds = [];
  autostart_players = none;
  announce_message = none;
  announce_interval = 0;
  last_announce_time = none;
  virtual_host_pid = 255;
  started_loading_at = none;
  last_ping_at = 0;
  last_reserved_seen = 0;
  start_players = 2;
  fake_player_pid = none;
  last_lag_screen_reset = 0;
  store = none;
  muted_all = false;
  mute_lobby = false;
  locked = false;
  draw_votes = [];
  start_votes = [];
  votekick_target = none;
  votekick_votes = [];
  local_admin_messages = true;
  last_game_name = text "dota";
  refresh_rehosted = false;
  full_history = new_with_cap 9;
  pending_full = [];
}

-- A player at the start of a map of three bytes.
pump_downloads-Ends_example :
    (st' : GameState) × (pump_downloads length 4 100 waiting_room ≡ some st')
pump_downloads-Ends_example =
    pump_downloads-Ends length 4 100 waiting_room (omega arith) (omega arith)

abbrev long_action : ℕ → ActionBlock
long_action pid = record { pid = pid; actions = replicate 800 7 }

long_action_lem : (pid : ℕ) → IsSmall (long_action pid)
long_action_lem pid = omega (arith, length-replicate {A = ℕ} 800 7)

abbrev busy_game : GameState
busy_game = record waiting_room { phase = playing; actions = long_action 1 ∷ long_action 2 ∷ [] }

-- Two actions that no packet holds together, and the end of the game.
send_all_actions-IsTick_example :
    IsTick length 100
      (new_winner busy_game (some (text "Sentinel")))
      (interval_of busy_game 0)
      busy_game.actions
      (begin_tick 0 busy_game)
      (send_all_actions length 100 (some (text "Sentinel")) 0 busy_game)
send_all_actions-IsTick_example =
    send_all_actions-IsTick length 100 (some (text "Sentinel")) 0 busy_game
      (long_action_lem 1, (long_action_lem 2, tt))
