-- ===== src/Tests/Engine.antt =====
-- The scheduler, the history and the reconnects at concrete inputs.
use ghostrs.Base.{
  ℕ, ◌+◌, ◌-◌, ◌*◌, ◌/◌, ◌≤◌, ◌<◌, ◌≡◌, ◌⊎◌, refl, true, false, List, [], ◌∷◌, ◌++◌, none, some,
  arith, drop, min, leb, ◌&&◌, if◌then◌else◌, as_u32, text,
}
use ghostrs.Protocol.Buffer.{Bytes}
use ghostrs.Protocol.Frame.{encode_with}
use ghostrs.Protocol.Gps.{ReconnectReq, reconnect_ok, expect}
use ghostrs.Engine.Tick.{TickScheduler, advance, advance_lem, advance_zero_period}
use ghostrs.Engine.History.{first_seq, next_seq, len, snapshot_from_seq}
use ghostrs.Engine.History
use ghostrs.Engine.History.Log.{history_of_log}
use ghostrs.Engine.Link.{PlayerLink}
use ghostrs.Engine.Players.{Player, new_player, by_pid, find}
use ghostrs.Engine.State.{GameState, GameConfig, playing}
use ghostrs.Engine.Broadcast.Lost.{broadcast_all, lost_misses_nothing}
use ghostrs.Engine.Gproxy.{total_sent, replay_from, gproxy_empty_actions}
use ghostrs.Engine.Gproxy
use ghostrs.Engine.Gproxy.Replay.{replay_of_log, gproxy_empty_actions_lem}
use ghostrs.Engine.Gproxy.Reconnect.{handle_gps_reconnect, reattached, replay_of}
use ghostrs.Engine.Gproxy.Handlers.{Returns, reconnect_guards, reconnect_replays}

abbrev due : TickScheduler
due = record { period = 100; next = 1000 }

advance_example :
    (n : ℕ) × (advance 500 due 1250 ≡ some (record due { next = 1100 + n * 100 }, as_u32 n))
    × (1250 < 1100 + n * 100)
    × ((n ≡ 0) ⊎ (1100 + n * 100 ≤ 1350))
advance_example = advance_lem 500 1250 due (omega arith) (omega arith) (omega arith)

abbrev no_period : TickScheduler
no_period = record { period = 0; next = 1000 }

advance_zero_period_example : advance 500 no_period 1250 ≡ none
advance_zero_period_example = advance_zero_period 500 1250 no_period refl (omega arith)

abbrev log : List Bytes
log = (1 ∷ []) ∷ (2 ∷ []) ∷ (3 ∷ []) ∷ []

history_of_log_example :
    (next_seq (History.push_all (History.new_with_cap 2) log) ≡ 3)
    × (first_seq (History.push_all (History.new_with_cap 2) log) ≡ 1)
    × (len (History.push_all (History.new_with_cap 2) log) ≡ 2)
    × (snapshot_from_seq (History.push_all (History.new_with_cap 2) log) 0
        ≡ (2 ∷ []) ∷ (3 ∷ []) ∷ [])
history_of_log_example = history_of_log 2 0 log (omega arith)

replay_of_log_example :
    (total_sent (Gproxy.push_all (Gproxy.new 2) log) ≡ 3)
    × (replay_from (Gproxy.push_all (Gproxy.new 2) log) 2
        ≡ (if leb (3 - 2) 2 && leb 2 3 then some (drop 2 log) else none))
replay_of_log_example = replay_of_log 2 2 log (omega arith) (omega arith)

gproxy_empty_actions_example :
    (gproxy_empty_actions 200 ≤ 9)
    × (gproxy_empty_actions 200 ≡ min ((if leb 60 200 then 200 / 60 else 200) - 1) 9)
gproxy_empty_actions_example = gproxy_empty_actions_lem 200

abbrev old_link : PlayerLink
old_link = record { capacity = 4; queue = []; is_closed = true }

abbrev new_link : PlayerLink
new_link = record { capacity = 4; queue = []; is_closed = false }

abbrev lost : Player
lost = record (new_player 1 (text "Blue") 11 old_link) {
  gproxy = true;
  reconnect_key = 77;
  gproxy_buffer = some (Gproxy.push_all (Gproxy.new 2) log);
  disconnected_since = some 1000;
}

abbrev back_request : ReconnectReq
back_request = record { pid = 1; reconnect_key = 77; last_packet = 2 }

reconnect_guards_example :
    let r = handle_gps_reconnect (lost ∷ []) 12 back_request new_link in
    ((r.back ≡ false) × (r.players ≡ lost ∷ []))
    ⊎ ((r.back ≡ true)
        × ((p : Player) × (by_pid (lost ∷ []) 1 ≡ some p)
            × (p.gproxy ≡ true)
            × (p.reconnect_key ≡ 77)
            × ((replay : List Bytes) × (replay_of p.gproxy_buffer 2 ≡ some replay))))
reconnect_guards_example = reconnect_guards (lost ∷ []) 12 back_request new_link

lost-Returns : Returns 2 log (lost ∷ []) back_request new_link lost
unfolding by_pid find new_player
lost-Returns = record {
  seated = refl;
  gproxy = refl;
  key = refl;
  buffered = refl;
  bounded = omega arith;
  short = omega arith;
  held = omega arith;
  sent = omega arith;
  link_open = refl;
  room = omega arith;
}

abbrev ok_bytes : Bytes
ok_bytes = 0xF8 ∷ 2 ∷ 8 ∷ 0 ∷ 3 ∷ 0 ∷ 0 ∷ 0 ∷ []

reconnect_replays_example :
    let r = handle_gps_reconnect (lost ∷ []) 12 back_request new_link in
    (r.back ≡ true)
    × (r.link ≡ record new_link { queue = (([] ++ ok_bytes ∷ []) ++ drop 2 log) })
    × (by_pid r.players 1 ≡ some (reattached 12 r.link lost))
unfolding reconnect_ok expect encode_with
reconnect_replays_example =
    reconnect_replays 2 12 log (lost ∷ []) back_request new_link lost ok_bytes lost-Returns refl

abbrev config : GameConfig
config = record {
  name = text "dota";
  sync_limit = 50;
  map = record {
    path = text "Maps/a.w3x";
    size = 1000;
    info = 1;
    crc = 2;
    sha1 = [];
    num_players = 2;
    map_data = none;
    flags = 0;
    width = 64;
    height = 64;
    layout_style = 0;
    options = 0;
  };
  virtual_host_name = text "Host";
  reconnect_wait = 180_000;
  max_downloaders = 3;
  max_download_speed = 100;
  allow_downloads = 1;
  autokick_ping = 0;
  lc_pings = false;
  spoof_checks = 0;
  host_port = 6112;
  gproxy_reconnect_port = 0;
  lobby_time_limit = 0;
  owner = [];
  host_counter = 1;
  latency = 100;
  require_spoof_checks = false;
  votekick_allowed = true;
  votekick_percentage = 100;
  event_tx = none;
}

abbrev room : GameState
room = record {
  cfg = config;
  phase = playing;
  slots = [];
  pending = [];
  actions = [];
  tick = record { period = 100_000_000; next = 0 };
  game_ticks = 0;
  game_over_time = none;
  sync_counter = 5;
  random_seed = 0;
  created_at = 0;
  lagging = false;
  finished = false;
  downloads = [];
  download_counter = 0;
  last_download_counter_reset = 0;
  relay = none;
  replay = none;
  hcl = none;
  last_player_left = none;
  last_player_left_time = none;
  holds = [];
  autostart_players = none;
  announce_message = none;
  announce_interval = 0;
  last_announce_time = none;
  virtual_host_pid = 255;
  started_loading_at = none;
  last_ping_at = 0;
  last_reserved_seen = 0;
  start_players = 2;
  fake_player_pid = none;
  last_lag_screen_reset = 0;
  store = none;
  muted_all = false;
  mute_lobby = false;
  locked = false;
  draw_votes = [];
  start_votes = [];
  votekick_target = none;
  votekick_votes = [];
  local_admin_messages = true;
  last_game_name = text "dota";
  refresh_rehosted = false;
  pending_full = [];
  full_history = History.push_all (History.new_with_cap 9) log;
  players = lost ∷ [];
}

-- The player has three packets, and two more are broadcast.
lost_misses_nothing_example :
    let st' = broadcast_all 2000 ((4 ∷ []) ∷ (5 ∷ []) ∷ []) room in
    ((p' : Player) × (by_pid st'.players 1 ≡ some p')
      × (p'.left ≡ none)
      × (replay_of p'.gproxy_buffer 3 ≡ some ((4 ∷ []) ∷ (5 ∷ []) ∷ [])))
    × (st'.full_history ≡ History.push_all room.full_history ((4 ∷ []) ∷ (5 ∷ []) ∷ []))
unfolding by_pid find new_player
lost_misses_nothing_example =
    lost_misses_nothing 2000 1 2 3 log ((4 ∷ []) ∷ (5 ∷ []) ∷ []) room lost refl
      (refl, refl, refl, refl) refl (omega arith) (omega arith) (omega arith) (omega arith)
