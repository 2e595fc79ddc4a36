-- ===== src/Engine/State.antt =====
-- `GamePhase` and `GameState` of crates/spectre-engine/src/state.rs, with the fields that the modelled
-- handlers use, and the handle of the spectator relay (crates/spectre-spectator/src/relay.rs).
-- Instants are milliseconds of a monotonic clock.
use ghostrs.Base.{
  ℕ, Bool, true, false, List, [], ◌∷◌, ◌++◌, Option, none, some, leb, ◌==◌, if◌then◌else◌, length,
}
use ghostrs.Protocol.Buffer.{Bytes}
use ghostrs.Protocol.W3gs.Outgoing.{ActionBlock}
use ghostrs.Protocol.DotaTv.{GameStartSnapshot, PlayerInfo}
use ghostrs.Engine.Slots.{SlotTable}
use ghostrs.Engine.Link.{PlayerLink}
use ghostrs.Engine.History.{FullHistory}
use ghostrs.Engine.Tick.{TickScheduler}
use ghostrs.Engine.Players.{Player, PlayerTable, RejoinStage, normal, awaiting_map_size}
use ghostrs.Engine.Players.{awaiting_loaded, with_pid}
use ghostrs.Spectator.Body.{ReplayBody}

-- `countdown` carries `started_at`, `total_duration` and `last_announced_step`.
pub data GamePhase : Type 0 where
  lobby loading playing over : GamePhase
  countdown : ℕ → ℕ → ℕ → GamePhase

abbrev pub is_playing : GamePhase → Bool
is_playing playing = true
is_playing lobby = false
is_playing loading = false
is_playing over = false
is_playing (countdown a b c) = false

abbrev pub is_in_lobby : GamePhase → Bool
is_in_lobby lobby = true
is_in_lobby playing = false
is_in_lobby loading = false
is_in_lobby over = false
is_in_lobby (countdown a b c) = false

-- `matches!(phase, Lobby | Countdown { .. })`.
abbrev pub is_before_game : GamePhase → Bool
is_before_game lobby = true
is_before_game (countdown a b c) = true
is_before_game playing = false
is_before_game loading = false
is_before_game over = false

-- `matches!(phase, Loading | Playing)`.
abbrev pub is_in_game : GamePhase → Bool
is_in_game loading = true
is_in_game playing = true
is_in_game lobby = false
is_in_game over = false
is_in_game (countdown a b c) = false

-- The commands that the modelled handlers give to the relay: a packet of the game, its start, a player,
-- its end, and a chat line with its sender and its text.
pub data RelayCmd : Type 0 where
  game_block : Bytes → RelayCmd
  game_start : GameStartSnapshot → RelayCmd
  player_info : PlayerInfo → RelayCmd
  game_over : RelayCmd
  viewer_chat : Bytes → Bytes → RelayCmd

-- The sending end of the relay's bounded channel.
pub record RelayHandle : Type 0 where
  pub capacity : ℕ
  pub queue : List RelayCmd
  pub is_closed : Bool

-- `let _ = self.tx.try_send(cmd)`.
unfoldable pub relay_send : RelayHandle → RelayCmd → RelayHandle
relay_send r cmd =
    if r.is_closed
    then r
    else if leb r.capacity (length r.queue)
    then r
    else record r { queue = r.queue ++ cmd ∷ [] }

pub record MapInfo : Type 0 where
  pub path : Bytes
  pub size : ℕ
  pub info : ℕ
  pub crc : ℕ
  pub sha1 : Bytes
  pub num_players : ℕ
  pub map_data : Option Bytes
  pub flags : ℕ
  pub width : ℕ
  pub height : ℕ
  pub layout_style : ℕ
  pub options : ℕ

-- `LobbyStatus` of handle.rs, the event that a chat command sends.
pub record LobbyStatus : Type 0 where
  pub host_counter : ℕ
  pub slots_open : ℕ
  pub slots_total : ℕ
  pub human_players : ℕ

-- `StoreCmd` (crates/spectre-store/src/writer.rs), the commands that chat commands send.
pub data StoreCmd : Type 0 where
  add_ban : Bytes → Bytes → Bytes → Bytes → StoreCmd
  remove_ban : Bytes → StoreCmd
  add_admin : Bytes → Bytes → StoreCmd
  remove_admin : Bytes → StoreCmd

-- The sending end of another bounded channel.
pub record Sender (A : Type 0) : Type 0 where
  pub capacity : ℕ
  pub queue : List A
  pub is_closed : Bool

-- `let _ = tx.try_send(a)`.
unfoldable pub post : {A : Type 0} → Sender A → A → Sender A
post tx a =
    if tx.is_closed
    then tx
    else if leb tx.capacity (length tx.queue)
    then tx
    else record tx { queue = tx.queue ++ a ∷ [] }

pub record GameConfig : Type 0 where
  pub name : Bytes
  pub sync_limit : ℕ
  pub map : MapInfo
  pub virtual_host_name : Bytes
  pub reconnect_wait : ℕ
  pub max_downloaders : ℕ
  pub max_download_speed : ℕ
  pub allow_downloads : ℕ
  pub autokick_ping : ℕ
  pub lc_pings : Bool
  pub spoof_checks : ℕ
  pub host_port : ℕ
  pub gproxy_reconnect_port : ℕ
  pub lobby_time_limit : ℕ
  pub owner : Bytes
  pub host_counter : ℕ
  pub latency : ℕ
  pub require_spoof_checks : Bool
  pub votekick_allowed : Bool
  pub votekick_percentage : ℕ
  pub event_tx : Option (Sender LobbyStatus)

-- `Download` of mapxfer.rs: a map on its way to a player.
pub record Download : Type 0 where
  pub pid : ℕ
  pub sent_upto : ℕ
  pub acked_upto : ℕ
  pub started : ℕ

-- An entry of `pending`.
pub record Pending : Type 0 where
  pub conn_id : ℕ
  pub link : PlayerLink
  pub external_ip : Bytes

-- An entry of `holds`: the slot that is kept for a name. The order of the list is that in which the
-- `HashMap` is read.
pub record Hold : Type 0 where
  pub sid : ℕ
  pub name : Bytes

-- An entry of `pending_full`: the key is a connection.
pub record FullToken : Type 0 where
  pub conn_id : ℕ
  pub pid : ℕ
  pub reconnect_key : ℕ

pub record GameState : Type 0 where
  pub cfg : GameConfig
  pub phase : GamePhase
  pub slots : SlotTable
  pub players : PlayerTable
  pub pending : List Pending
  pub actions : List ActionBlock
  pub tick : TickScheduler
  pub game_ticks : ℕ
  pub game_over_time : Option ℕ
  pub sync_counter : ℕ
  pub random_seed : ℕ
  pub created_at : ℕ
  pub lagging : Bool
  pub finished : Bool
  pub downloads : List Download
  pub download_counter : ℕ
  pub last_download_counter_reset : ℕ
  pub relay : Option RelayHandle
  pub replay : Option ReplayBody
  pub hcl : Option Bytes
  pub last_player_left : Option (Bytes × Bytes)
  pub last_player_left_time : Option ℕ
  pub holds : List Hold
  pub autostart_players : Option ℕ
  pub announce_message : Option Bytes
  pub announce_interval : ℕ
  pub last_announce_time : Option ℕ
  pub virtual_host_pid : ℕ
  pub started_loading_at : Option ℕ
  pub last_ping_at : ℕ
  pub last_reserved_seen : ℕ
  pub start_players : ℕ
  pub fake_player_pid : Option ℕ
  pub last_lag_screen_reset : ℕ
  pub full_history : FullHistory
  pub pending_full : List FullToken
  pub store : Option (Sender StoreCmd)
  pub muted_all : Bool
  pub mute_lobby : Bool
  pub locked : Bool
  pub draw_votes : List ℕ
  pub start_votes : List ℕ
  pub votekick_target : Option ℕ
  pub votekick_votes : List ℕ
  pub local_admin_messages : Bool
  pub last_game_name : Bytes
  pub refresh_rehosted : Bool

abbrev pub is_some : {A : Type 0} → Option A → Bool
is_some none = false
is_some (some a) = true

abbrev pub is_rejoining : RejoinStage → Bool
is_rejoining normal = false
is_rejoining awaiting_map_size = true
is_rejoining awaiting_loaded = true

unfoldable pub add_conn : ℕ → PlayerLink → Bytes → GameState → GameState
add_conn conn_id link external_ip st = record st {
  pending = st.pending ++ record { conn_id = conn_id; link = link; external_ip = external_ip } ∷ [];
}

-- The first player who has not left, or 255.
unfoldable pub first_present : PlayerTable → ℕ
first_present [] = 255
first_present (p ∷ players) = if is_some p.left then first_present players else p.pid

unfoldable pub host_pid : GameState → ℕ
host_pid st = if st.virtual_host_pid == 255 then first_present st.players else st.virtual_host_pid

abbrev pub kicked : Bytes → ℕ → Player → Player
kicked reason left_code p = record p { left = some reason; left_code = left_code }

unfoldable pub kick_player : ℕ → Bytes → ℕ → GameState → GameState
kick_player pid reason left_code st = record st {
  players = with_pid st.players pid (kicked reason left_code);
}
