-- ===== src/Engine/Players.antt =====
-- crates/spectre-engine/src/players.rs. Instants are milliseconds of a monotonic clock. A player's
-- `score`, a float that is only shown, has no field here.
pub mod Pids
pub mod Table
use mathlib.Core.Option
use ghostrs.Base.{
  ℕ, zero, suc, ◌+◌, ◌/◌, ◌^◌, ◌≡◌, Bool, true, false, ◌&&◌, ◌||◌, not, List, [], ◌∷◌, ◌++◌, map,
  Option, none, some, leb, ◌==◌, if◌then◌else◌, length, drop, any, as_u32,
}
use ghostrs.Protocol.Buffer.{Bytes}
use ghostrs.Protocol.W3gs.Slot.{SlotInfo}
use ghostrs.Engine.Link.{PlayerLink}
use ghostrs.Engine.Slots.{SlotTable}

abbrev pub ping_history_len : ℕ
ping_history_len = 10

pub data NameMatch : Type 0 where
  no_match : NameMatch
  ambiguous : ℕ → NameMatch

pub data RejoinStage : Type 0 where
  normal awaiting_map_size awaiting_loaded : RejoinStage

pub record ChecksumEntry : Type 0 where
  pub turn : ℕ
  pub checksum : ℕ

-- `GProxyBuffer` of gproxy.rs, which a player carries.
pub record GProxyBuffer : Type 0 where
  pub capacity : ℕ
  pub first_packet_id : ℕ
  pub packets : List Bytes

pub record Player : Type 0 where
  pub pid : ℕ
  pub name : Bytes
  pub conn_id : ℕ
  pub link : PlayerLink
  pub external_ip : Bytes
  pub internal_ip : Bytes
  pub joined_realm : Bytes
  pub spoofed : Bool
  pub whois_sent : Bool
  pub sync_counter : ℕ
  pub lagging : Bool
  pub started_lagging : Option ℕ
  pub loaded : Bool
  pub download_status : ℕ
  pub ping_history : List ℕ
  pub reconnect_key : ℕ
  pub gproxy : Bool
  pub gproxy_buffer : Option GProxyBuffer
  pub disconnected_since : Option ℕ
  pub muted : Bool
  pub reserved : Bool
  pub total_packets_sent : ℕ
  pub total_packets_received : ℕ
  pub checksums : List ChecksumEntry
  pub consecutive_send_failures : ℕ
  pub left_code : ℕ
  pub left : Option Bytes
  pub virtual_host : Bool
  pub finished_loading_at : Option ℕ
  pub download_allowed : Bool
  pub stats_sent_time : Option ℕ
  pub stats_dota_sent_time : Option ℕ
  pub last_gproxy_wait_notice : Option ℕ
  pub gproxy_disconnect_notice_sent : Bool
  pub rejoin : RejoinStage
  pub catchup_cursor : Option ℕ
  pub catching_up : Bool

-- `Player::new`; 13 is PLAYERLEAVE_LOBBY.
unfoldable pub new_player : ℕ → Bytes → ℕ → PlayerLink → Player
new_player pid name conn_id link = record {
  pid = pid;
  name = name;
  conn_id = conn_id;
  link = link;
  external_ip = 0 ∷ 0 ∷ 0 ∷ 0 ∷ [];
  internal_ip = 0 ∷ 0 ∷ 0 ∷ 0 ∷ [];
  joined_realm = [];
  spoofed = false;
  whois_sent = false;
  sync_counter = 0;
  lagging = false;
  started_lagging = none;
  loaded = false;
  download_status = 255;
  ping_history = [];
  reconnect_key = 0;
  gproxy = false;
  gproxy_buffer = none;
  disconnected_since = none;
  muted = false;
  reserved = false;
  total_packets_sent = 0;
  total_packets_received = 0;
  checksums = [];
  consecutive_send_failures = 0;
  left_code = 13;
  left = none;
  virtual_host = false;
  finished_loading_at = none;
  download_allowed = false;
  stats_sent_time = none;
  stats_dota_sent_time = none;
  last_gproxy_wait_notice = none;
  gproxy_disconnect_notice_sent = false;
  rejoin = normal;
  catchup_cursor = none;
  catching_up = false;
}

-- One ping into the history, the oldest of ten given up.
unfoldable pub push_ping : List ℕ → ℕ → List ℕ
push_ping history ping_ms =
    (if length history == ping_history_len then drop 1 history else history) ++ ping_ms ∷ []

unfoldable pub record_ping : Player → ℕ → Player
unfolding push_ping
record_ping p ping_ms = record p { ping_history = push_ping p.ping_history ping_ms }

-- `iter().sum()` of u32 values.
unfoldable pub sum : List ℕ → ℕ
sum [] = 0
sum (x ∷ xs) = x + sum xs

abbrev pub average : List ℕ → Option ℕ
average [] = none
average (x ∷ xs) = some (as_u32 (sum (x ∷ xs)) / length (x ∷ xs))

unfoldable pub average_ping : Player → Option ℕ
average_ping p = average p.ping_history

abbrev pub PlayerTable : Type 0
PlayerTable = List Player

unfoldable pub insert : PlayerTable → Player → PlayerTable
insert players p = players ++ p ∷ []

-- `iter().find(test)`, and the table behind `Vec::remove` of that entry.
unfoldable pub find : (Player → Bool) → PlayerTable → Option Player
find test [] = none
find test (p ∷ players) = if test p then some p else find test players

pub remove_first : (Player → Bool) → PlayerTable → PlayerTable
remove_first test [] = []
remove_first test (p ∷ players) = if test p then players else p ∷ remove_first test players

abbrev pub has_pid : ℕ → Player → Bool
has_pid pid p = p.pid == pid

abbrev pub has_conn : ℕ → Player → Bool
has_conn conn_id p = p.conn_id == conn_id

unfoldable pub remove_pid : PlayerTable → ℕ → Option Player × PlayerTable
remove_pid players pid = (find (has_pid pid) players, remove_first (has_pid pid) players)

unfoldable pub by_pid : PlayerTable → ℕ → Option Player
by_pid players pid = find (has_pid pid) players

unfoldable pub by_conn : PlayerTable → ℕ → Option Player
by_conn players conn_id = find (has_conn conn_id) players

-- What a write through `by_pid_mut` or `by_conn_mut` does: the first match is replaced.
unfoldable pub update_first : (Player → Bool) → (Player → Player) → PlayerTable → PlayerTable
update_first test f [] = []
update_first test f (p ∷ players) =
    if test p then f p ∷ players else p ∷ update_first test f players

unfoldable pub with_pid : PlayerTable → ℕ → (Player → Player) → PlayerTable
with_pid players pid f = update_first (has_pid pid) f players

unfoldable pub with_conn : PlayerTable → ℕ → (Player → Player) → PlayerTable
with_conn players conn_id f = update_first (has_conn conn_id) f players

unfoldable pub filter : (Player → Bool) → PlayerTable → PlayerTable
filter test [] = []
filter test (p ∷ players) = let rest = filter test players in if test p then p ∷ rest else rest

unfoldable pub iter_humans : PlayerTable → PlayerTable
unfolding filter
iter_humans players = filter (λ p. not p.virtual_host) players

unfoldable pub human_count : PlayerTable → ℕ
unfolding iter_humans
human_count players = length (iter_humans players)

-- `(1u8..=254).find(..)`, with the candidates left.
unfoldable pub pid_loop : ℕ → ℕ → PlayerTable → Option ℕ
pid_loop zero c players = none
pid_loop (suc rounds) c players =
    let rest = pid_loop rounds (c + 1) players in if any (has_pid c) players then rest else some c

unfoldable pub next_free_pid : PlayerTable → Option ℕ
next_free_pid players = pid_loop 254 1 players

-- `(0u8..=11).find(..).unwrap_or(0)`.
pub colour_loop : ℕ → ℕ → SlotTable → ℕ
colour_loop zero c slots = 0
colour_loop (suc rounds) c slots =
    let rest = colour_loop rounds (c + 1) slots in
    if any (λ s. s.colour == c) slots then rest else c

unfoldable pub next_free_colour : SlotTable → ℕ
next_free_colour slots = colour_loop 12 0 slots
