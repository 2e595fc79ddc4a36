-- ===== src/Protocol/W3gs/Outgoing.antt =====
-- crates/spectre-protocol/src/w3gs/outgoing.rs: what the host sends. `crc32` stands for
-- `crc32fast::hash`. A packet that the code ends in `expect` is `none` where that would panic.
pub mod Actions
pub mod Slots
pub mod Fits
use ghostrs.Base.{
  ℕ, suc, ◌+◌, ◌*◌, ◌/◌, ◌%◌, ◌^◌, ◌≡◌, Bool, true, false, List, [], ◌∷◌, ◌++◌, Option, none, some,
  ltb, leb, ◌==◌, if◌then◌else◌, length, le16, le32, as_u8, as_u16,
}
use ghostrs.Protocol.Error.{ProtoError, bad_value, too_large, Result, ok, err, ◌>>=◌}
use ghostrs.Protocol.Buffer.{Bytes, cstring}
use ghostrs.Protocol.Frame.{Frame, encode_with}
use ghostrs.Protocol.Gps.{expect}
use ghostrs.Protocol.W3gs.Ids
use ghostrs.Protocol.W3gs.Slot.{SlotInfo, wire_len}
use ghostrs.Protocol.W3gs.Slot

-- `W3GS_HEADER`, and `W3gsFrameExt::encode`.
abbrev pub w3gs_header : ℕ
w3gs_header = 0xF7

abbrev pub framed : ℕ → Bytes → Result Bytes
framed id payload = encode_with (record { id = id; payload = payload }) w3gs_header

pub record ActionBlock : Type 0 where
  pub pid : ℕ
  pub actions : Bytes

-- `ActionBlock::put` appends this.
unfoldable pub put : ActionBlock → Bytes
put a = a.pid ∷ le16 (as_u16 (length a.actions)) ++ a.actions

unfoldable pub encode_actions_raw : List ActionBlock → Bytes
encode_actions_raw [] = []
encode_actions_raw (a ∷ as') = put a ++ encode_actions_raw as'

-- The loop that refuses a block whose length does not fit.
unfoldable pub check_lengths : List ActionBlock → Result (Unit {0})
check_lengths [] = ok tt
check_lengths (a ∷ rest) =
    if ltb 65535 (length a.actions) then err (too_large (length a.actions)) else check_lengths rest

unfoldable pub is_empty : List ActionBlock → Bool
is_empty [] = true
is_empty (a ∷ as') = false

module _ (crc32 : Bytes → ℕ) where
  unfoldable pub action_payload : List ActionBlock → ℕ → Result Bytes
  unfolding is_empty
  action_payload actions send_interval = do
    _ ← check_lengths actions
    let sub = encode_actions_raw actions
    let crc = crc32 sub
    if is_empty actions
        then ok (le16 send_interval)
        else ok (le16 send_interval ++ crc % 256 ∷ crc / 256 % 256 ∷ sub)

  unfoldable pub incoming_action : List ActionBlock → ℕ → Result Bytes
  incoming_action actions send_interval =
      action_payload actions send_interval >>= framed Ids.incoming_action

  unfoldable pub incoming_action2 : List ActionBlock → Result Bytes
  incoming_action2 actions = action_payload actions 0 >>= framed Ids.incoming_action2

  unfoldable pub map_part : ℕ → ℕ → ℕ → Bytes → Result Bytes
  map_part from_pid to_pid start chunk =
      framed Ids.map_part
        ((to_pid ∷ from_pid ∷ le32 1 ++ le32 start ++ le32 (crc32 chunk)) ++ chunk)

unfoldable pub encode_slots : List SlotInfo → Bytes
encode_slots [] = []
encode_slots (s ∷ ss) = Slot.encode s ++ encode_slots ss

pub slot_block : List SlotInfo → ℕ → ℕ → ℕ → Bytes
slot_block slots random_seed layout_style player_slots =
    le16 (as_u16 (1 + length slots * wire_len + 4 + 1 + 1))
    ++ (as_u8 (length slots) ∷ encode_slots slots
        ++ (le32 random_seed ++ layout_style ∷ player_slots ∷ []))

unfoldable pub slot_info : List SlotInfo → ℕ → ℕ → ℕ → Result Bytes
slot_info slots random_seed layout_style player_slots =
    framed Ids.slot_info (slot_block slots random_seed layout_style player_slots)

pub slot_info_join : ℕ → ℕ → Bytes → List SlotInfo → ℕ → ℕ → ℕ → Result Bytes
slot_info_join pid port external_ip slots random_seed layout_style player_slots =
    framed Ids.slot_info_join (
      slot_block slots random_seed layout_style player_slots
      ++ (pid ∷ le16 2 ++ le16 port ++ external_ip ++ (0 ∷ 0 ∷ 0 ∷ 0 ∷ 0 ∷ 0 ∷ 0 ∷ 0 ∷ [])))

abbrev eight_zeros : Bytes
eight_zeros = 0 ∷ 0 ∷ 0 ∷ 0 ∷ 0 ∷ 0 ∷ 0 ∷ 0 ∷ []

pub player_info : ℕ → Bytes → Bytes → Bytes → Result Bytes
player_info pid name external_ip internal_ip = framed Ids.player_info (
    le32 2
    ++ pid ∷ cstring name
    ++ (1 ∷ 0 ∷ le16 2 ++ le16 0 ++ external_ip ++ eight_zeros)
    ++ (le16 2 ++ le16 0 ++ internal_ip ++ eight_zeros))

pub chat_from_host : ℕ → Bytes → ℕ → Bytes → Bytes → Result Bytes
chat_from_host from_pid [] flag extra message =
    err (bad_value "chat_from_host needs at least one recipient")
chat_from_host from_pid (p ∷ ps) flag extra message =
    framed Ids.chat_from_host
      (as_u8 (length (p ∷ ps)) ∷ (p ∷ ps) ++ (from_pid ∷ flag ∷ extra ++ cstring message))

pub encode_laggers : List (ℕ × ℕ) → Bytes
encode_laggers [] = []
encode_laggers ((pid, lag_ms) ∷ rest) = pid ∷ le32 lag_ms ++ encode_laggers rest

unfoldable pub start_lag : List (ℕ × ℕ) → Result Bytes
start_lag laggers = framed Ids.start_lag (as_u8 (length laggers) ∷ encode_laggers laggers)

pub map_check : Bytes → ℕ → ℕ → ℕ → Bytes → Result Bytes
map_check map_path map_size map_info map_crc map_sha1 =
    framed Ids.map_check
      (le32 1 ++ cstring map_path ++ (le32 map_size ++ le32 map_info ++ le32 map_crc ++ map_sha1))

pub rejoin_token : ℕ → ℕ → ℕ → ℕ → Bytes → Bytes → Bytes → Result Bytes
rejoin_token pid reconnect_key host_port map_crc map_sha1 game_name map_name =
    framed Ids.rejoin_token (
      (pid ∷ le32 reconnect_key ++ le16 host_port ++ le32 map_crc)
      ++ map_sha1
      ++ cstring game_name
      ++ cstring map_name)

abbrev sent : ℕ → Bytes → Option Bytes
sent id payload = expect (framed id payload)

pub ping_from_host : ℕ → Option Bytes
ping_from_host ticks = sent Ids.ping_from_host (le32 ticks)

unfoldable pub reject_join : ℕ → Option Bytes
reject_join reason = sent Ids.reject_join (le32 reason)

unfoldable pub player_leave_others : ℕ → ℕ → Option Bytes
player_leave_others pid left_code = sent Ids.player_leave_others (pid ∷ le32 left_code)

unfoldable pub game_loaded_others : ℕ → Option Bytes
game_loaded_others pid = sent Ids.game_loaded_others (pid ∷ [])

pub countdown_start : Option Bytes
countdown_start = sent Ids.countdown_start []

pub countdown_end : Option Bytes
countdown_end = sent Ids.countdown_end []

unfoldable pub stop_lag : ℕ → ℕ → Option Bytes
stop_lag pid lag_ms = sent Ids.stop_lag (pid ∷ le32 lag_ms)

pub start_download : ℕ → Option Bytes
start_download from_pid = sent Ids.start_download (le32 1 ++ from_pid ∷ [])

pub record GameAdvert : Type 0 where
  pub tft : Bool
  pub war3_version : ℕ
  pub host_counter : ℕ
  pub entry_key : ℕ
  pub game_name : Bytes
  pub stat_string : Bytes
  pub slots_total : ℕ
  pub map_game_type : Bytes
  pub slots_open : ℕ
  pub up_time : ℕ
  pub port : ℕ

-- `game_info`, its eleven arguments as a record.
pub game_info : GameAdvert → Result Bytes
game_info g = framed Ids.game_info (
    (if g.tft then 80 ∷ 88 ∷ 51 ∷ 87 ∷ [] else 51 ∷ 82 ∷ 65 ∷ 87 ∷ [])
    ++ (g.war3_version ∷ 0 ∷ 0 ∷ 0 ∷ le32 g.host_counter ++ le32 g.entry_key)
    ++ cstring g.game_name
    ++ 0 ∷ g.stat_string
    ++ 0 ∷ le32 g.slots_total
    ++ g.map_game_type
    ++ 1 ∷ 0 ∷ 0 ∷ 0 ∷ le32 g.slots_open
    ++ le32 g.up_time
    ++ le16 g.port)
