-- ===== src/Protocol/DotaTv.antt =====
-- crates/spectre-protocol/src/dotatv.rs: the frames between the host and its spectators. A decoder
-- is a read of the payload that drops what the read leaves.
pub mod Ids
pub mod Messages
pub mod Snapshot
use ghostrs.Base.{
  ℕ, ◌+◌, Bool, true, false, not, List, [], ◌∷◌, ◌++◌, ltb, ◌==◌, if◌then◌else◌, length, get_or,
  take, le16, le32, from_le16, as_u8,
}
use ghostrs.Protocol.Error.{ProtoError, truncated, unterminated_string, bad_value, Result, ok, err}
use ghostrs.Protocol.Buffer.{
  Bytes, Read, ◌>>=◌, ◌>>◌, return, try_get_u8, try_get_u16_le, try_get_u32_le, try_get_bytes,
  try_get_cstring, cstring,
}
use ghostrs.Protocol.Frame.{Frame, encode_with}
use ghostrs.Protocol.DotaTv.Ids
use ghostrs.Protocol.W3gs.Slot.{SlotInfo}
use ghostrs.Protocol.W3gs.Outgoing.{encode_slots, w3gs_header}
use ghostrs.Protocol.W3gs.Outgoing.Slots.{read_slots}

abbrev pub dotatv_header : ℕ
dotatv_header = 0xFD

abbrev pub framed : ℕ → Bytes → Result Bytes
framed id payload = encode_with (record { id = id; payload = payload }) dotatv_header

pub record GameStartSnapshot : Type 0 where
  pub game_name : Bytes
  pub map_path : Bytes
  pub map_size : ℕ
  pub map_info_crc : ℕ
  pub map_crc : ℕ
  pub map_sha1 : Bytes
  pub stat_string : Bytes
  pub random_seed : ℕ
  pub layout_style : ℕ
  pub player_slots : ℕ
  pub war3_version : ℕ
  pub is_tft : Bool
  pub slots : List SlotInfo

pub record PlayerInfo : Type 0 where
  pub pid : ℕ
  pub name : Bytes
  pub colour : ℕ
  pub team : ℕ
  pub race : ℕ

pub record SpectatorChat : Type 0 where
  pub sender : Bytes
  pub chat_text : Bytes

unfoldable pub encode_hello : ℕ → Bytes → Result Bytes
encode_hello version server_name = framed Ids.hello (le16 version ++ cstring server_name)

unfoldable pub decode_hello : Read (ℕ × Bytes)
decode_hello = do
  version ← try_get_u16_le
  server_name ← try_get_cstring
  return (version, server_name)

-- What stands before the slots.
abbrev pub snapshot_head : GameStartSnapshot → Bytes
snapshot_head s =
    cstring s.game_name
    ++ cstring s.map_path
    ++ le32 s.map_size
    ++ le32 s.map_info_crc
    ++ le32 s.map_crc
    ++ s.map_sha1
    ++ cstring s.stat_string
    ++ le32 s.random_seed
    ++ (s.layout_style ∷ s.player_slots ∷ s.war3_version ∷ (if s.is_tft then 1 else 0) ∷ [])

unfoldable pub encode_snapshot : GameStartSnapshot → Result Bytes
encode_snapshot s =
    if ltb 255 (length s.slots)
    then err (bad_value "too many slots in snapshot")
    else framed Ids.game_start_snapshot
        (snapshot_head s ++ as_u8 (length s.slots) ∷ encode_slots s.slots)

-- The loop over the stat string, with the bytes that it has pushed.
unfoldable pub stat_loop : Bytes → Read Bytes
stat_loop out [] = (err unterminated_string, [])
stat_loop out (b ∷ rest) = if b == 0 then (ok out, rest) else stat_loop (out ++ b ∷ []) rest

unfoldable pub decode_snapshot : Read GameStartSnapshot
decode_snapshot = do
  game_name ← try_get_cstring
  map_path ← try_get_cstring
  map_size ← try_get_u32_le
  map_info_crc ← try_get_u32_le
  map_crc ← try_get_u32_le
  map_sha1 ← try_get_bytes 20
  stat_string ← stat_loop []
  random_seed ← try_get_u32_le
  layout_style ← try_get_u8
  player_slots ← try_get_u8
  war3_version ← try_get_u8
  tft ← try_get_u8
  num_slots ← try_get_u8
  slots ← read_slots num_slots
  return (record {
    game_name = game_name;
    map_path = map_path;
    map_size = map_size;
    map_info_crc = map_info_crc;
    map_crc = map_crc;
    map_sha1 = map_sha1;
    stat_string = stat_string;
    random_seed = random_seed;
    layout_style = layout_style;
    player_slots = player_slots;
    war3_version = war3_version;
    is_tft = not (tft == 0);
    slots = slots;
  })

unfoldable pub encode_player : ℕ → Bytes → ℕ → ℕ → ℕ → Result Bytes
encode_player pid name colour team race =
    framed Ids.player (pid ∷ cstring name ++ (colour ∷ team ∷ race ∷ []))

unfoldable pub decode_player : Read PlayerInfo
decode_player = do
  pid ← try_get_u8
  name ← try_get_cstring
  colour ← try_get_u8
  team ← try_get_u8
  race ← try_get_u8
  return (record { pid = pid; name = name; colour = colour; team = team; race = race })

unfoldable pub encode_action : Bytes → Result Bytes
encode_action w3gs_raw_frame = framed Ids.action w3gs_raw_frame

unfoldable pub decode_action : Bytes → Result Bytes
decode_action payload =
    let len = from_le16 (get_or payload 2 0) (get_or payload 3 0) in
    if ltb (length payload) 4
    then err (truncated 4 (length payload))
    else if not (get_or payload 0 0 == w3gs_header)
    then err (bad_value "action frame missing 0xF7 header")
    else if ltb len 4
    then err (bad_value "action frame length below header size")
    else if ltb (length payload) len
    then err (truncated len (length payload))
    else ok (take len payload)

unfoldable pub encode_chat : Bytes → Bytes → Result Bytes
encode_chat sender chat_text = framed Ids.chat (cstring sender ++ cstring chat_text)

unfoldable pub decode_chat : Read SpectatorChat
decode_chat = do
  sender ← try_get_cstring
  chat_text ← try_get_cstring
  return (record { sender = sender; chat_text = chat_text })

unfoldable pub encode_game_over : Bytes → Result Bytes
encode_game_over winner = framed Ids.game_over (cstring winner)

unfoldable pub decode_game_over : Read Bytes
decode_game_over = try_get_cstring

unfoldable pub encode_history_end : ℕ → Result Bytes
encode_history_end count = framed Ids.history_end (le32 count)

unfoldable pub decode_history_end : Read ℕ
decode_history_end = try_get_u32_le

unfoldable pub encode_subscribe : ℕ → Result Bytes
encode_subscribe client_version = framed Ids.subscribe (le16 client_version)

unfoldable pub decode_subscribe : Read ℕ
decode_subscribe = try_get_u16_le

unfoldable pub encode_client_chat : Bytes → Result Bytes
encode_client_chat chat_text = framed Ids.client_chat (cstring chat_text)

unfoldable pub decode_client_chat : Read Bytes
decode_client_chat = try_get_cstring
