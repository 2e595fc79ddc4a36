-- ===== src/Protocol/W3gs/Incoming.antt =====
-- crates/spectre-protocol/src/w3gs/incoming.rs: what clients send. Each packet is a read of the
-- payload, and its decoder drops what the read leaves.
pub mod Join
pub mod Others
use ghostrs.Base.{
  ℕ, ◌+◌, ◌≡◌, Bool, true, false, ◌&&◌, List, [], ◌∷◌, ◌++◌, Option, none, some, ltb, leb, ◌==◌,
  if◌then◌else◌, length, get_or, take, drop, from_le32,
}
use ghostrs.Protocol.Error.{ProtoError, truncated, bad_value, Result, ok, err}
use ghostrs.Protocol.Buffer.{
  Bytes, Read, ◌>>=◌, ◌>>◌, return, fail, try_get_u8, try_get_u16_le, try_get_u32_le, try_get_bytes,
  try_get_cstring,
}

abbrev pub run : {A : Type 0} → Read A → Bytes → Result A
run m payload = (m payload).0

-- `[ip[0], ip[1], ip[2], ip[3]]`.
abbrev pub quad : Bytes → Bytes
quad ip = get_or ip 0 0 ∷ get_or ip 1 0 ∷ get_or ip 2 0 ∷ get_or ip 3 0 ∷ []

pub record ReqJoin : Type 0 where
  pub host_counter : ℕ
  pub entry_key : ℕ
  pub listen_port : ℕ
  pub peer_key : ℕ
  pub name : Bytes
  pub internal_ip : Bytes

abbrev pub non_empty : Bytes → Read Bytes
non_empty [] = fail (bad_value "empty player name")
non_empty (c ∷ cs) = return (c ∷ cs)

unfoldable pub req_join : Read ReqJoin
req_join = do
  host_counter ← try_get_u32_le
  entry_key ← try_get_u32_le
  _ ← try_get_u8
  listen_port ← try_get_u16_le
  peer_key ← try_get_u32_le
  name ← try_get_cstring
  name ← non_empty name
  _ ← try_get_bytes 6
  ip ← try_get_bytes 4
  return (record {
    host_counter = host_counter;
    entry_key = entry_key;
    listen_port = listen_port;
    peer_key = peer_key;
    name = name;
    internal_ip = quad ip;
  })

pub record OutgoingAction : Type 0 where
  pub crc : ℕ
  pub actions : Bytes

-- `payload.len() < 4`, then `payload.slice(4..)`.
unfoldable pub decode_outgoing_action : Bytes → Result OutgoingAction
decode_outgoing_action payload =
    if ltb (length payload) 4
    then err (truncated 4 (length payload))
    else ok (record {
      crc =
          from_le32 (get_or payload 0 0) (get_or payload 1 0) (get_or payload 2 0)
            (get_or payload 3 0);
      actions = drop 4 payload;
    })

pub record ChatToHost : Type 0 where
  pub to_pids : Bytes
  pub from_pid : ℕ
  pub flag : ℕ
  pub extra : Bytes
  pub message : Bytes
  pub byte : ℕ

-- The `match flag`: what it sets of `extra`, `message` and `byte`.
unfoldable pub chat_body : ℕ → Read (Bytes × Bytes × ℕ)
chat_body flag =
    if flag == 0x10
    then (do message ← try_get_cstring; return ([], message, 0))
    else if leb 0x11 flag && leb flag 0x14
    then (do byte ← try_get_u8; return ([], [], byte))
    else if flag == 0x20
    then (do extra ← try_get_bytes 4; message ← try_get_cstring; return (extra, message, 0))
    else fail (bad_value "unknown chat-to-host flag")

unfoldable pub chat_to_host : Read ChatToHost
chat_to_host = do
  count ← try_get_u8
  to_pids ← try_get_bytes count
  from_pid ← try_get_u8
  flag ← try_get_u8
  (extra, message, byte) ← chat_body flag
  return (record {
    to_pids = to_pids;
    from_pid = from_pid;
    flag = flag;
    extra = extra;
    message = message;
    byte = byte;
  })

pub record MapSizeReport : Type 0 where
  pub size_flag : ℕ
  pub map_size : ℕ

unfoldable pub map_size_report : Read MapSizeReport
map_size_report = do
  _ ← try_get_bytes 4
  size_flag ← try_get_u8
  map_size ← try_get_u32_le
  return (record { size_flag = size_flag; map_size = map_size })

unfoldable pub leave_game : Read ℕ
leave_game = try_get_u32_le

unfoldable pub keepalive : Read ℕ
keepalive = do _ ← try_get_u8; try_get_u32_le

unfoldable pub pong_to_host : Read ℕ
pong_to_host = try_get_u32_le

unfoldable pub map_part_ok : Read ℕ
map_part_ok = do _ ← try_get_u8; _ ← try_get_u8; _ ← try_get_bytes 4; try_get_u32_le

-- `decode_map_part_not_ok`: the position stands at 6, or at 2 in the short form.
unfoldable pub decode_map_part_not_ok : Bytes → Result ℕ
decode_map_part_not_ok payload =
    let at = if leb 10 (length payload) then drop 6 payload else drop 2 payload in
    if ltb (length payload) 6
    then err (truncated 6 (length payload))
    else ok (from_le32 (get_or at 0 0) (get_or at 1 0) (get_or at 2 0) (get_or at 3 0))
