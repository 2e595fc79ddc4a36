-- ===== src/Protocol/Gps.antt =====
-- crates/spectre-protocol/src/gps/mod.rs: the GProxy++ reconnect protocol. A message that the code
-- ends in `expect` is `none` where that would panic.
pub mod Messages
use ghostrs.Base.{ℕ, List, [], ◌∷◌, ◌++◌, Option, none, some, le16, le32}
use ghostrs.Protocol.Error.{Result, ok, err}
use ghostrs.Protocol.Buffer.{Bytes, Read, ◌>>=◌, ◌>>◌, return, try_get_u8, try_get_u32_le}
use ghostrs.Protocol.Frame.{Frame, encode_with}

abbrev pub gps_header : ℕ
gps_header = 0xF8

abbrev pub gps_iccup_header : ℕ
gps_iccup_header = 0x6F

unfoldable pub expect : {A : Type 0} → Result A → Option A
expect (ok a) = some a
expect (err e) = none

abbrev pub message : ℕ → ℕ → Bytes → Option Bytes
message header id payload = expect (encode_with (record { id = id; payload = payload }) header)

pub init : ℕ → ℕ → ℕ → ℕ → Option Bytes
init version pid reconnect_key num_empty_actions =
    message gps_header 0x01 (le32 version ++ pid ∷ le32 reconnect_key ++ num_empty_actions ∷ [])

pub ack : ℕ → Option Bytes
ack last_packet = message gps_header 0x03 (le32 last_packet)

unfoldable pub reconnect_ok : ℕ → Option Bytes
unfolding expect
reconnect_ok last_packet = message gps_header 0x02 (le32 last_packet)

unfoldable pub reject : ℕ → Option Bytes
unfolding expect
reject reason = message gps_header 0x04 (le32 reason)

unfoldable pub full : ℕ → ℕ → Option Bytes
full pid reconnect_key = message gps_header 0x05 (pid ∷ le32 reconnect_key)

pub iccup_init : ℕ → ℕ → ℕ → ℕ → Option Bytes
iccup_init reconn_port pid reconnect_key num_empty_actions =
    message gps_iccup_header 0x08
      (le16 reconn_port ++ le32 0 ++ pid ∷ le32 reconnect_key ++ num_empty_actions ∷ [])

pub iccup_reconnect_ok : ℕ → Option Bytes
iccup_reconnect_ok last_packet = message gps_iccup_header 0x16 (le32 last_packet ++ le32 0)

pub iccup_ack : ℕ → Option Bytes
iccup_ack last_packet = message gps_iccup_header 0x32 (le32 last_packet)

pub iccup_reject : ℕ → Option Bytes
iccup_reject reason = message gps_iccup_header 0x64 (le32 reason)

pub record ReconnectReq : Type 0 where
  pub pid : ℕ
  pub reconnect_key : ℕ
  pub last_packet : ℕ

pub reconnect_req : Read ReconnectReq
reconnect_req = do
  pid ← try_get_u8
  reconnect_key ← try_get_u32_le
  last_packet ← try_get_u32_le
  return (record { pid = pid; reconnect_key = reconnect_key; last_packet = last_packet })

pub decode_reconnect : Bytes → Result ReconnectReq
decode_reconnect payload = (reconnect_req payload).0

pub full_token : Read (ℕ × ℕ)
full_token = do pid ← try_get_u8; key ← try_get_u32_le; return (pid, key)

pub decode_full : Bytes → Result (ℕ × ℕ)
decode_full payload = (full_token payload).0
