-- ===== src/Protocol/W3gs/Incoming/Others.antt =====
-- The other packets of clients, read back from their bytes.
use ghostrs.Base.{
  ℕ, ◌<◌, ◌≤◌, ◌≡◌, ◌≢◌, refl, sym, ◌⊎◌, [], ◌∷◌, ◌++◌, arith, length, IsU32, le32, append_assoc,
  from_le32-le32,
}
use ghostrs.Protocol.Error.{truncated, bad_value, ok, err}
use ghostrs.Protocol.Utf8.{IsUtf8}
use ghostrs.Protocol.Buffer.{Bytes, cstring}
use ghostrs.Protocol.Buffer.Reads.{NulFree, get_u8, get_u32, get_bytes, get_cstring}
use ghostrs.Protocol.W3gs.Incoming.{
  decode_outgoing_action, ChatToHost, chat_body, chat_to_host, map_size_report, leave_game,
  keepalive, pong_to_host, map_part_ok, decode_map_part_not_ok,
}

abbrev IsText : Bytes → Type 0
IsText s = NulFree s × IsUtf8 s

-- The three forms of a chat packet, by its flag.
pub data IsChatBody (c : ChatToHost) : Type 0 where
  talk :
      c.flag ≡ 0x10
      → c.extra ≡ []
      → c.byte ≡ 0
      → NulFree c.message
      → IsUtf8 c.message
      → IsChatBody c
  request : 0x11 ≤ c.flag → c.flag ≤ 0x14 → c.extra ≡ [] → c.message ≡ [] → IsChatBody c
  talk_extra :
      c.flag ≡ 0x20
      → length c.extra ≡ 4
      → c.byte ≡ 0
      → NulFree c.message
      → IsUtf8 c.message
      → IsChatBody c

pub body_bytes : {c : ChatToHost} → IsChatBody c → Bytes
body_bytes {c} (talk _ _ _ _ _) = cstring c.message
body_bytes {c} (request _ _ _ _) = c.byte ∷ []
body_bytes {c} (talk_extra _ _ _ _ _) = c.extra ++ cstring c.message

chat_body_lem :
    {c : ChatToHost} (b : IsChatBody c) (rest : Bytes)
    → chat_body c.flag (body_bytes b ++ rest) ≡ (ok (c.extra, c.message, c.byte), rest)
unfolding chat_body body_bytes
chat_body_lem {c} (talk f x y n u) rest = rw (f, x, y) (rw (get_cstring c.message rest n u))
chat_body_lem {c} (request f g x y) rest = ground (arith, get_u8 c.byte rest)
chat_body_lem {c} (talk_extra f x y n u) rest =
    rw (f, y, append_assoc c.extra (cstring c.message) rest)
      (rw (get_bytes c.extra (cstring c.message ++ rest) 4 (sym x), get_cstring c.message rest n u))

-- `ChatToHost::decode` reads a chat packet of each of the three forms back, and leaves what follows.
pub decode_chat_to_host :
    (c : ChatToHost) (b : IsChatBody c) (rest : Bytes)
    → chat_to_host (length c.to_pids ∷ c.to_pids ++ c.from_pid ∷ c.flag ∷ body_bytes b ++ rest)
      ≡ (ok c, rest)
unfolding chat_to_host
decode_chat_to_host c b rest = rw (
  get_u8,
  append_assoc c.to_pids _ rest,
  get_bytes c.to_pids _ (length c.to_pids) refl,
  get_u8,
  get_u8,
  chat_body_lem b rest,
)

-- A flag of no form is refused.
pub chat_body_unknown :
    (flag : ℕ) (src : Bytes)
    → flag ≢ 0x10
    → (flag < 0x11) ⊎ (0x14 < flag)
    → flag ≢ 0x20
    → chat_body flag src ≡ (err (bad_value "unknown chat-to-host flag"), src)
unfolding chat_body
chat_body_unknown flag src a b c = ground arith

-- Each of the packets with fixed fields gives its 32-bit field and its other fields back, whatever
-- the four bytes that it skips.
pub fixed_packets :
    (a b flag n : ℕ) (skipped rest : Bytes)
    → IsU32 n
    → length skipped ≡ 4
    → (map_size_report (skipped ++ flag ∷ le32 n ++ rest)
        ≡ (ok (record { size_flag = flag; map_size = n }), rest))
      × (leave_game (le32 n ++ rest) ≡ (ok n, rest))
      × (keepalive (a ∷ le32 n ++ rest) ≡ (ok n, rest))
      × (pong_to_host (le32 n ++ rest) ≡ (ok n, rest))
      × (map_part_ok (a ∷ b ∷ skipped ++ le32 n ++ rest) ≡ (ok n, rest))
      × (decode_outgoing_action (le32 n ++ rest) ≡ ok (record { crc = n; actions = rest }))
unfolding map_size_report leave_game keepalive pong_to_host map_part_ok decode_outgoing_action
fixed_packets a b flag n skipped rest h l = (
  rw (
    append_assoc skipped (flag ∷ le32 n) rest,
    get_bytes skipped _ 4 (sym l),
    get_u8,
    get_u32 n rest h,
  ),
  rw (get_u32 n rest h),
  rw (get_u8, get_u32 n rest h),
  rw (get_u32 n rest h),
  rw (
    append_assoc skipped (le32 n) rest,
    get_u8,
    get_u8,
    get_bytes skipped _ 4 (sym l),
    get_u32 n rest h,
  ),
  ground (arith, from_le32-le32 n h),
)

-- MAP_PART_NOT_OK: with ten bytes or more the position stands behind six, with six to nine bytes
-- behind two, and fewer than six are refused.
pub decode_map_part_not_ok_lem :
    (a b n : ℕ) (skipped rest tail short : Bytes)
    → IsU32 n
    → length skipped ≡ 4
    → length tail < 4
    → length short < 6
    → (decode_map_part_not_ok (a ∷ b ∷ skipped ++ le32 n ++ rest) ≡ ok n)
      × (decode_map_part_not_ok (a ∷ b ∷ le32 n ++ tail) ≡ ok n)
      × (decode_map_part_not_ok short ≡ err (truncated 6 (length short)))
unfolding decode_map_part_not_ok
decode_map_part_not_ok_lem a b n (s ∷ t ∷ u ∷ v ∷ []) rest tail short h l k m =
    (ground (arith, from_le32-le32 n h), ground (arith, from_le32-le32 n h), ground arith)
decode_map_part_not_ok_lem a b n [] rest tail short h l k m = absurd (omega arith)
decode_map_part_not_ok_lem a b n (s ∷ []) rest tail short h l k m = absurd (omega arith)
decode_map_part_not_ok_lem a b n (s ∷ t ∷ []) rest tail short h l k m = absurd (omega arith)
decode_map_part_not_ok_lem a b n (s ∷ t ∷ u ∷ []) rest tail short h l k m = absurd (omega arith)
decode_map_part_not_ok_lem a b n (s ∷ t ∷ u ∷ v ∷ w ∷ r) rest tail short h l k m =
    absurd (omega arith)
