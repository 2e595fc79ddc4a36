-- ===== src/Protocol/DotaTv/Snapshot.antt =====
-- The snapshot that starts a spectator's game.
use ghostrs.Base.{
  ◌≤◌, ◌<◌, ◌≡◌, refl, sym, ap, ◌∙◌, Bool, true, false, not, List, [], ◌∷◌, ◌++◌, arith, ltb, ◌==◌,
  if◌then◌else◌, length, IsU32, le32, as_u8, append_assoc, append-nil,
}
use ghostrs.Protocol.Error.{ok, err, bad_value}
use ghostrs.Protocol.Buffer.{Bytes, try_get_cstring}
use ghostrs.Protocol.Buffer.Reads.{NulFree, get_u8, get_u32, get_bytes, get_cstring}
use ghostrs.Protocol.W3gs.Slot.{SlotInfo}
use ghostrs.Protocol.W3gs.Outgoing.{encode_slots}
use ghostrs.Protocol.W3gs.Outgoing.Slots.{read_slots, read_slots_lem}
use ghostrs.Protocol.DotaTv.{
  GameStartSnapshot, snapshot_head, encode_snapshot, stat_loop, decode_snapshot,
}
use ghostrs.Protocol.DotaTv.Messages.{IsText, Arrives, framed-Arrives}

-- A snapshot whose fields fit.
pub record IsSnapshot (s : GameStartSnapshot) : Type 0 where
  pub game_name : IsText s.game_name
  pub map_path : IsText s.map_path
  pub map_size : IsU32 s.map_size
  pub map_info_crc : IsU32 s.map_info_crc
  pub map_crc : IsU32 s.map_crc
  pub map_sha1 : length s.map_sha1 ≡ 20
  pub stat_string : NulFree s.stat_string
  pub random_seed : IsU32 s.random_seed
  pub slots : length s.slots ≤ 255
  pub fits : length (snapshot_head s ++ as_u8 (length s.slots) ∷ encode_slots s.slots) ≤ 65531

stat_loop-append :
    (s out rest : Bytes) → NulFree s → stat_loop out (s ++ 0 ∷ rest) ≡ (ok (out ++ s), rest)
unfolding stat_loop
stat_loop-append [] out rest h = simp append-nil
stat_loop-append (b ∷ s) out rest h =
    ground (arith, stat_loop-append s (out ++ b ∷ []) rest h.1, append_assoc out (b ∷ []) s)

tft_flag : (b : Bool) → not ((if b then 1 else 0) == 0) ≡ b
tft_flag true = refl
tft_flag false = refl

read_text : (s rest : Bytes) → IsText s → try_get_cstring (s ++ 0 ∷ rest) ≡ (ok s, rest)
read_text s rest h =
    ap try_get_cstring (sym (append_assoc s (0 ∷ []) rest)) ∙ get_cstring s rest h.0 h.1

-- The snapshot with its appends nested to the right.
abbrev flat : GameStartSnapshot → Bytes → Bytes
flat s tail =
    s.game_name
    ++ 0
      ∷ (s.map_path
          ++ 0
            ∷ (le32 s.map_size
                ++ le32 s.map_info_crc
                ++ le32 s.map_crc
                ++ (s.map_sha1
                    ++ (s.stat_string
                        ++ 0
                          ∷ (le32 s.random_seed
                              ++ s.layout_style
                                ∷ s.player_slots
                                ∷ s.war3_version
                                ∷ (if s.is_tft then 1 else 0)
                                ∷ tail)))))

snapshot_head-flat : (s : GameStartSnapshot) (tail : Bytes) → snapshot_head s ++ tail ≡ flat s tail
snapshot_head-flat s tail = simp append_assoc

slots_alone : (ss : List SlotInfo) → read_slots (length ss) (encode_slots ss) ≡ (ok ss, [])
slots_alone ss = rw append-nil at (read_slots_lem ss [])

read_flat :
    (s : GameStartSnapshot)
    → IsSnapshot s
    → decode_snapshot (flat s (length s.slots ∷ encode_slots s.slots)) ≡ (ok s, [])
unfolding decode_snapshot
read_flat s v =
    rw
      (
        read_text s.game_name _ v.game_name,
        read_text s.map_path _ v.map_path,
        get_u32 s.map_size _ v.map_size,
        get_u32 s.map_info_crc _ v.map_info_crc,
        get_u32 s.map_crc _ v.map_crc,
        get_bytes s.map_sha1 _ 20 (sym v.map_sha1),
        stat_loop-append s.stat_string [] _ v.stat_string,
        get_u32 s.random_seed _ v.random_seed,
      )
      (rw (get_u8, get_u8, get_u8, get_u8, get_u8)
        (rw (slots_alone s.slots) (rw (tft_flag s.is_tft))))

-- A snapshot whose texts are UTF-8 without a NUL, whose numbers fit their fields, and which fits a
-- frame with its at most 255 slots, is built, framed and read back, with every slot.
pub snapshot-Arrives :
    (s : GameStartSnapshot) → IsSnapshot s → Arrives decode_snapshot (encode_snapshot s) s
unfolding encode_snapshot
snapshot-Arrives s v =
    let few : ltb 255 (length s.slots) ≡ false = ground (arith, v.slots) in
    let n : as_u8 (length s.slots) ≡ length s.slots = omega (arith, v.slots) in
    rw few (
      framed-Arrives decode_snapshot _ _ s v.fits
        (rw n (ap decode_snapshot (snapshot_head-flat s _) ∙ read_flat s v)))

-- Of 256 slots or more no snapshot is built.
pub snapshot_refused :
    (s : GameStartSnapshot)
    → 255 < length s.slots
    → encode_snapshot s ≡ err (bad_value "too many slots in snapshot")
unfolding encode_snapshot
snapshot_refused s many = ground arith
