-- ===== src/Tests/Wire.antt =====
-- The spectators' messages and the dual codec at concrete inputs.
use ghostrs.Base.{◌≡◌, refl, true, [], ◌∷◌, ◌++◌, some, arith, text}
use ghostrs.Protocol.Error.{ok}
use ghostrs.Protocol.Utf8.{ascii-IsUtf8}
use ghostrs.Protocol.Buffer.{Bytes}
use ghostrs.Protocol.Frame.{Frame}
use ghostrs.Protocol.Frame.RoundTrip.{wire}
use ghostrs.Protocol.W3gs.Slot.{SlotInfo}
use ghostrs.Protocol.W3gs.Outgoing.{encode_slots}
use ghostrs.Protocol.DotaTv.{GameStartSnapshot, encode_snapshot, decode_snapshot}
use ghostrs.Protocol.DotaTv.Messages.{IsText, Arrives}
use ghostrs.Protocol.DotaTv.Snapshot.{IsSnapshot, snapshot-Arrives}
use ghostrs.Net.Conn.{decode_dual}
use ghostrs.Net.Conn.Streams.{tag_of, resume_dual, decode_dual-resume, decode_dual-wire}

abbrev name : Bytes
name = text "Red"

abbrev hi : Bytes
hi = text "hi"

name-IsText : IsText name
name-IsText = (ground arith, ascii-IsUtf8 name (ground arith))

hi-IsText : IsText hi
hi-IsText = (ground arith, ascii-IsUtf8 hi (ground arith))

abbrev action_frame : Frame
action_frame = record { id = 0x0C; payload = 100 ∷ 0 ∷ [] }

abbrev first_slot : SlotInfo
first_slot = record {
  pid = 1;
  download_status = 100;
  slot_status = 2;
  computer = 0;
  team = 0;
  colour = 0;
  race = 32;
  computer_type = 1;
  handicap = 100;
}

abbrev snapshot : GameStartSnapshot
snapshot = record {
  game_name = name;
  map_path = hi;
  map_size = 1000;
  map_info_crc = 1;
  map_crc = 2;
  map_sha1 =
      1 ∷ 2 ∷ 3 ∷ 4 ∷ 5 ∷ 6 ∷ 7 ∷ 8 ∷ 9 ∷ 10 ∷ 11 ∷ 12 ∷ 13 ∷ 14 ∷ 15 ∷ 16 ∷ 17 ∷ 18 ∷ 19 ∷ 20 ∷ [];
  stat_string = 1 ∷ 3 ∷ 5 ∷ [];
  random_seed = 9;
  layout_style = 0;
  player_slots = 2;
  war3_version = 26;
  is_tft = true;
  slots = first_slot ∷ [];
}

snapshot-IsSnapshot : IsSnapshot snapshot
unfolding encode_slots
snapshot-IsSnapshot = record {
  game_name = name-IsText;
  map_path = hi-IsText;
  map_size = omega arith;
  map_info_crc = omega arith;
  map_crc = omega arith;
  map_sha1 = refl;
  stat_string = ground arith;
  random_seed = omega arith;
  slots = omega arith;
  fits = omega arith;
}

snapshot-Arrives_example : Arrives decode_snapshot (encode_snapshot snapshot) snapshot
snapshot-Arrives_example = snapshot-Arrives snapshot snapshot-IsSnapshot

-- A keepalive cut behind its first three bytes, behind a stray byte.
decode_dual-resume_example :
    decode_dual ((9 ∷ 0xF7 ∷ 0x27 ∷ 9 ∷ []) ++ (0 ∷ 0 ∷ 1 ∷ 2 ∷ 3 ∷ 4 ∷ []))
    ≡ resume_dual (decode_dual (9 ∷ 0xF7 ∷ 0x27 ∷ 9 ∷ [])) (0 ∷ 0 ∷ 1 ∷ 2 ∷ 3 ∷ 4 ∷ [])
decode_dual-resume_example =
    decode_dual-resume (9 ∷ 0xF7 ∷ 0x27 ∷ 9 ∷ []) (0 ∷ 0 ∷ 1 ∷ 2 ∷ 3 ∷ 4 ∷ [])

decode_dual-wire_example :
    decode_dual ((9 ∷ []) ++ wire 0xF8 action_frame ++ 1 ∷ [])
    ≡ (ok (some (tag_of 0xF8 action_frame)), 1 ∷ [])
decode_dual-wire_example =
    decode_dual-wire (9 ∷ []) 0xF8 action_frame (1 ∷ []) (refl, tt) refl (omega arith)
