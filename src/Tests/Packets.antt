-- ===== src/Tests/Packets.antt =====
-- The messages of GPS and W3GS at concrete inputs.
use ghostrs.Base.{◌≡◌, refl, [], ◌∷◌, ◌++◌, some, arith, length, take, le32, text}
use ghostrs.Protocol.Error.{ProtoError, truncated, ok, err}
use ghostrs.Protocol.Utf8.{ascii-IsUtf8}
use ghostrs.Protocol.Buffer.{Bytes}
use ghostrs.Protocol.Frame.{encode_with, decode}
use ghostrs.Protocol.W3gs.Slot.{SlotInfo}
use ghostrs.Protocol.W3gs.Incoming.{ReqJoin, req_join, run, ChatToHost, decode_map_part_not_ok}
use ghostrs.Protocol.W3gs.Incoming.Join.{join_bytes, IsJoin, decode_req_join}
use ghostrs.Protocol.W3gs.Incoming.Others.{talk_extra, IsChatBody, decode_map_part_not_ok_lem}
use ghostrs.Protocol.W3gs.Outgoing.{
  w3gs_header, put, check_lengths, is_empty, ActionBlock, encode_actions_raw, action_payload,
  incoming_action, slot_block,
}
use ghostrs.Protocol.W3gs.Outgoing.Actions.{read_actions, tick_payload, incoming_action_lem}
use ghostrs.Protocol.W3gs.Outgoing.Slots.{read_block, read_block-slot_block}

abbrev joining : ReqJoin
joining = record {
  host_counter = 1;
  entry_key = 2;
  listen_port = 6112;
  peer_key = 3;
  name = text "Blue";
  internal_ip = 10 ∷ 0 ∷ 0 ∷ 7 ∷ [];
}

joining-IsJoin : IsJoin joining (0 ∷ 0 ∷ 0 ∷ 0 ∷ 0 ∷ 0 ∷ [])
joining-IsJoin = record {
  host_counter = omega arith;
  entry_key = omega arith;
  listen_port = omega arith;
  peer_key = omega arith;
  named = omega arith;
  text = ascii-IsUtf8 (text "Blue") (ground arith);
  no_nul = ground arith;
  skipped = refl;
  ip = refl;
}

decode_req_join_example :
    (run req_join (join_bytes joining 0 (0 ∷ 0 ∷ 0 ∷ 0 ∷ 0 ∷ 0 ∷ [])) ≡ ok joining)
    × ((e : ProtoError) × (run req_join
            (take 29 (join_bytes joining 0 (0 ∷ 0 ∷ 0 ∷ 0 ∷ 0 ∷ 0 ∷ [])))
          ≡ err e))
decode_req_join_example =
    decode_req_join joining 0 (0 ∷ 0 ∷ 0 ∷ 0 ∷ 0 ∷ 0 ∷ []) 29 joining-IsJoin (omega arith)

abbrev chat : ChatToHost
chat = record {
  to_pids = 1 ∷ 2 ∷ [];
  from_pid = 3;
  flag = 0x20;
  extra = 0 ∷ 0 ∷ 0 ∷ 0 ∷ [];
  message = text "hi";
  byte = 0;
}

abbrev chat_form : IsChatBody chat
chat_form = talk_extra refl refl refl (ground arith) (ascii-IsUtf8 (text "hi") (ground arith))

abbrev skipped4 : Bytes
skipped4 = 9 ∷ 9 ∷ 9 ∷ 9 ∷ []

decode_map_part_not_ok_example :
    (decode_map_part_not_ok (1 ∷ 2 ∷ skipped4 ++ le32 77 ++ []) ≡ ok 77)
    × (decode_map_part_not_ok (1 ∷ 2 ∷ le32 77 ++ 4 ∷ []) ≡ ok 77)
    × (decode_map_part_not_ok (8 ∷ []) ≡ err (truncated 6 1))
decode_map_part_not_ok_example =
    decode_map_part_not_ok_lem 1 2 77 skipped4 [] (4 ∷ []) (8 ∷ []) (omega arith) refl (omega arith)
      (omega arith)

-- A checksum that adds the lengths up serves as `crc32`.
abbrev block : ActionBlock
block = record { pid = 2; actions = 0x60 ∷ 1 ∷ [] }

abbrev tick : Bytes
tick = 0xF7 ∷ 0x0C ∷ 13 ∷ 0 ∷ 100 ∷ 0 ∷ 5 ∷ 0 ∷ 2 ∷ 2 ∷ 0 ∷ 0x60 ∷ 1 ∷ []

incoming_action_example :
    (decode w3gs_header (tick ++ [])
      ≡ (ok (some (record { id = 0x0C; payload = tick_payload length (block ∷ []) 100 })), []))
    × (read_actions 1 (encode_actions_raw (block ∷ [])) ≡ (ok (block ∷ []), []))
unfolding put encode_actions_raw check_lengths is_empty action_payload incoming_action encode_with
incoming_action_example = incoming_action_lem length (block ∷ []) 100 tick [] refl

abbrev first_slot : SlotInfo
first_slot = record {
  pid = 2;
  download_status = 100;
  slot_status = 2;
  computer = 0;
  team = 0;
  colour = 1;
  race = 8;
  computer_type = 1;
  handicap = 100;
}

read_block_example :
    (read_block (slot_block (first_slot ∷ []) 0xDEADBEEF 3 12 ++ 1 ∷ []) ≡ (
      ok (record {
        block_len = 16;
        slots = first_slot ∷ [];
        random_seed = 0xDEADBEEF;
        layout_style = 3;
        player_slots = 12;
      }),
      1 ∷ [],
    ))
    × (length (slot_block (first_slot ∷ []) 0xDEADBEEF 3 12) ≡ 18)
read_block_example =
    read_block-slot_block (first_slot ∷ []) 0xDEADBEEF 3 12 (1 ∷ []) (omega arith) (omega arith)
