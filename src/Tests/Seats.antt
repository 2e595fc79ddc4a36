-- ===== src/Tests/Seats.antt =====
-- The slot table and the player table at concrete inputs.
use ghostrs.Base.{
  map, ℕ, ◌+◌, ◌≡◌, refl, true, false, List, [], ◌∷◌, arith, text, ◌==◌, if◌then◌else◌,
}
use mathlib.Core.Option
use ghostrs.Protocol.W3gs.Slot.{SlotInfo}
use ghostrs.Engine.Link.{PlayerLink}
use ghostrs.Engine.Slots.{SlotTable, occupy_slot, count, count_open, count_occupied, add_computer}
use ghostrs.Engine.Slots.Update.{adds_computer, opens, apply, Writes, apply-Writes, apply_refuses}
use ghostrs.Engine.Slots.Counts.{counts-occupy_slot}
use ghostrs.Engine.Hcl.{encode_hcl_into_slots}
use ghostrs.Engine.Hcl.ReadBack.{read_hcl, other_fields, encode_hcl_into_slots_lem}
use ghostrs.Engine.Players.{Player, new_player, by_pid, with_pid}
use ghostrs.Engine.Players.Table.{by_pid-with_pid}

abbrev empty_slot : SlotInfo
empty_slot = record {
  pid = 0;
  download_status = 255;
  slot_status = 0;
  computer = 0;
  team = 1;
  colour = 0;
  race = 0x20;
  computer_type = 1;
  handicap = 100;
}

abbrev taken_slot : SlotInfo
taken_slot = record empty_slot { pid = 7; slot_status = 2; team = 0; colour = 1 }

abbrev two_slots : SlotTable
two_slots = taken_slot ∷ empty_slot ∷ []

apply-Writes_example :
    Writes (adds_computer 1 3 8 2 90) two_slots 1 (apply (adds_computer 1 3 8 2 90) two_slots 1)
apply-Writes_example = apply-Writes (adds_computer 1 3 8 2 90) two_slots 1

apply_refuses_example :
    (apply opens two_slots 2 ≡ (false, two_slots))
    × (add_computer two_slots 0 1 1 8 1 100 ≡ (false, two_slots))
apply_refuses_example =
    apply_refuses opens two_slots 2 0 1 1 8 1 100 taken_slot (omega arith) refl refl

counts-occupy_slot_example :
    (count_open (occupy_slot two_slots 1 3).1 + 1 ≡ count_open two_slots)
    × (count_occupied (occupy_slot two_slots 1 3).1 ≡ count_occupied two_slots + 1)
counts-occupy_slot_example = counts-occupy_slot two_slots 1 3 empty_slot refl refl

abbrev wire : PlayerLink
wire = record { capacity = 4; queue = []; is_closed = false }

abbrev blue : Player
blue = new_player 1 (text "Blue") 11 wire

abbrev silenced : Player → Player
silenced p = record p { muted = true }

by_pid-with_pid_example :
    by_pid (with_pid (blue ∷ []) 1 silenced) 1
    ≡ (if 1 == 1 then Option.map silenced (by_pid (blue ∷ []) 1) else by_pid (blue ∷ []) 1)
by_pid-with_pid_example = by_pid-with_pid (blue ∷ []) 1 1 silenced (λ p. refl)

abbrev ap_command : List ℕ
ap_command = text "a"

encode_hcl_example :
    ((encode_hcl_into_slots ap_command two_slots).0 ≡ true)
    × (read_hcl 1 (encode_hcl_into_slots ap_command two_slots).1 ≡ ap_command)
    × (map other_fields (encode_hcl_into_slots ap_command two_slots).1 ≡ map other_fields two_slots)
unfolding count
encode_hcl_example =
    encode_hcl_into_slots_lem ap_command two_slots (omega arith) (omega arith) refl (ground arith)
