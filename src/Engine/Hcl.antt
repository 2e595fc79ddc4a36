-- ===== src/Engine/Hcl.antt =====
-- `encode_hcl_into_slots` of crates/spectre-engine/src/hcl.rs: a command for the map, hidden in the
-- handicaps of the occupied slots. The command is the list of its bytes, and all of the code's
-- characters are ASCII.
pub mod ReadBack
use ghostrs.Base.{
  ℕ, zero, suc, ◌+◌, ◌-◌, ◌*◌, ◌/◌, ◌%◌, Bool, true, false, ◌&&◌, ◌||◌, not, List, [], ◌∷◌, Option,
  none, some, ltb, ◌==◌, if◌then◌else◌, length, get_or, any, all, position, as_u8, min, text,
}
use ghostrs.Protocol.W3gs.Slot.{SlotInfo}
use ghostrs.Engine.Slots.{SlotTable, occupied_status, count, is_occupied_slot}

abbrev pub hcl_chars : List ℕ
hcl_chars = text "abcdefghijklmnopqrstuvwxyz0123456789 -=,."

-- The loop that fills the map, with the rounds left and `j`: 0 and the plain handicaps are left out.
unfoldable pub map_from : ℕ → ℕ → List ℕ
map_from zero j = []
map_from (suc rounds) j =
    let kept = j == 0 || j == 50 || j == 60 || j == 70 || j == 80 || j == 90 || j == 100 in
    let j' = if kept then as_u8 (j + 1) else j in j' ∷ map_from rounds (as_u8 (j' + 1))

unfoldable pub encoding_map : List ℕ
encoding_map = map_from 256 0

abbrev pub unwrap_or : Option ℕ → ℕ → ℕ
unwrap_or none d = d
unwrap_or (some i) d = i

-- `(handicap_index + char_index * 6).min(255)`.
unfoldable pub map_index : ℕ → ℕ → ℕ
map_index ch handicap =
    min ((handicap - 50) / 10 + unwrap_or (position (λ c. c == ch) hcl_chars) 0 * 6) 255

-- The loop over the characters, with the slots from `current_slot` on.
unfoldable pub place : List ℕ → SlotTable → SlotTable
place [] slots = slots
place (ch ∷ hcl) [] = []
place (ch ∷ hcl) (s ∷ slots) =
    let here =
      record s { handicap = get_or encoding_map (map_index ch s.handicap) 0 } ∷ place hcl slots in
    let later = s ∷ place (ch ∷ hcl) slots in
    if s.slot_status == occupied_status then here else later

abbrev pub is_empty : List ℕ → Bool
is_empty [] = true
is_empty (ch ∷ hcl) = false

abbrev pub is_hcl_char : ℕ → Bool
is_hcl_char ch = any (λ c. c == ch) hcl_chars

unfoldable pub encode_hcl_into_slots : List ℕ → SlotTable → Bool × SlotTable
encode_hcl_into_slots hcl slots =
    if is_empty hcl || ltb (count is_occupied_slot slots) (length hcl)
    then (false, slots)
    else if not (all is_hcl_char hcl)
    then (false, slots)
    else (true, place hcl slots)
