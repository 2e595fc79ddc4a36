-- ===== src/Engine/Chat/SlotRequest.antt =====
-- `apply_slot_request` and `colour_slot` of crates/spectre-engine/src/chat.rs: a player asks for a team,
-- a colour, a race or a handicap. The slots come back beside the result.

pub mod Seats
use ghostrs.Base.{
  ℕ, ◌+◌, ◌-◌, Bool, true, false, not, ◌&&◌, ◌||◌, [], ◌∷◌, Option, none, some, ltb, leb, ◌==◌,
  if◌then◌else◌, get_elem?, length, as_u8, bit_or,
}
use ghostrs.Protocol.W3gs.Slot.{SlotInfo}
use ghostrs.Engine.State.{MapInfo}
use ghostrs.Engine.Map.{
  observers_of, mapobs_allowed, mapobs_referees, has_random_races, has_fixed_player_settings,
  has_custom_forces,
}
use ghostrs.Engine.Slots.{
  SlotTable, max_slots, sid_of_pid, first_open_in_team_from, swap_slots, replace, set_colour,
  unused_colour, is_occupied_slot, count,
}

-- The last slot of a colour, from index `i` on.
unfoldable pub last_of_colour : ℕ → ℕ → SlotTable → Option ℕ → Option ℕ
last_of_colour colour i [] taken = taken
last_of_colour colour i (s ∷ slots) taken =
    last_of_colour colour (i + 1) slots (if s.colour == colour then some i else taken)

abbrev pub colour_of : Option SlotInfo → ℕ
colour_of none = 0
colour_of (some s) = s.colour

abbrev pub is_taken : Option SlotInfo → Bool
is_taken none = false
is_taken (some s) = is_occupied_slot s

abbrev pub recolour : SlotTable → ℕ → ℕ → Option ℕ → Bool × SlotTable
recolour slots sid colour none = (true, (set_colour slots sid colour).1)
recolour slots sid colour (some tsid) =
    if is_taken (get_elem? slots tsid) then (false, slots) else (
      true,
      (set_colour (set_colour slots (as_u8 tsid) (colour_of (get_elem? slots sid))).1 sid colour).1,
    )

unfoldable pub colour_slot : SlotTable → ℕ → ℕ → Bool × SlotTable
colour_slot slots sid colour =
    if leb (length slots) sid || leb max_slots colour
    then (false, slots)
    else recolour slots sid colour (last_of_colour colour 0 slots none)

abbrev pub swap_into : MapInfo → SlotTable → ℕ → Option ℕ → Bool × SlotTable
swap_into m slots sid none = (false, slots)
swap_into m slots sid (some target_sid) = (
  true,
  (swap_slots slots sid target_sid (has_fixed_player_settings m.options)
      (has_custom_forces m.options)).1,
)

abbrev pub plays_beside : ℕ → SlotInfo → Bool
plays_beside pid s = is_occupied_slot s && (not (s.team == max_slots) && not (s.pid == pid))

-- The checks of a team without custom forces.
abbrev pub may_change_team : MapInfo → SlotTable → ℕ → ℕ → Bool
may_change_team m slots pid team =
    if ltb max_slots team
    then false
    else if team == max_slots
    then observers_of m.flags == mapobs_allowed || observers_of m.flags == mapobs_referees
    else not (leb m.num_players team)
      && not (leb m.num_players (as_u8 (count (plays_beside pid) slots)))

abbrev pub new_colour : SlotTable → ℕ → ℕ → ℕ
new_colour slots team colour =
    if team == max_slots
    then max_slots
    else if colour == max_slots
    then unused_colour slots
    else colour

-- What is written in a slot that is there.
abbrev pub rewrite : SlotTable → ℕ → (SlotInfo → SlotInfo) → Option SlotInfo → Bool × SlotTable
rewrite slots sid f none = (false, slots)
rewrite slots sid f (some s) = (true, (replace slots sid (f s)).1)

abbrev pub on_team : SlotTable → ℕ → SlotInfo → SlotInfo
on_team slots team s = record s { team = team; colour = new_colour slots team s.colour }

abbrev pub team_request : MapInfo → SlotTable → ℕ → ℕ → ℕ → Bool × SlotTable
team_request m slots pid sid value =
    if has_custom_forces m.options
    then swap_into m slots sid (first_open_in_team_from slots sid value)
    else if may_change_team m slots pid value
    then rewrite slots sid (on_team slots value) (get_elem? slots sid)
    else (false, slots)

abbrev pub watches : Option SlotInfo → Bool
watches none = true
watches (some s) = s.team == max_slots

abbrev pub colour_request : MapInfo → SlotTable → ℕ → ℕ → Bool × SlotTable
colour_request m slots sid value =
    if has_fixed_player_settings m.options || ltb (max_slots - 1) value
    then (false, slots)
    else if watches (get_elem? slots sid)
    then (false, slots)
    else colour_slot slots sid value

abbrev pub is_race : ℕ → Bool
is_race v = v == 1 || (v == 2 || (v == 4 || (v == 8 || v == 32)))

abbrev pub of_race : ℕ → SlotInfo → SlotInfo
of_race value s = record s { race = bit_or value 0x40 }

abbrev pub race_request : MapInfo → SlotTable → ℕ → ℕ → Bool × SlotTable
race_request m slots sid value =
    if has_fixed_player_settings m.options || (has_random_races m.flags || not (is_race value))
    then (false, slots)
    else rewrite slots sid (of_race value) (get_elem? slots sid)

abbrev pub is_handicap : ℕ → Bool
is_handicap v = v == 50 || (v == 60 || (v == 70 || (v == 80 || (v == 90 || v == 100))))

abbrev pub of_handicap : ℕ → SlotInfo → SlotInfo
of_handicap value s = record s { handicap = value }

abbrev pub handicap_request : MapInfo → SlotTable → ℕ → ℕ → Bool × SlotTable
handicap_request m slots sid value =
    if not (has_fixed_player_settings m.options) && is_handicap value
    then rewrite slots sid (of_handicap value) (get_elem? slots sid)
    else (false, slots)

abbrev pub request_of : MapInfo → ℕ → ℕ → ℕ → Option ℕ → SlotTable → Bool × SlotTable
request_of m pid flag value none slots = (false, slots)
request_of m pid flag value (some sid) slots =
    if flag == 0x11
    then team_request m slots pid sid value
    else if flag == 0x12
    then colour_request m slots sid value
    else if flag == 0x13
    then race_request m slots sid value
    else if flag == 0x14
    then handicap_request m slots sid value
    else (false, slots)

unfoldable pub apply_slot_request : MapInfo → ℕ → ℕ → ℕ → SlotTable → Bool × SlotTable
apply_slot_request m pid flag value slots = request_of m pid flag value (sid_of_pid slots pid) slots
