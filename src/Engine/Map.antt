-- ===== src/Engine/Map.antt =====
-- crates/spectre-engine/src/map.rs, the options of a map and the slots that they ask for, and what
-- `MapInfo` of state.rs reads back from the flags of a game.
pub mod Flags
use ghostrs.Base.{
  ℕ, zero, suc, ◌+◌, ◌-◌, Bool, true, false, ◌&&◌, ◌||◌, not, List, [], ◌∷◌, ◌++◌, Option, none,
  some, ltb, ◌==◌, if◌then◌else◌, length, replicate, map, as_u8, bit_and, bit_or,
}
use ghostrs.Protocol.W3gs.Slot.{SlotInfo}
use ghostrs.Engine.Slots.{SlotTable, open_status}

abbrev pub mapspeed_slow : ℕ
mapspeed_slow = 1

abbrev pub mapspeed_normal : ℕ
mapspeed_normal = 2

abbrev pub mapspeed_fast : ℕ
mapspeed_fast = 3

abbrev pub mapvis_hideterrain : ℕ
mapvis_hideterrain = 1

abbrev pub mapvis_explored : ℕ
mapvis_explored = 2

abbrev pub mapvis_alwaysvisible : ℕ
mapvis_alwaysvisible = 3

abbrev pub mapvis_default : ℕ
mapvis_default = 4

abbrev pub mapobs_none : ℕ
mapobs_none = 1

abbrev pub mapobs_ondefeat : ℕ
mapobs_ondefeat = 2

abbrev pub mapobs_allowed : ℕ
mapobs_allowed = 3

abbrev pub mapobs_referees : ℕ
mapobs_referees = 4

abbrev pub mapflag_teamstogether : ℕ
mapflag_teamstogether = 1

abbrev pub mapflag_fixedteams : ℕ
mapflag_fixedteams = 2

abbrev pub mapflag_unitshare : ℕ
mapflag_unitshare = 4

abbrev pub mapflag_randomhero : ℕ
mapflag_randomhero = 8

abbrev pub mapflag_randomraces : ℕ
mapflag_randomraces = 16

abbrev pub mapopt_hideminimap : ℕ
mapopt_hideminimap = 1

abbrev pub mapopt_modifyallypriorities : ℕ
mapopt_modifyallypriorities = 2

abbrev pub mapopt_melee : ℕ
mapopt_melee = 4

abbrev pub mapopt_revealterrain : ℕ
mapopt_revealterrain = 16

abbrev pub mapopt_fixedplayersettings : ℕ
mapopt_fixedplayersettings = 32

abbrev pub mapopt_customforces : ℕ
mapopt_customforces = 64

abbrev pub mapopt_customtechtree : ℕ
mapopt_customtechtree = 128

abbrev pub mapopt_customabilities : ℕ
mapopt_customabilities = 256

abbrev pub mapopt_customupgrades : ℕ
mapopt_customupgrades = 512

abbrev pub mapfilter_maker_user : ℕ
mapfilter_maker_user = 1

abbrev pub mapfilter_maker_blizzard : ℕ
mapfilter_maker_blizzard = 2

abbrev pub mapfilter_type_melee : ℕ
mapfilter_type_melee = 1

abbrev pub mapfilter_type_scenario : ℕ
mapfilter_type_scenario = 2

abbrev pub mapfilter_size_small : ℕ
mapfilter_size_small = 1

abbrev pub mapfilter_size_medium : ℕ
mapfilter_size_medium = 2

abbrev pub mapfilter_size_large : ℕ
mapfilter_size_large = 4

abbrev pub mapfilter_obs_full : ℕ
mapfilter_obs_full = 1

abbrev pub mapfilter_obs_ondeath : ℕ
mapfilter_obs_ondeath = 2

abbrev pub mapfilter_obs_none : ℕ
mapfilter_obs_none = 4

abbrev pub mapgametype_makeruser : ℕ
mapgametype_makeruser = 8192

abbrev pub mapgametype_makerblizzard : ℕ
mapgametype_makerblizzard = 16384

abbrev pub mapgametype_typemelee : ℕ
mapgametype_typemelee = 32768

abbrev pub mapgametype_typescenario : ℕ
mapgametype_typescenario = 65536

abbrev pub mapgametype_sizesmall : ℕ
mapgametype_sizesmall = 131072

abbrev pub mapgametype_sizemedium : ℕ
mapgametype_sizemedium = 262144

abbrev pub mapgametype_sizelarge : ℕ
mapgametype_sizelarge = 524288

abbrev pub mapgametype_obsfull : ℕ
mapgametype_obsfull = 1048576

abbrev pub mapgametype_obsondeath : ℕ
mapgametype_obsondeath = 2097152

abbrev pub mapgametype_obsnone : ℕ
mapgametype_obsnone = 4194304

-- `flags & mask != 0`.
abbrev pub has : ℕ → ℕ → Bool
has flags mask = not (bit_and flags mask == 0)

abbrev pub speed_flags : ℕ → ℕ
speed_flags speed = if speed == mapspeed_slow then 0 else if speed == mapspeed_normal then 1 else 2

abbrev pub visibility_flags : ℕ → ℕ
visibility_flags visibility =
    if visibility == mapvis_hideterrain
    then 0x100
    else if visibility == mapvis_explored
    then 0x200
    else if visibility == mapvis_alwaysvisible
    then 0x400
    else 0x800

abbrev pub observer_flags : ℕ → ℕ
observer_flags observers =
    if observers == mapobs_ondefeat
    then 0x2000
    else if observers == mapobs_allowed
    then 0x3000
    else if observers == mapobs_referees
    then 0x4000_0000
    else 0

-- `if test { flags |= bits }`.
abbrev pub flag : Bool → ℕ → ℕ → ℕ
flag test bits flags = if test then bit_or flags bits else flags

unfoldable pub calculate_game_flags : ℕ → ℕ → ℕ → ℕ → ℕ
calculate_game_flags speed visibility observers map_flags =
    let flags =
      bit_or (bit_or (speed_flags speed) (visibility_flags visibility))
        (observer_flags observers) in
    let flags = flag (has map_flags mapflag_teamstogether) 0x4000 flags in
    let flags = flag (has map_flags mapflag_fixedteams) 0x6_0000 flags in
    let flags = flag (has map_flags mapflag_unitshare) 0x100_0000 flags in
    let flags = flag (has map_flags mapflag_randomhero) 0x200_0000 flags in
    flag (has map_flags mapflag_randomraces) 0x400_0000 flags

unfoldable pub calculate_game_type : ℕ → ℕ → ℕ → ℕ → ℕ
calculate_game_type filter_maker filter_type filter_size filter_obs =
    let t = flag (has filter_maker mapfilter_maker_user) mapgametype_makeruser 0 in
    let t = flag (has filter_maker mapfilter_maker_blizzard) mapgametype_makerblizzard t in
    let t = flag (has filter_type mapfilter_type_melee) mapgametype_typemelee t in
    let t = flag (has filter_type mapfilter_type_scenario) mapgametype_typescenario t in
    let t = flag (has filter_size mapfilter_size_small) mapgametype_sizesmall t in
    let t = flag (has filter_size mapfilter_size_medium) mapgametype_sizemedium t in
    let t = flag (has filter_size mapfilter_size_large) mapgametype_sizelarge t in
    let t = flag (has filter_obs mapfilter_obs_full) mapgametype_obsfull t in
    let t = flag (has filter_obs mapfilter_obs_ondeath) mapgametype_obsondeath t in
    flag (has filter_obs mapfilter_obs_none) mapgametype_obsnone t

unfoldable pub melee_from : ℕ → SlotTable → SlotTable
melee_from i [] = []
melee_from i (s ∷ slots) = record s { team = as_u8 i; race = 0x20 } ∷ melee_from (i + 1) slots

pub apply_melee_slot_init : SlotTable → SlotTable
apply_melee_slot_init slots = melee_from 0 slots

pub apply_random_races_force : SlotTable → ℕ → SlotTable
apply_random_races_force slots map_flags =
    if has map_flags mapflag_randomraces
    then map (λ (s : SlotInfo). record s { race = 0x20 }) slots
    else slots

abbrev pub observer_slot : SlotInfo
observer_slot = record {
  pid = 0;
  download_status = 255;
  slot_status = open_status;
  computer = 0;
  team = 24;
  colour = 24;
  race = 0x20;
  computer_type = 1;
  handicap = 100;
}

abbrev pub max_slots_of : ℕ → Option ℕ → ℕ
max_slots_of editor_version none = if ltb editor_version 6060 then 12 else 24
max_slots_of editor_version (some custom) = custom

-- `while slots.len() < max_slots` pushes the slots that are missing.
unfoldable pub add_observer_slots : SlotTable → ℕ → ℕ → Option ℕ → SlotTable
add_observer_slots slots observers editor_version custom =
    if observers == mapobs_allowed || observers == mapobs_referees
    then slots ++ replicate (max_slots_of editor_version custom - length slots) observer_slot
    else slots

-- `MapInfo::observers`, of the flags.
abbrev pub observers_of : ℕ → ℕ
observers_of flags =
    if has flags 0x4000_0000
    then mapobs_referees
    else if bit_and flags 0x3000 == 0x3000
    then mapobs_allowed
    else if has flags 0x2000
    then mapobs_ondefeat
    else mapobs_none

-- `MapInfo::has_random_races`, of the flags.
abbrev pub has_random_races : ℕ → Bool
has_random_races flags = has flags 0x400_0000

-- `MapInfo::has_fixed_player_settings`, of the options.
pub has_fixed_player_settings : ℕ → Bool
has_fixed_player_settings options = has options mapopt_fixedplayersettings

-- `MapInfo::has_custom_forces`, of the options.
unfoldable pub has_custom_forces : ℕ → Bool
has_custom_forces options = has options mapopt_customforces
