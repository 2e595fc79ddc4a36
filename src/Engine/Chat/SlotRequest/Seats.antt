-- ===== src/Engine/Chat/SlotRequest/Seats.antt =====
-- Who sits where behind `apply_slot_request` (crates/spectre-engine/src/chat.rs).

use ghostrs.Base.{
  ◌-◌, ltb, as_u8, ◌&&◌, ◌||◌, length, not, leb, ℕ, zero, suc, Bool, true, false, List, [], ◌∷◌,
  map, Option, none, some, ◌≡◌, refl, ap, ◌∙◌, if◌then◌else◌, get_elem?, set, ◌==◌,
}
use ghostrs.Protocol.W3gs.Slot.{SlotInfo}
use ghostrs.Engine.State.{MapInfo}
use ghostrs.Engine.Map.{has_custom_forces}
use ghostrs.Engine.Slots.{SlotTable, replace, set_colour, sid_of_pid}
use ghostrs.Engine.Chat.SlotRequest.{
  of_race, watches, of_handicap, is_race, is_handicap, has_random_races, max_slots, on_team,
  is_taken, has_fixed_player_settings, may_change_team, colour_of, rewrite, recolour, colour_slot,
  last_of_colour, team_request, colour_request, race_request, handicap_request, request_of,
  apply_slot_request,
}

-- The occupant of a slot and its status.
abbrev pub seat_of : SlotInfo → ℕ × ℕ
seat_of s = (s.pid, s.slot_status)

abbrev pub seats_of : SlotTable → List (ℕ × ℕ)
seats_of slots = map seat_of slots

seats_of-set :
    (slots : SlotTable) (sid : ℕ) (s s' : SlotInfo)
    → get_elem? slots sid ≡ some s
    → seat_of s' ≡ seat_of s
    → seats_of (set slots sid s') ≡ seats_of slots
seats_of-set [] sid s s' e same = refl
seats_of-set (t ∷ slots) zero s s' e same = cc (e, same)
seats_of-set (t ∷ slots) (suc sid) s s' e same =
    ap (λ rest. seat_of t ∷ rest) (seats_of-set slots sid s s' e same)

-- A table after a change that a test allows.
abbrev Seated : SlotTable → Bool × SlotTable → Type 0
Seated slots r = seats_of r.1 ≡ seats_of slots

if_Seated :
    (slots : SlotTable) (a b : Bool × SlotTable) (test : Bool)
    → Seated slots a
    → Seated slots b
    → Seated slots (if test then a else b)
if_Seated slots a b true h k = h
if_Seated slots a b false h k = k

replace-Seated :
    (slots : SlotTable) (sid : ℕ) (s s' : SlotInfo)
    → get_elem? slots sid ≡ some s
    → seat_of s' ≡ seat_of s
    → Seated slots (replace slots sid s')
unfolding replace
replace-Seated slots sid s s' e same = rw e (seats_of-set slots sid s s' e same)

rewrite-Seated :
    (slots : SlotTable) (sid : ℕ) (f : SlotInfo → SlotInfo) (o : Option SlotInfo)
    → get_elem? slots sid ≡ o
    → ((s : SlotInfo) → seat_of (f s) ≡ seat_of s)
    → Seated slots (rewrite slots sid f o)
rewrite-Seated slots sid f none e same = refl
rewrite-Seated slots sid f (some s) e same = replace-Seated slots sid s (f s) e (same s)

coloured :
    (slots : SlotTable) (sid colour : ℕ) (o : Option SlotInfo)
    → get_elem? slots sid ≡ o
    → Seated slots (set_colour slots sid colour)
unfolding set_colour
coloured slots sid colour none e = rw e refl
coloured slots sid colour (some s) e =
    rw e (seats_of-set slots sid s (record s { colour = colour }) e refl)

set_colour-Seated :
    (slots : SlotTable) (sid colour : ℕ) → Seated slots (set_colour slots sid colour)
set_colour-Seated slots sid colour = coloured slots sid colour (get_elem? slots sid) refl

recolour-Seated :
    (slots : SlotTable) (sid colour : ℕ) (o : Option ℕ) → Seated slots (recolour slots sid colour o)
recolour-Seated slots sid colour none = set_colour-Seated slots sid colour
recolour-Seated slots sid colour (some tsid) =
    let old = colour_of (get_elem? slots sid) in
    if_Seated slots _ _ (is_taken (get_elem? slots tsid)) refl (
      set_colour-Seated (set_colour slots (as_u8 tsid) old).1 sid colour
      ∙ set_colour-Seated slots (as_u8 tsid) old)

colour_slot-Seated :
    (slots : SlotTable) (sid colour : ℕ) → Seated slots (colour_slot slots sid colour)
unfolding colour_slot
colour_slot-Seated slots sid colour =
    if_Seated slots _ _ (leb (length slots) sid || leb max_slots colour) refl
      (recolour-Seated slots sid colour (last_of_colour colour 0 slots none))

team_request-Seated :
    (m : MapInfo) (slots : SlotTable) (pid sid value : ℕ)
    → has_custom_forces m.options ≡ false
    → Seated slots (team_request m slots pid sid value)
team_request-Seated m slots pid sid value own = rw own (
    if_Seated slots _ _ (may_change_team m slots pid value)
      (rewrite-Seated slots sid (on_team slots value) (get_elem? slots sid) refl (λ s. refl)) refl)

colour_request-Seated :
    (m : MapInfo) (slots : SlotTable) (sid value : ℕ)
    → Seated slots (colour_request m slots sid value)
colour_request-Seated m slots sid value =
    if_Seated slots _ _ (has_fixed_player_settings m.options || ltb (max_slots - 1) value) refl (
      if_Seated slots _ _ (watches (get_elem? slots sid)) refl (colour_slot-Seated slots sid value))

race_request-Seated :
    (m : MapInfo) (slots : SlotTable) (sid value : ℕ)
    → Seated slots (race_request m slots sid value)
race_request-Seated m slots sid value =
    if_Seated slots _ _
      (has_fixed_player_settings m.options || (has_random_races m.flags || not (is_race value)))
      refl (rewrite-Seated slots sid (of_race value) (get_elem? slots sid) refl (λ s. refl))

handicap_request-Seated :
    (m : MapInfo) (slots : SlotTable) (sid value : ℕ)
    → Seated slots (handicap_request m slots sid value)
handicap_request-Seated m slots sid value =
    if_Seated slots _ _ (not (has_fixed_player_settings m.options) && is_handicap value)
      (rewrite-Seated slots sid (of_handicap value) (get_elem? slots sid) refl (λ s. refl)) refl

request_of-Seated :
    (m : MapInfo) (pid flag value : ℕ) (o : Option ℕ) (slots : SlotTable)
    → has_custom_forces m.options ≡ false
    → Seated slots (request_of m pid flag value o slots)
request_of-Seated m pid flag value none slots own = refl
request_of-Seated m pid flag value (some sid) slots own =
    if_Seated slots _ _ (flag == 0x11) (team_request-Seated m slots pid sid value own) (
      if_Seated slots _ _ (flag == 0x12) (colour_request-Seated m slots sid value) (
        if_Seated slots _ _ (flag == 0x13) (race_request-Seated m slots sid value)
          (if_Seated slots _ _ (flag == 0x14) (handicap_request-Seated m slots sid value) refl)))

-- On a map without custom forces no request of a player for a team, a colour, a race or a handicap
-- moves anybody: each slot has the occupant and the status that it had, whatever is asked and whether
-- or not it is granted.
pub request_moves_nobody :
    (m : MapInfo) (pid flag value : ℕ) (slots : SlotTable)
    → has_custom_forces m.options ≡ false
    → seats_of (apply_slot_request m pid flag value slots).1 ≡ seats_of slots
unfolding apply_slot_request
request_moves_nobody m pid flag value slots own =
    request_of-Seated m pid flag value (sid_of_pid slots pid) slots own
