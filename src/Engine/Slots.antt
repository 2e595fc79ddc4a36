-- ===== src/Engine/Slots.antt =====
-- crates/spectre-engine/src/slots.rs: the slot table of a lobby. A `SlotTable` is its vector of
-- slots, and a method on `&mut self` returns the new table beside its result.
pub mod Update
pub mod Seats
pub mod Search
pub mod Swap
pub mod Counts
use mathlib.Core.Option
use ghostrs.Base.{
  ℕ, zero, suc, ◌+◌, ◌-◌, ◌/◌, ◌≡◌, Bool, true, false, ◌&&◌, ◌||◌, not, List, [], ◌∷◌, ◌++◌, map,
  Option, none, some, ltb, leb, ◌==◌, if◌then◌else◌, length, get_elem?, set, take, drop, any,
  position, as_u8,
}
use ghostrs.Protocol.W3gs.Slot.{SlotInfo}

-- `SlotStatus` as its u8.
abbrev pub open_status : ℕ
open_status = 0

abbrev pub closed_status : ℕ
closed_status = 1

abbrev pub occupied_status : ℕ
occupied_status = 2

-- `lobby::MAX_SLOTS`.
abbrev pub max_slots : ℕ
max_slots = 24

abbrev pub SlotTable : Type 0
SlotTable = List SlotInfo

pub new_from : ℕ → ℕ → SlotTable
new_from i zero = []
new_from i (suc n) =
    record {
      pid = 0;
      download_status = 255;
      slot_status = open_status;
      computer = 0;
      team = as_u8 (i / 6);
      colour = as_u8 i;
      race = 0x20;
      computer_type = 1;
      handicap = 100;
    }
    ∷ new_from (i + 1) n

pub new : ℕ → SlotTable
unfolding new_from
new num_slots = new_from 0 num_slots

-- `match self.get_mut(sid)`: a write through the reference, or `false` and no change.
abbrev pub write : SlotTable → ℕ → Option SlotInfo → Bool × SlotTable
write slots sid none = (false, slots)
write slots sid (some s) = (true, set slots sid s)

abbrev pub modify : (SlotInfo → SlotInfo) → SlotTable → ℕ → Bool × SlotTable
modify f slots sid = write slots sid (Option.map f (get_elem? slots sid))

unfoldable pub open_slot : SlotTable → ℕ → Bool × SlotTable
open_slot slots sid = modify (λ s. record s { slot_status = open_status; pid = 0 }) slots sid

unfoldable pub close_slot : SlotTable → ℕ → Bool × SlotTable
close_slot slots sid = modify (λ s. record s { slot_status = closed_status; pid = 0 }) slots sid

unfoldable pub occupy_slot : SlotTable → ℕ → ℕ → Bool × SlotTable
occupy_slot slots sid pid =
    modify
      (λ s. record s {
        slot_status = occupied_status;
        pid = pid;
        computer = 0;
        download_status = 100;
      })
      slots sid

unfoldable pub occupy : SlotTable → ℕ → ℕ → ℕ → ℕ → Bool × SlotTable
occupy slots sid pid team colour =
    modify
      (λ s. record s {
        slot_status = occupied_status;
        pid = pid;
        team = team;
        colour = colour;
        computer = 0;
      })
      slots sid

unfoldable pub replace : SlotTable → ℕ → SlotInfo → Bool × SlotTable
replace slots sid info = modify (λ s. info) slots sid

unfoldable pub set_colour : SlotTable → ℕ → ℕ → Bool × SlotTable
set_colour slots sid colour = modify (λ s. record s { colour = colour }) slots sid

-- The guard `s.slot_status != Occupied` of the match.
abbrev pub vacant : Option SlotInfo → Option SlotInfo
vacant none = none
vacant (some s) = if s.slot_status == occupied_status then none else some s

abbrev pub computer_in : ℕ → ℕ → ℕ → ℕ → ℕ → SlotInfo → SlotInfo
computer_in team colour race computer_type handicap s = record s {
  slot_status = occupied_status;
  computer = 1;
  team = team;
  colour = colour;
  race = race;
  computer_type = computer_type;
  handicap = handicap;
  download_status = 100;
}

unfoldable pub add_computer : SlotTable → ℕ → ℕ → ℕ → ℕ → ℕ → ℕ → Bool × SlotTable
add_computer slots sid team colour race computer_type handicap = write slots sid (
    Option.map (computer_in team colour race computer_type handicap) (vacant (get_elem? slots sid)))

-- The fields of an occupant, which a swap with fixed settings moves.
abbrev pub seat : SlotInfo → SlotInfo → SlotInfo
seat s from = record s {
  pid = from.pid;
  download_status = from.download_status;
  slot_status = from.slot_status;
  computer = from.computer;
  computer_type = from.computer_type;
}

-- The two slots that take the places of `slot_a` and `slot_b`.
abbrev pub exchanged : Bool → Bool → SlotInfo → SlotInfo → SlotInfo × SlotInfo
exchanged fixed_settings custom_forces slot_a slot_b =
    if fixed_settings
    then (seat slot_a slot_b, seat slot_b slot_a)
    else if custom_forces
    then (record slot_b { team = slot_a.team }, record slot_a { team = slot_b.team })
    else (slot_b, slot_a)

abbrev pub put_both : SlotTable → ℕ → ℕ → SlotInfo × SlotInfo → SlotTable
put_both slots a b (new_a, new_b) = set (set slots a new_a) b new_b

-- The reads `self.slots[a]`, `self.slots[b]` lie within the table behind the guard, so the last
-- clauses are never reached from `swap_slots`.
abbrev pub swap_at :
    Bool → Bool → SlotTable → ℕ → ℕ → Option SlotInfo → Option SlotInfo → Bool × SlotTable
swap_at fs cf slots a b (some slot_a) (some slot_b) =
    (true, put_both slots a b (exchanged fs cf slot_a slot_b))
swap_at fs cf slots a b (some slot_a) none = (false, slots)
swap_at fs cf slots a b none o = (false, slots)

unfoldable pub swap_slots : SlotTable → ℕ → ℕ → Bool → Bool → Bool × SlotTable
swap_slots slots a b fixed_settings custom_forces =
    if leb (length slots) a || (leb (length slots) b || a == b)
    then (false, slots)
    else swap_at fixed_settings custom_forces slots a b (get_elem? slots a) (get_elem? slots b)

unfoldable pub swap : SlotTable → ℕ → ℕ → Bool × SlotTable
unfolding swap_slots
swap slots a b = swap_slots slots a b false false

abbrev pub is_seat_of : ℕ → SlotInfo → Bool
is_seat_of pid s = s.slot_status == occupied_status && s.pid == pid

unfoldable pub sid_of_pid : SlotTable → ℕ → Option ℕ
sid_of_pid slots pid = Option.map as_u8 (position (is_seat_of pid) slots)

abbrev pub released : SlotTable → Option ℕ → Option ℕ × SlotTable
released slots none = (none, slots)
released slots (some sid) = (some sid, (open_slot slots sid).1)

unfoldable pub release : SlotTable → ℕ → Option ℕ × SlotTable
release slots pid = released slots (sid_of_pid slots pid)

abbrev pub is_open_slot : SlotInfo → Bool
is_open_slot s = s.slot_status == open_status

abbrev pub is_open_in : ℕ → SlotInfo → Bool
is_open_in team s = is_open_slot s && s.team == team

unfoldable pub first_open : SlotTable → Option ℕ
first_open slots = Option.map as_u8 (position is_open_slot slots)

unfoldable pub first_open_in_team : SlotTable → ℕ → Option ℕ
first_open_in_team slots team = Option.map as_u8 (position (is_open_in team) slots)

abbrev pub or_else : Option ℕ → Option ℕ → Option ℕ
or_else none o = o
or_else (some x) o = some x

-- `for i in start..n`, and then `for i in 0..start`.
abbrev pub search_from : SlotTable → ℕ → ℕ → Option ℕ
search_from slots start team =
    or_else (Option.map (λ i. as_u8 (start + i)) (position (is_open_in team) (drop start slots)))
      (Option.map as_u8 (position (is_open_in team) (take start slots)))

-- `start_sid` within the table; `n == 0` is one of the cases where it is not.
abbrev pub start_at : SlotTable → ℕ → ℕ → Option SlotInfo → Option ℕ
start_at slots start_sid team none = none
start_at slots start_sid team (some s) =
    search_from slots (if s.team == team then start_sid else 0) team

unfoldable pub first_open_in_team_from : SlotTable → ℕ → ℕ → Option ℕ
first_open_in_team_from slots start_sid team =
    start_at slots start_sid team (get_elem? slots start_sid)

-- `for c in 0..MAX_SLOTS`, with the rounds left; past the last the constant itself.
pub colour_loop : ℕ → ℕ → SlotTable → ℕ
colour_loop zero c slots = c
colour_loop (suc rounds) c slots =
    let rest = colour_loop rounds (c + 1) slots in
    if any (λ s. s.colour == c) slots then rest else c

unfoldable pub unused_colour : SlotTable → ℕ
unfolding colour_loop
unused_colour slots = colour_loop max_slots 0 slots

unfoldable pub count : (SlotInfo → Bool) → SlotTable → ℕ
count p [] = 0
count p (s ∷ slots) = (if p s then 1 else 0) + count p slots

abbrev pub is_occupied_slot : SlotInfo → Bool
is_occupied_slot s = s.slot_status == occupied_status

pub count_open : SlotTable → ℕ
count_open slots = count is_open_slot slots

pub count_occupied : SlotTable → ℕ
count_occupied slots = count is_occupied_slot slots

abbrev is_some_open : Option SlotInfo → Bool
is_some_open none = false
is_some_open (some s) = is_open_slot s

unfoldable pub is_open : SlotTable → ℕ → Bool
is_open slots sid = is_some_open (get_elem? slots sid)

unfoldable pub open_all : SlotTable → SlotTable
open_all = map λ s.
    if s.slot_status == closed_status then record s { slot_status = open_status; pid = 0 } else s

unfoldable pub close_all : SlotTable → SlotTable
close_all = map λ s.
    if s.slot_status == open_status then record s { slot_status = closed_status; pid = 0 } else s
