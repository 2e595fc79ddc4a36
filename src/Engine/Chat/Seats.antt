-- ===== src/Engine/Chat/Seats.antt =====
-- The commands of `run_command` (crates/spectre-engine/src/chat.rs) on the slots. `none` is a panic,
-- `random` the numbers that `rand` draws, and `order` how the map of holds is read.

use ghostrs.Base.{
  ℕ, zero, suc, ◌+◌, ◌%◌, Bool, true, false, List, [], ◌∷◌, Option, none, some, ◌==◌, if◌then◌else◌,
  text, length, get_elem?, set, as_u8,
}
use ghostrs.Protocol.Buffer.{Bytes}
use ghostrs.Protocol.W3gs.Slot.{SlotInfo}
use ghostrs.Engine.Announce.{send_chat_all, send_all_slot_info}
use ghostrs.Engine.Slots.{SlotTable, swap}
use ghostrs.Engine.State.{GameState, Hold, is_in_lobby}

-- `if self.slots.open(sid) { self.send_all_slot_info() }`, and the like.
abbrev pub show_change : ℕ → Bool × SlotTable → GameState → GameState
show_change now (changed, slots) st =
    let st' = record st { slots = slots } in if changed then send_all_slot_info now st' else st'

abbrev pub show_all : ℕ → Bytes → SlotTable → GameState → Option GameState
show_all now msg slots st =
    send_chat_all now msg (send_all_slot_info now (record st { slots = slots }))

-- `for i in 0..n { let j = random % n; self.slots.swap(i, j) }`, with the rounds left.
unfoldable pub shuffle_loop : (ℕ → ℕ) → ℕ → ℕ → ℕ → SlotTable → SlotTable
shuffle_loop random n zero i slots = slots
shuffle_loop random n (suc rounds) i slots =
    shuffle_loop random n rounds (i + 1) (swap slots (as_u8 i) (as_u8 (random i % n))).1

abbrev pub shuffle_all : (ℕ → ℕ) → ℕ → GameState → Option GameState
shuffle_all random now st =
    if is_in_lobby st.phase
    then show_all now (text "Slots shuffled.")
        (shuffle_loop random (length st.slots) (length st.slots) 0 st.slots) st
    else some st

unfoldable pub without_hold : ℕ → List Hold → List Hold
without_hold sid [] = []
without_hold sid (h ∷ holds) =
    let rest = without_hold sid holds in if h.sid == sid then rest else h ∷ rest

abbrev pub put_hold : (List Hold → List Hold) → Bytes → Option ℕ → GameState → GameState
put_hold order name none st = st
put_hold order name (some sid) st = record st {
  holds = order (record { sid = sid; name = name } ∷ without_hold sid st.holds);
}

-- `get_mut(slot)` of a slot with a computer.
abbrev pub change_computer :
    (SlotInfo → SlotInfo) → SlotTable → ℕ → Option SlotInfo → Bool × SlotTable
change_computer f slots sid none = (false, slots)
change_computer f slots sid (some s) =
    if s.computer == 1 then (true, set slots sid (f s)) else (false, slots)

abbrev pub comp_command : ℕ → ℕ → (SlotInfo → SlotInfo) → GameState → GameState
comp_command now sid f st =
    show_change now (change_computer f st.slots sid (get_elem? st.slots sid)) st
