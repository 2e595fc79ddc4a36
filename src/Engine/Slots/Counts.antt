-- ===== src/Engine/Slots/Counts.antt =====
-- The counts of slots.rs.

use ghostrs.Base.{
  ℕ, zero, suc, ◌+◌, ◌≤◌, ◌≡◌, refl, Bool, [], ◌∷◌, some, arith, length, get_elem?, set,
  if◌then◌else◌, All,
}
use ghostrs.Protocol.W3gs.Slot.{SlotInfo}
use ghostrs.Engine.Slots.{
  SlotTable, count, count_open, count_occupied, is_open_slot, is_occupied_slot, open_status,
  occupied_status, occupy_slot, open_all, close_all,
}

-- One write moves a count by the slot that it writes.
count-set :
    (p : SlotInfo → Bool) (slots : SlotTable) (i : ℕ) (s v : SlotInfo)
    → get_elem? slots i ≡ some s
    → count p (set slots i v) + (if p s then 1 else 0) ≡ count p slots + (if p v then 1 else 0)
unfolding count
count-set p [] i s v e = cc
count-set p (x ∷ slots) zero s v e = ground arith
count-set p (x ∷ slots) (suc i) s v e = omega (arith, count-set p slots i s v e)

-- Seating a player in an open slot takes one from the open slots and adds one to the occupied.
pub counts-occupy_slot :
    (slots : SlotTable) (sid pid : ℕ) (s : SlotInfo)
    → get_elem? slots sid ≡ some s
    → s.slot_status ≡ open_status
    → let slots' = (occupy_slot slots sid pid).1 in
      (count_open slots' + 1 ≡ count_open slots)
      × (count_occupied slots' ≡ count_occupied slots + 1)
unfolding occupy_slot count_open count_occupied
counts-occupy_slot slots sid pid s e o = rw e (
  ground (arith, count-set is_open_slot slots sid s taken e),
  ground (arith, count-set is_occupied_slot slots sid s taken e),
)
  where
    taken : SlotInfo
    taken = record s {
      slot_status = occupied_status;
      pid = pid;
      computer = 0;
      download_status = 100;
    }

abbrev pub HasStatus : SlotTable → Type 0
HasStatus = All (λ s. s.slot_status ≤ occupied_status)

-- In a table whose slots all have one of the three statuses `close_all` leaves no open slot,
-- `open_all` makes every slot open that is not occupied, and neither changes how many are occupied.
pub counts_all :
    (slots : SlotTable)
    → HasStatus slots
    → (count_open (close_all slots) ≡ 0)
      × (count_occupied (close_all slots) ≡ count_occupied slots)
      × (count_open (open_all slots) + count_occupied slots ≡ length slots)
      × (count_occupied (open_all slots) ≡ count_occupied slots)
unfolding count_open count_occupied close_all open_all count
counts_all [] h = (refl, refl, refl, refl)
counts_all (s ∷ slots) h = ground (arith, counts_all slots h.1)
