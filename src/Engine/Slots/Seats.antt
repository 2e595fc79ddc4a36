-- ===== src/Engine/Slots/Seats.antt =====
-- Who sits where: `occupy_slot`, `sid_of_pid` and `release` of slots.rs.

use ghostrs.Base.{
  ℕ, zero, suc, ◌≤◌, ◌<◌, ◌≡◌, ◌≢◌, refl, inl, inr, Bool, true, false, [], ◌∷◌, none, some, arith,
  length, get_elem?, set, position, length-set, Option-cases, Bool-cases, as_u8, get_elem?-some_lt,
}
use ghostrs.Protocol.W3gs.Slot.{SlotInfo}
use ghostrs.Engine.Slots.{
  SlotTable, open_slot, occupy_slot, sid_of_pid, release, is_seat_of, count, open_status,
  occupied_status,
}

module _ (p : SlotInfo → Bool) where
  pub count-zero_position : (slots : SlotTable) → count p slots ≡ 0 → position p slots ≡ none
  unfolding count
  count-zero_position [] h = refl
  count-zero_position (s ∷ slots) h = ground (arith, count-zero_position slots)

  pub position-lt : (slots : SlotTable) (i : ℕ) → position p slots ≡ some i → i < length slots
  position-lt [] i h = absurd (cc)
  position-lt (s ∷ slots) i h = elim (Option-cases (position p slots)) [
    | inl gone ↦ ground (arith, gone)
    | inr (k, here) ↦ ground (arith, here, position-lt slots k here)
  ]

  pub position_holds :
      (slots : SlotTable) (i : ℕ)
      → position p slots ≡ some i
      → (s : SlotInfo) × (get_elem? slots i ≡ some s) × (p s ≡ true)
  position_holds [] i h = absurd (cc)
  position_holds (s ∷ slots) zero h = elim (Bool-cases (p s)) [
    | inl hit ↦ (s, refl, hit)
    | inr miss ↦ elim (Option-cases (position p slots)) [
      | inl gone ↦ absurd (ground (arith, gone))
      | inr (k, here) ↦ absurd (ground (arith, here))
    ]
  ]
  position_holds (s ∷ slots) (suc i) h = elim (Option-cases (position p slots)) [
    | inl gone ↦ absurd (ground (arith, gone))
    | inr (k, here) ↦ position_holds slots i (ground (arith, here))
  ]

  -- The only slot that passes is overwritten by one that does not.
  pub position-set-none :
      (slots : SlotTable) (i : ℕ) (v : SlotInfo)
      → count p slots ≤ 1
      → position p slots ≡ some i
      → p v ≡ false
      → position p (set slots i v) ≡ none
  unfolding count
  position-set-none [] i v c h n = cc
  position-set-none (s ∷ slots) zero v c h n = ground (arith, count-zero_position slots)
  position-set-none (s ∷ slots) (suc i) v c h n = elim (Option-cases (position p slots)) [
    | inl gone ↦ ground (arith, gone)
    | inr (k, here) ↦ ground (arith, here, position-set-none slots i v)
  ]

  -- A slot is overwritten by one that passes where none did.
  pub position-set-some :
      (slots : SlotTable) (i : ℕ) (v : SlotInfo)
      → position p slots ≡ none
      → i < length slots
      → p v ≡ true
      → position p (set slots i v) ≡ some i
  position-set-some [] i v h l t = absurd (omega arith)
  position-set-some (s ∷ slots) zero v h l t = ground arith
  position-set-some (s ∷ slots) (suc i) v h l t = ground (arith, position-set-some slots i v)

  -- A slot that does not pass is overwritten by another such.
  pub position-set_same :
      (slots : SlotTable) (i : ℕ) (v s : SlotInfo)
      → get_elem? slots i ≡ some s
      → p s ≡ p v
      → position p (set slots i v) ≡ position p slots
  position-set_same [] i v s h e = refl
  position-set_same (x ∷ slots) zero v s h e = ground arith
  position-set_same (x ∷ slots) (suc i) v s h e = ground (arith, position-set_same slots i v s)

sid_of_position :
    (slots : SlotTable) (pid i : ℕ)
    → length slots ≤ 256
    → position (is_seat_of pid) slots ≡ some i
    → sid_of_pid slots pid ≡ some i
unfolding sid_of_pid
sid_of_position slots pid i l h =
    let small : as_u8 i ≡ i = omega (arith, position-lt (is_seat_of pid) slots i h) in rw (h, small)

none_of_sid :
    (slots : SlotTable) (pid : ℕ)
    → sid_of_pid slots pid ≡ none
    → position (is_seat_of pid) slots ≡ none
unfolding sid_of_pid
none_of_sid slots pid h = ground arith

-- In a table of at most 256 slots `occupy_slot` seats a player who has no seat in a slot that is not
-- occupied, and no other player `q` moves.
pub occupy_slot_seats :
    (slots : SlotTable) (sid pid : ℕ) (s : SlotInfo) (q : ℕ)
    → length slots ≤ 256
    → get_elem? slots sid ≡ some s
    → sid_of_pid slots pid ≡ none
    → s.slot_status ≢ occupied_status
    → q ≢ pid
    → let (done, slots') = occupy_slot slots sid pid in
      (done ≡ true)
      × (sid_of_pid slots' pid ≡ some sid)
      × (sid_of_pid slots' q ≡ sid_of_pid slots q)
unfolding occupy_slot
occupy_slot_seats slots sid pid s q l e h f n = rw e (refl, seated, others)
  where
    taken : SlotInfo
    taken = record s {
      slot_status = occupied_status;
      pid = pid;
      computer = 0;
      download_status = 100;
    }

    seated : sid_of_pid (set slots sid taken) pid ≡ some sid
    seated =
        sid_of_position (set slots sid taken) pid sid (omega (arith, length-set slots sid taken)) (
          position-set-some (is_seat_of pid) slots sid taken (none_of_sid slots pid h)
            (get_elem?-some_lt slots sid s e) (ground arith))

    others : sid_of_pid (set slots sid taken) q ≡ sid_of_pid slots q
    others =
        unfold sid_of_pid in
        rw (position-set_same (is_seat_of q) slots sid taken s e (ground arith))

abbrev opened : SlotInfo → SlotInfo
opened s = record s { slot_status = open_status; pid = 0 }

open_slot_at :
    (slots : SlotTable) (i : ℕ) (s : SlotInfo)
    → get_elem? slots i ≡ some s
    → open_slot slots i ≡ (true, set slots i (opened s))
unfolding open_slot
open_slot_at slots i s e = rw e

opened_frees :
    (slots : SlotTable) (pid i : ℕ) (s : SlotInfo)
    → count (is_seat_of pid) slots ≤ 1
    → position (is_seat_of pid) slots ≡ some i
    → sid_of_pid (set slots i (opened s)) pid ≡ none
unfolding sid_of_pid
opened_frees slots pid i s c h = rw (position-set-none (is_seat_of pid) slots i (opened s) c h refl)

opened_keeps :
    (slots : SlotTable) (q pid i : ℕ) (s : SlotInfo)
    → get_elem? slots i ≡ some s
    → is_seat_of pid s ≡ true
    → q ≢ pid
    → sid_of_pid (set slots i (opened s)) q ≡ sid_of_pid slots q
unfolding sid_of_pid
opened_keeps slots q pid i s e t n =
    rw (position-set_same (is_seat_of q) slots i (opened s) s e (ground arith))

-- In a table of at most 256 slots `release` gives up the seat of a player who has at most one, says
-- which it was, and moves no other player `q`.
pub release_frees :
    (slots : SlotTable) (pid q : ℕ)
    → length slots ≤ 256
    → count (is_seat_of pid) slots ≤ 1
    → q ≢ pid
    → let (freed, slots') = release slots pid in
      (freed ≡ sid_of_pid slots pid)
      × (sid_of_pid slots' pid ≡ none)
      × (sid_of_pid slots' q ≡ sid_of_pid slots q)
unfolding release
release_frees slots pid q l c n = elim (Option-cases (position (is_seat_of pid) slots)) [
  | inl gone ↦
      let unseated : sid_of_pid slots pid ≡ none = unfold sid_of_pid in rw gone in
      rw unseated (refl, unseated, refl)
  | inr (i, here) ↦
      let seated = sid_of_position slots pid i l here in
      let (s, e, t) = position_holds (is_seat_of pid) slots i here in
      let same = open_slot_at slots i s e in
      rw seated
        (rw same (refl, opened_frees slots pid i s c here, opened_keeps slots q pid i s e t n))
]
