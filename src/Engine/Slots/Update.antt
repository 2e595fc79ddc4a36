-- ===== src/Engine/Slots/Update.antt =====
-- The operations of slots.rs that write one slot: they write that slot alone.
use mathlib.Core.Option
use ghostrs.Base.{
  get_elem?-set_self, ◌==◌, Bool-cases, subst, set, not, ℕ, ◌≤◌, ◌≡◌, ◌≢◌, refl, sym, ap, ◌∙◌, ◌⊎◌,
  inl, inr, Bool, true, false, Option, none, some, arith, length, get_elem?, length-set,
  get_elem?-set_ne, get_elem?-ge, get_elem?-some_lt, Option-cases,
}
use ghostrs.Protocol.W3gs.Slot.{SlotInfo}
use ghostrs.Engine.Slots.{
  closed_status, open_status, SlotTable, write, modify, open_slot, close_slot, occupy_slot, occupy,
  replace, set_colour, add_computer, vacant, computer_in, occupied_status,
}

-- The single-slot operations, with their arguments.
pub data SlotOp : Type 0 where
  opens closes : SlotOp
  occupies_slot : ℕ → SlotOp
  occupies : ℕ → ℕ → ℕ → SlotOp
  replaces : SlotInfo → SlotOp
  sets_colour : ℕ → SlotOp
  adds_computer : ℕ → ℕ → ℕ → ℕ → ℕ → SlotOp

pub apply : SlotOp → SlotTable → ℕ → Bool × SlotTable
apply opens slots sid = open_slot slots sid
apply closes slots sid = close_slot slots sid
apply (occupies_slot pid) slots sid = occupy_slot slots sid pid
apply (occupies pid team colour) slots sid = occupy slots sid pid team colour
apply (replaces info) slots sid = replace slots sid info
apply (sets_colour colour) slots sid = set_colour slots sid colour
apply (adds_computer t c r k h) slots sid = add_computer slots sid t c r k h

-- Only an occupied slot refuses, and only a computer.
abbrev pub allows : SlotOp → SlotInfo → Bool
allows opens s = true
allows closes s = true
allows (occupies_slot pid) s = true
allows (occupies pid team colour) s = true
allows (replaces info) s = true
allows (sets_colour colour) s = true
allows (adds_computer t c r k h) s = not (s.slot_status == occupied_status)

abbrev pub is_allowed : SlotOp → Option SlotInfo → Bool
is_allowed op none = false
is_allowed op (some s) = allows op s

-- The fields by which a player tells its slot.
abbrev SameSide : SlotInfo → SlotInfo → Type 0
SameSide s s' = (s'.team ≡ s.team) × (s'.colour ≡ s.colour)

abbrev SameKind : SlotInfo → SlotInfo → Type 0
SameKind s s' =
    (s'.race ≡ s.race) × (s'.computer_type ≡ s.computer_type) × (s'.handicap ≡ s.handicap)

-- Who sits in the slot: the occupant, the status and whether it is a computer.
abbrev Holds : ℕ → ℕ → ℕ → SlotInfo → Type 0
Holds pid status computer s' = (s'.pid ≡ pid) × (s'.slot_status ≡ status) × (s'.computer ≡ computer)

-- The slot before and behind an operation, in its fields.
abbrev pub Wrote : SlotOp → SlotInfo → SlotInfo → Type 0
Wrote opens s s' =
    Holds 0 open_status s.computer s'
    × SameSide s s'
    × SameKind s s'
    × (s'.download_status ≡ s.download_status)
Wrote closes s s' =
    Holds 0 closed_status s.computer s'
    × SameSide s s'
    × SameKind s s'
    × (s'.download_status ≡ s.download_status)
Wrote (occupies_slot pid) s s' =
    Holds pid occupied_status 0 s' × SameSide s s' × SameKind s s' × (s'.download_status ≡ 100)
Wrote (occupies pid team colour) s s' =
    Holds pid occupied_status 0 s'
    × ((s'.team ≡ team) × (s'.colour ≡ colour))
    × SameKind s s'
    × (s'.download_status ≡ s.download_status)
Wrote (replaces info) s s' = s' ≡ info
Wrote (sets_colour colour) s s' =
    Holds s.pid s.slot_status s.computer s'
    × ((s'.team ≡ s.team) × (s'.colour ≡ colour))
    × SameKind s s'
    × (s'.download_status ≡ s.download_status)
Wrote (adds_computer team colour race kind handicap) s s' =
    Holds s.pid occupied_status 1 s'
    × ((s'.team ≡ team) × (s'.colour ≡ colour))
    × ((s'.race ≡ race) × (s'.computer_type ≡ kind) × (s'.handicap ≡ handicap))
    × (s'.download_status ≡ 100)

-- What an operation on the slot `sid` does: it says whether it is allowed, and either keeps the whole
-- table or writes that slot as `Wrote` says; the number of slots and the other slots stay.
pub record Writes (op : SlotOp) (slots : SlotTable) (sid : ℕ) (r : Bool × SlotTable) : Type 0 where
  pub accepted : r.0 ≡ is_allowed op (get_elem? slots sid)
  pub outcome :
      (r ≡ (false, slots))
      ⊎ ((s : SlotInfo) × (s' : SlotInfo) × (r.0 ≡ true)
          × (get_elem? slots sid ≡ some s)
          × (get_elem? r.1 sid ≡ some s')
          × Wrote op s s')
  pub same_length : length r.1 ≡ length slots
  pub others : (j : ℕ) → j ≢ sid → get_elem? r.1 j ≡ get_elem? slots j

refused-Writes :
    (op : SlotOp) (slots : SlotTable) (sid : ℕ)
    → is_allowed op (get_elem? slots sid) ≡ false
    → Writes op slots sid (false, slots)
refused-Writes op slots sid refuses = record {
  accepted = sym refuses;
  outcome = inl refl;
  same_length = refl;
  others = λ j n. refl;
}

written-Writes :
    (op : SlotOp) (slots : SlotTable) (sid : ℕ) (s s' : SlotInfo)
    → get_elem? slots sid ≡ some s
    → allows op s ≡ true
    → Wrote op s s'
    → Writes op slots sid (true, set slots sid s')
written-Writes op slots sid s s' here granted wrote = record {
  accepted = sym (ap (is_allowed op) here ∙ granted);
  outcome = inr (
    s,
    s',
    refl,
    here,
    get_elem?-set_self slots sid s' (get_elem?-some_lt slots sid s here),
    wrote,
  );
  same_length = length-set slots sid s';
  others = λ j n. get_elem?-set_ne slots s' (λ e. n (sym e));
}

modify-Writes :
    (op : SlotOp) (f : SlotInfo → SlotInfo) (slots : SlotTable) (sid : ℕ)
    → ((s : SlotInfo) → allows op s ≡ true)
    → ((s : SlotInfo) → Wrote op s (f s))
    → Writes op slots sid (modify f slots sid)
modify-Writes op f slots sid granted wrote = elim (Option-cases (get_elem? slots sid)) [
  | inl gone ↦
      subst (λ o. Writes op slots sid (write slots sid (Option.map f o))) (sym gone)
        (refused-Writes op slots sid (ap (is_allowed op) gone))
  | inr (s, here) ↦
      subst (λ o. Writes op slots sid (write slots sid (Option.map f o))) (sym here)
        (written-Writes op slots sid s (f s) here (granted s) (wrote s))
]

-- A computer in a slot that is there.
computer-Writes :
    (t c r k h : ℕ) (slots : SlotTable) (sid : ℕ) (s : SlotInfo)
    → get_elem? slots sid ≡ some s
    → Writes
        (adds_computer t c r k h)
        slots
        sid
        (write slots sid (Option.map (computer_in t c r k h) (vacant (some s))))
computer-Writes t c r k h slots sid s here = elim (Bool-cases (s.slot_status == occupied_status)) [
  | inl full ↦ rw full (
      refused-Writes (adds_computer t c r k h) slots sid
        (ap (is_allowed (adds_computer t c r k h)) here ∙ ap not full))
  | inr free ↦ rw free (
      written-Writes (adds_computer t c r k h) slots sid s (computer_in t c r k h s) here
        (ap not free) ((refl, refl, refl), (refl, refl), (refl, refl, refl), refl))
]

add_computer-Writes :
    (t c r k h : ℕ) (slots : SlotTable) (sid : ℕ)
    → Writes (adds_computer t c r k h) slots sid (add_computer slots sid t c r k h)
unfolding add_computer
add_computer-Writes t c r k h slots sid =
    let motive : Option SlotInfo → Type 0 = λ o.
      Writes (adds_computer t c r k h) slots sid
        (write slots sid (Option.map (computer_in t c r k h) (vacant o))) in
    elim (Option-cases (get_elem? slots sid)) [
      | inl gone ↦ subst motive (sym gone) (
          refused-Writes (adds_computer t c r k h) slots sid
            (ap (is_allowed (adds_computer t c r k h)) gone))
      | inr (s, here) ↦ subst motive (sym here) (computer-Writes t c r k h slots sid s here)
    ]

-- Every single-slot operation succeeds exactly where the slot is in the table and, for a computer, not
-- occupied. Where it does not, the whole table stays; where it does, the slot has exactly the occupant,
-- status, side, race, handicap and download that `Wrote` lists for the operation. The number of slots
-- and every other slot stay.
pub apply-Writes :
    (op : SlotOp) (slots : SlotTable) (sid : ℕ) → Writes op slots sid (apply op slots sid)
unfolding apply open_slot close_slot occupy_slot occupy replace set_colour
apply-Writes opens slots sid =
    modify-Writes opens _ slots sid (λ s. refl)
      (λ s. ((refl, refl, refl), (refl, refl), (refl, refl, refl), refl))
apply-Writes closes slots sid =
    modify-Writes closes _ slots sid (λ s. refl)
      (λ s. ((refl, refl, refl), (refl, refl), (refl, refl, refl), refl))
apply-Writes (occupies_slot pid) slots sid =
    modify-Writes (occupies_slot pid) _ slots sid (λ s. refl)
      (λ s. ((refl, refl, refl), (refl, refl), (refl, refl, refl), refl))
apply-Writes (occupies pid team colour) slots sid =
    modify-Writes (occupies pid team colour) _ slots sid (λ s. refl)
      (λ s. ((refl, refl, refl), (refl, refl), (refl, refl, refl), refl))
apply-Writes (replaces info) slots sid =
    modify-Writes (replaces info) _ slots sid (λ s. refl) (λ s. refl)
apply-Writes (sets_colour colour) slots sid =
    modify-Writes (sets_colour colour) _ slots sid (λ s. refl)
      (λ s. ((refl, refl, refl), (refl, refl), (refl, refl, refl), refl))
apply-Writes (adds_computer t c r k h) slots sid = add_computer-Writes t c r k h slots sid

-- A sid out of range is refused by each operation, and a computer never takes an occupied slot.
pub apply_refuses :
    (op : SlotOp) (slots : SlotTable) (sid seat t c r k h : ℕ) (s : SlotInfo)
    → length slots ≤ sid
    → get_elem? slots seat ≡ some s
    → s.slot_status ≡ occupied_status
    → (apply op slots sid ≡ (false, slots)) × (add_computer slots seat t c r k h ≡ (false, slots))
unfolding apply open_slot close_slot occupy_slot occupy replace set_colour add_computer
apply_refuses op slots sid seat t c r k h s l e o =
    (out op (get_elem?-ge slots sid l), ground (arith, e, o))
  where
    out : (op : SlotOp) → get_elem? slots sid ≡ none → apply op slots sid ≡ (false, slots)
    out opens e = rw e
    out closes e = rw e
    out (occupies_slot pid) e = rw e
    out (occupies pid team colour) e = rw e
    out (replaces info) e = rw e
    out (sets_colour colour) e = rw e
    out (adds_computer t c r k h) e = rw e
