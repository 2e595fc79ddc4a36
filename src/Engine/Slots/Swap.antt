-- ===== src/Engine/Slots/Swap.antt =====
-- `swap_slots` of slots.rs in its three modes.

use ghostrs.Base.{
  ℕ, zero, suc, ◌≡◌, ◌≢◌, refl, sym, ap, ◌∙◌, Bool, true, false, [], ◌∷◌, some, arith, get_elem?,
  set, length-set, get_elem?-set_self, get_elem?-set_ne, get_elem?-some_lt,
}
use ghostrs.Protocol.W3gs.Slot.{SlotInfo}
use ghostrs.Engine.Slots.{SlotTable, swap_slots, put_both, exchanged}

set-set : (xs : SlotTable) (i : ℕ) (u v : SlotInfo) → set (set xs i u) i v ≡ set xs i v
set-set [] i u v = refl
set-set (x ∷ xs) zero u v = refl
set-set (x ∷ xs) (suc i) u v = ap (◌∷◌ x) (set-set xs i u v)

set_comm :
    (xs : SlotTable) (i j : ℕ) (u v : SlotInfo)
    → i ≢ j
    → set (set xs i u) j v ≡ set (set xs j v) i u
set_comm [] i j u v n = refl
set_comm (x ∷ xs) zero zero u v n = absurd (n refl)
set_comm (x ∷ xs) zero (suc j) u v n = refl
set_comm (x ∷ xs) (suc i) zero u v n = refl
set_comm (x ∷ xs) (suc i) (suc j) u v n = ap (◌∷◌ x) (set_comm xs i j u v (λ e. n (ap suc e)))

set-get : (xs : SlotTable) (i : ℕ) (v : SlotInfo) → get_elem? xs i ≡ some v → set xs i v ≡ xs
set-get [] i v e = refl
set-get (x ∷ xs) zero v e = ground arith
set-get (x ∷ xs) (suc i) v e = ap (◌∷◌ x) (set-get xs i v e)

exchanged_back :
    (fs cf : Bool) (x y : SlotInfo)
    → exchanged fs cf (exchanged fs cf x y).0 (exchanged fs cf x y).1 ≡ (x, y)
exchanged_back true cf x y = refl
exchanged_back false true x y = refl
exchanged_back false false x y = refl

-- Two slots of the table, told apart.
swap_slots_lem :
    (slots : SlotTable) (a b : ℕ) (fs cf : Bool) (x y : SlotInfo)
    → a ≢ b
    → get_elem? slots a ≡ some x
    → get_elem? slots b ≡ some y
    → swap_slots slots a b fs cf ≡ (true, put_both slots a b (exchanged fs cf x y))
unfolding swap_slots
swap_slots_lem slots a b fs cf x y n ea eb =
    ground (arith, ea, eb, get_elem?-some_lt slots a x ea, get_elem?-some_lt slots b y eb)

put_both_gets :
    (slots : SlotTable) (a b : ℕ) (x y u v : SlotInfo)
    → a ≢ b
    → get_elem? slots a ≡ some x
    → get_elem? slots b ≡ some y
    → (get_elem? (put_both slots a b (u, v)) a ≡ some u)
      × (get_elem? (put_both slots a b (u, v)) b ≡ some v)
put_both_gets slots a b x y u v n ea eb = (
  get_elem?-set_ne (set slots a u) v (λ e. n (sym e))
      ∙ get_elem?-set_self slots a u (get_elem?-some_lt slots a x ea),
  get_elem?-set_self (set slots a u) b v
      (omega (arith, length-set slots a u, get_elem?-some_lt slots b y eb)),
)

put_both_back :
    (slots : SlotTable) (a b : ℕ) (x y u v : SlotInfo)
    → a ≢ b
    → get_elem? slots a ≡ some x
    → get_elem? slots b ≡ some y
    → put_both (put_both slots a b (u, v)) a b (x, y) ≡ slots
put_both_back slots a b x y u v n ea eb =
    rw
      (
        set_comm (set slots a u) b a v x (λ e. n (sym e)),
        set-set slots a u x,
        set-get slots a x ea,
        set-set slots b v y,
      )
      (set-get slots b y eb)

-- Swapping two different slots of the table twice restores it, in every mode, and the swap says that
-- it was made.
pub swap_slots_twice :
    (slots : SlotTable) (a b : ℕ) (fixed_settings custom_forces : Bool) (x y : SlotInfo)
    → a ≢ b
    → get_elem? slots a ≡ some x
    → get_elem? slots b ≡ some y
    → let (done, slots') = swap_slots slots a b fixed_settings custom_forces in
      (done ≡ true) × (swap_slots slots' a b fixed_settings custom_forces ≡ (true, slots))
swap_slots_twice slots a b fs cf x y n ea eb =
    let (u, v) = exchanged fs cf x y in
    let (gu, gv) = put_both_gets slots a b x y u v n ea eb in
    rw (swap_slots_lem slots a b fs cf x y n ea eb) (
      refl,
      swap_slots_lem (put_both slots a b (u, v)) a b fs cf u v n gu gv
          ∙ rw (exchanged_back fs cf x y)
              (ap (λ t. (true, t)) (put_both_back slots a b x y u v n ea eb)),
    )
