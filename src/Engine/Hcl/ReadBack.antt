-- ===== src/Engine/Hcl/ReadBack.antt =====
-- A map that undoes the encoding reads the command back.
use ghostrs.Base.{
  ℕ, zero, suc, ◌/◌, ◌≤◌, ◌<◌, ◌≡◌, refl, ap, ap₂, inl, inr, Bool, true, false, ◌&&◌, List, [], ◌∷◌,
  Option, none, some, arith, ltb, ◌==◌, if◌then◌else◌, length, get_or, any, all, All, map, position,
  Bool-cases,
}
use ghostrs.Protocol.W3gs.Slot.{SlotInfo}
use ghostrs.Engine.Slots.{SlotTable, occupied_status, count, is_occupied_slot}
use ghostrs.Engine.Hcl.{
  hcl_chars, map_from, encoding_map, unwrap_or, map_index, place, is_hcl_char,
  encode_hcl_into_slots,
}

-- The reader of a map: the index of a handicap, and the character that it stands for.
abbrev pub read_char : ℕ → ℕ
read_char handicap =
    get_or hcl_chars (unwrap_or (position (λ v. v == handicap) encoding_map) 0 / 6) 0

unfoldable pub read_hcl : ℕ → SlotTable → List ℕ
read_hcl zero slots = []
read_hcl (suc n) [] = []
read_hcl (suc n) (s ∷ slots) =
    let here = read_char s.handicap ∷ read_hcl n slots in
    let later = read_hcl (suc n) slots in if s.slot_status == occupied_status then here else later

abbrev equals : Option ℕ → ℕ → Bool
equals none k = false
equals (some i) k = i == k

abbrev found_back : ℕ → Bool
found_back k = equals (position (λ v. v == get_or encoding_map k 0) encoding_map) k

abbrev all_below : ℕ → Bool
all_below zero = true
all_below (suc n) = found_back n && all_below n

all_found_back : all_below 246 ≡ true
unfolding encoding_map map_from
all_found_back = refl

below : (n k : ℕ) → all_below n ≡ true → k < n → found_back k ≡ true
below zero k h l = absurd (omega arith)
below (suc n) k h l = elim (Bool-cases (k == n)) [
  | inl same ↦ let e : k ≡ n = ground arith in rw e (ground (arith, h))
  | inr other ↦ below n k (ground (arith, h)) (ground arith)
]

equals_some : (o : Option ℕ) (k : ℕ) → equals o k ≡ true → unwrap_or o 0 ≡ k
equals_some none k h = absurd (cc)
equals_some (some i) k h = ground arith

index_back :
    (k : ℕ) → k < 246 → unwrap_or (position (λ v. v == get_or encoding_map k 0) encoding_map) 0 ≡ k
index_back k l = equals_some _ k (below 246 k all_found_back l)

-- The first place of a character that occurs.
occurs :
    (xs : List ℕ) (ch : ℕ)
    → any (λ c. c == ch) xs ≡ true
    → (i : ℕ) × (position (λ c. c == ch) xs ≡ some i) × (i < length xs) × (get_or xs i 0 ≡ ch)
occurs [] ch h = absurd (cc)
occurs (x ∷ xs) ch h = elim (Bool-cases (x == ch)) [
  | inl hit ↦ (0, rw hit refl, omega arith, ground arith)
  | inr miss ↦
      let (i, e, l, g) = occurs xs ch (ground (arith, h, miss)) in
      (suc i, rw (miss, e) refl, omega arith, g)
]

index_of_char :
    (ch handicap i : ℕ)
    → position (λ c. c == ch) hcl_chars ≡ some i
    → i < 41
    → handicap < 110
    → (map_index ch handicap < 246) × (map_index ch handicap / 6 ≡ i)
unfolding map_index
index_of_char ch handicap i e small l = rw e (omega arith, omega arith)

read-map_index :
    (ch handicap : ℕ)
    → is_hcl_char ch ≡ true
    → handicap < 110
    → read_char (get_or encoding_map (map_index ch handicap) 0) ≡ ch
read-map_index ch handicap h l =
    let (i, e, small, back) = occurs hcl_chars ch h in
    let (low, sixth) = index_of_char ch handicap i e small l in
    rw (index_back (map_index ch handicap) low, sixth) back

abbrev pub HasHandicaps : SlotTable → Type 0
HasHandicaps = All (λ s. s.handicap < 110)

place_lem :
    (hcl : List ℕ) (slots : SlotTable)
    → all is_hcl_char hcl ≡ true
    → HasHandicaps slots
    → length hcl ≤ count is_occupied_slot slots
    → read_hcl (length hcl) (place hcl slots) ≡ hcl
unfolding place read_hcl
place_lem [] slots c h l = refl
place_lem (ch ∷ hcl) [] c h l = absurd (unfold count in omega arith)
place_lem (ch ∷ hcl) (s ∷ slots) c h l = elim (Bool-cases (s.slot_status == occupied_status)) [
  | inl taken ↦
      rw (taken, taken)
        (ap₂ ◌∷◌ (read-map_index ch s.handicap (ground (arith, c)) h.0)
          (place_lem hcl slots (ground (arith, c)) h.1 (unfold count in ground (arith, l, taken))))
  | inr free ↦
      rw (free, free) (place_lem (ch ∷ hcl) slots c h.1 (unfold count in ground (arith, l, free)))
]

-- The other fields of the slots.
abbrev pub other_fields : SlotInfo → SlotInfo
other_fields s = record s { handicap = 0 }

place-keeps :
    (hcl : List ℕ) (slots : SlotTable) → map other_fields (place hcl slots) ≡ map other_fields slots
unfolding place
place-keeps [] slots = refl
place-keeps (ch ∷ hcl) [] = refl
place-keeps (ch ∷ hcl) (s ∷ slots) = elim (Bool-cases (s.slot_status == occupied_status)) [
  | inl taken ↦ rw taken (ap (◌∷◌ (other_fields s)) (place-keeps hcl slots))
  | inr free ↦ rw free (ap (◌∷◌ (other_fields s)) (place-keeps (ch ∷ hcl) slots))
]

-- A command of the code's characters, with a character at least and no more than there are occupied
-- slots, is put into slots whose handicaps are below 110; a map that undoes the encoding reads it
-- back from the handicaps of the occupied slots, in order; and no other field of a slot changes.
pub encode_hcl_into_slots_lem :
    (hcl : List ℕ) (slots : SlotTable)
    → 0 < length hcl
    → length hcl ≤ count is_occupied_slot slots
    → all is_hcl_char hcl ≡ true
    → HasHandicaps slots
    → let (done, slots') = encode_hcl_into_slots hcl slots in
      (done ≡ true)
      × (read_hcl (length hcl) slots' ≡ hcl)
      × (map other_fields slots' ≡ map other_fields slots)
unfolding encode_hcl_into_slots
encode_hcl_into_slots_lem [] slots some_chars room chars h = absurd (omega arith)
encode_hcl_into_slots_lem (ch ∷ hcl) slots some_chars room chars h =
    let fits : ltb (count is_occupied_slot slots) (length (ch ∷ hcl)) ≡ false = ground arith in
    rw (fits, chars) (refl, place_lem (ch ∷ hcl) slots chars h room, place-keeps (ch ∷ hcl) slots)
