-- ===== src/Mpq/HashTable.antt =====
-- crates/spectre-mpq/src/hash_table.rs: the search for a file name, by linear probing.
use ghostrs.Base.{
  ℕ, zero, suc, ◌+◌, ◌-◌, ◌%◌, ◌≤◌, ◌<◌, ◌≡◌, refl, ◌⊎◌, inl, inr, List, [], ◌∷◌, Bool, true, false,
  not, ◌&&◌, Option, none, some, arith, ◌==◌, if◌then◌else◌, length, get_elem?, get_elem?-lt,
  bit_and, Bool-cases,
}
use ghostrs.Protocol.Buffer.{Bytes}
use ghostrs.Mpq.Crypt.{hash_string, hash_table_offset, hash_name_a, hash_name_b}
use ghostrs.Mpq.Tables.{MpqHashEntry}

abbrev pub hash_entry_empty : ℕ
hash_entry_empty = 0xFFFFFFFF

abbrev pub hash_entry_deleted : ℕ
hash_entry_deleted = 0xFFFFFFFE

abbrev pub matches : ℕ → ℕ → MpqHashEntry → Bool
matches a b e = not (e.block_index == hash_entry_deleted) && e.hash_a == a && e.hash_b == b

abbrev pub is_unused : MpqHashEntry → Bool
is_unused e = e.block_index == hash_entry_empty

-- One slot, where `rest` is what the later ones give. No index is out of the table.
abbrev pub inspect : ℕ → ℕ → Option MpqHashEntry → Option ℕ → Option ℕ
inspect a b none rest = none
inspect a b (some e) rest =
    if is_unused e then none else if matches a b e then some e.block_index else rest

-- The loop over `rounds` slots from the `i`-th after `start` on.
unfoldable pub probe : List MpqHashEntry → ℕ → ℕ → ℕ → ℕ → ℕ → Option ℕ
probe entries start a b i zero = none
probe entries start a b i (suc rounds) =
    inspect a b (get_elem? entries ((start + i) % length entries))
      (probe entries start a b (i + 1) rounds)

abbrev pub start_index : List MpqHashEntry → Bytes → ℕ
start_index entries filename = bit_and (hash_string filename hash_table_offset) (length entries - 1)

unfoldable pub find_block_index : List MpqHashEntry → Bytes → Option ℕ
find_block_index entries filename =
    if length entries == 0
    then none
    else probe entries (start_index entries filename) (hash_string filename hash_name_a)
        (hash_string filename hash_name_b) 0 (length entries)

module _ (entries : List MpqHashEntry) (start a b : ℕ) where
  -- The entry of the `k`-th slot after the start.
  abbrev pub Holds : ℕ → MpqHashEntry → Type 0
  Holds k e = get_elem? entries ((start + k) % length entries) ≡ some e

  abbrev pub PassedOver : ℕ → Type 0
  PassedOver k = (e : MpqHashEntry) × Holds k e × (is_unused e ≡ false) × (matches a b e ≡ false)

  -- What the search over `rounds` slots from the `i`-th on may return.
  abbrev pub Found : ℕ → ℕ → Option ℕ → Type 0
  Found i rounds (some block) =
      (k : ℕ) × (i ≤ k)
      × (k < i + rounds)
      × ((e : MpqHashEntry) × Holds k e
          × (is_unused e ≡ false)
          × (matches a b e ≡ true)
          × (e.block_index ≡ block))
      × ((j : ℕ) → i ≤ j → j < k → PassedOver j)
  Found i rounds none =
      (k : ℕ) × (k ≤ i + rounds)
      × ((k ≡ i + rounds) ⊎ ((e : MpqHashEntry) × Holds k e × (is_unused e ≡ true)))
      × ((j : ℕ) → i ≤ j → j < k → PassedOver j)

  pass :
      (i j : ℕ)
      → PassedOver i
      → ((m : ℕ) → i + 1 ≤ m → m < j → PassedOver m)
      → (m : ℕ) → i ≤ m
      → m < j
      → PassedOver m
  pass i j here later m l u = elim (Bool-cases (m == i)) [
    | inl same ↦ let e : m ≡ i = ground arith in rw e here
    | inr other ↦ later m (ground arith) u
  ]

  extend :
      (i rounds : ℕ) (o : Option ℕ) → PassedOver i → Found (i + 1) rounds o → Found i (suc rounds) o
  extend i rounds none here (k, u, end, later) =
      (k, omega arith, elim end [ inl e ↦ inl (omega arith) | inr f ↦ inr f ], pass i k here later)
  extend i rounds (some block) here (k, l, u, hit, later) =
      (k, omega arith, omega arith, hit, pass i k here later)

  probe-Found :
      (rounds i : ℕ) → 0 < length entries → Found i rounds (probe entries start a b i rounds)
  unfolding probe
  probe-Found zero i h = (i, omega arith, inl (omega arith), λ j l u. absurd (omega arith))
  probe-Found (suc rounds) i h =
      let (e, here) = get_elem?-lt entries ((start + i) % length entries) (omega arith) in
      rw here (elim (Bool-cases (is_unused e)) [
        | inl unused ↦
            rw unused (i, omega arith, inr (e, here, unused), λ j l u. absurd (omega arith))
        | inr used ↦ rw used (elim (Bool-cases (matches a b e)) [
          | inl hit ↦ rw hit (
            i,
            omega arith,
            omega arith,
            (e, here, used, hit, refl),
            λ j l u. absurd (omega arith),
          )
          | inr miss ↦
              rw miss (extend i rounds _ (e, here, used, miss) (probe-Found rounds (i + 1) h))
        ])
      ])

-- The search goes round the table from the slot of the name's hash, and returns the block of the
-- first entry that has the two hashes of the name and is not deleted, if no empty entry comes
-- before it. It gives up only at an empty entry, or when it has passed over every slot.
pub find_block_index-Found :
    (entries : List MpqHashEntry) (filename : Bytes)
    → Found entries
        (start_index entries filename)
        (hash_string filename hash_name_a)
        (hash_string filename hash_name_b)
        0
        (length entries)
        (find_block_index entries filename)
unfolding find_block_index
find_block_index-Found [] filename = (0, omega arith, inl refl, λ j l u. absurd (omega arith))
find_block_index-Found (e ∷ entries) filename =
    let some_slots : (length (e ∷ entries) == 0) ≡ false = ground arith in
    rw some_slots (
      probe-Found (e ∷ entries) (start_index (e ∷ entries) filename)
        (hash_string filename hash_name_a) (hash_string filename hash_name_b) (length (e ∷ entries))
        0 (omega arith))
