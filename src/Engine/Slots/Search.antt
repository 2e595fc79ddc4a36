-- ===== src/Engine/Slots/Search.antt =====
-- The searches of slots.rs: an open slot of a team, and an unused colour.

use ghostrs.Base.{
  ℕ, zero, suc, ◌+◌, ◌-◌, ◌≤◌, ◌<◌, ◌≡◌, refl, sym, ◌∙◌, ◌⊎◌, inl, inr, Bool, true, false, [], ◌∷◌,
  Option, none, some, arith, length, get_elem?, take, drop, position, any, get_elem?-some_lt,
  Option-cases, Bool-cases, ◌==◌, if◌then◌else◌, as_u8, leb, ltb,
}
use ghostrs.Protocol.W3gs.Slot.{SlotInfo}
use ghostrs.Engine.Slots.{
  SlotTable, is_open_in, search_from, first_open_in_team_from, colour_loop, unused_colour,
  max_slots,
}
use ghostrs.Engine.Slots.Seats.{position_holds, position-lt}

get_elem?-drop :
    (n i : ℕ) (slots : SlotTable) → get_elem? (drop n slots) i ≡ get_elem? slots (n + i)
get_elem?-drop zero i slots = let same : 0 + i ≡ i = omega arith in rw same
get_elem?-drop (suc n) i [] = refl
get_elem?-drop (suc n) i (s ∷ slots) =
    let same : suc n + i ≡ suc (n + i) = omega arith in rw same (get_elem?-drop n i slots)

get_elem?-take :
    (n i : ℕ) (slots : SlotTable) → i < n → get_elem? (take n slots) i ≡ get_elem? slots i
get_elem?-take zero i slots h = absurd (omega arith)
get_elem?-take (suc n) i [] h = refl
get_elem?-take (suc n) zero (s ∷ slots) h = refl
get_elem?-take (suc n) (suc i) (s ∷ slots) h = get_elem?-take n i slots (omega arith)

length-take-le : (n : ℕ) (slots : SlotTable) → length (take n slots) ≤ n
length-take-le zero slots = omega arith
length-take-le (suc n) [] = omega arith
length-take-le (suc n) (s ∷ slots) = omega (arith, length-take-le n slots)

module _ (p : SlotInfo → Bool) where
  position-none :
      (slots : SlotTable) (i : ℕ) (s : SlotInfo)
      → position p slots ≡ none
      → get_elem? slots i ≡ some s
      → p s ≡ false
  position-none [] i s h e = cc
  position-none (x ∷ slots) zero s h e = ground arith
  position-none (x ∷ slots) (suc i) s h e = ground (arith, position-none slots i s)

-- What the wrap-around search may return: an open slot of the team that stands in the table, and
-- before `start` only if none stands behind it; or nothing, if the team has no open slot at all.
abbrev pub Finds : SlotTable → ℕ → ℕ → Option ℕ → Type 0
Finds slots start team none =
    (j : ℕ) (s : SlotInfo) → get_elem? slots j ≡ some s → is_open_in team s ≡ false
Finds slots start team (some i) =
    ((s : SlotInfo) × (get_elem? slots i ≡ some s) × (is_open_in team s ≡ true))
    × (i < start
        → (j : ℕ) (s : SlotInfo) → start ≤ j
        → get_elem? slots j ≡ some s
        → is_open_in team s ≡ false)

-- Nothing behind `start` means that no slot from there on is open.
none_behind :
    (slots : SlotTable) (start team j : ℕ) (s : SlotInfo)
    → position (is_open_in team) (drop start slots) ≡ none
    → start ≤ j
    → get_elem? slots j ≡ some s
    → is_open_in team s ≡ false
none_behind slots start team j s e l h =
    let same : start + (j - start) ≡ j = omega arith in
    position-none (is_open_in team) (drop start slots) (j - start) s e
      (get_elem?-drop start (j - start) slots ∙ rw same h)

none_before :
    (slots : SlotTable) (start team j : ℕ) (s : SlotInfo)
    → position (is_open_in team) (take start slots) ≡ none
    → j < start
    → get_elem? slots j ≡ some s
    → is_open_in team s ≡ false
none_before slots start team j s e l h =
    position-none (is_open_in team) (take start slots) j s e (get_elem?-take start j slots l ∙ h)

search_from-Finds :
    (slots : SlotTable) (start team : ℕ)
    → length slots ≤ 256
    → Finds slots start team (search_from slots start team)
search_from-Finds slots start team l =
    elim (Option-cases (position (is_open_in team) (drop start slots))) [
      | inr (i, e) ↦
          let (s, here, hit) = position_holds (is_open_in team) (drop start slots) i e in
          let here' : get_elem? slots (start + i) ≡ some s =
            sym (get_elem?-drop start i slots) ∙ here in
          let small : as_u8 (start + i) ≡ start + i =
            omega (arith, get_elem?-some_lt slots (start + i) s here') in
          rw (e, small) ((s, here', hit), λ lt. absurd (omega arith))
      | inl gone ↦ elim (Option-cases (position (is_open_in team) (take start slots))) [
        | inr (i, e) ↦
            let (s, here, hit) = position_holds (is_open_in team) (take start slots) i e in
            let inside : i < start = omega (
              arith,
              position-lt (is_open_in team) (take start slots) i e,
              length-take-le start slots,
            ) in
            let here' : get_elem? slots i ≡ some s =
              sym (get_elem?-take start i slots inside) ∙ here in
            let small : as_u8 i ≡ i = omega (arith, get_elem?-some_lt slots i s here') in
            rw (gone, e, small) ((s, here', hit), λ lt j t. none_behind slots start team j t gone)
        | inl gone' ↦
            rw (gone, gone')
              λ j t h. elim (Bool-cases (leb start j)) [
                | inl later ↦ none_behind slots start team j t gone (ground arith) h
                | inr sooner ↦ none_before slots start team j t gone' (ground arith) h
              ]
      ]
    ]

-- From a start in a table of at most 256 slots `first_open_in_team_from` finds an open slot of the
-- team wherever there is one, and one before the start only if none stands behind it; the search
-- starts at the start itself if that slot is of the team, else at the top.
pub first_open_in_team_from-Finds :
    (slots : SlotTable) (start_sid team : ℕ) (s : SlotInfo)
    → length slots ≤ 256
    → get_elem? slots start_sid ≡ some s
    → Finds slots
        (if s.team == team then start_sid else 0)
        team
        (first_open_in_team_from slots start_sid team)
unfolding first_open_in_team_from
first_open_in_team_from-Finds slots start_sid team s l e = rw e (search_from-Finds slots _ team l)

-- What the colour loop ends with: every colour passed is in use, and the result is free unless the
-- rounds ran out.
record Free (slots : SlotTable) (rounds c r : ℕ) : Type 0 where
  low : c ≤ r
  high : r ≤ c + rounds
  used : (k : ℕ) → c ≤ k → k < r → any (λ s. s.colour == k) slots ≡ true
  free : r < c + rounds → any (λ s. s.colour == r) slots ≡ false

colour_loop-Free :
    (slots : SlotTable) (rounds c : ℕ) → Free slots rounds c (colour_loop rounds c slots)
unfolding colour_loop
colour_loop-Free slots zero c = record {
  low = omega arith;
  high = omega arith;
  used = λ k a b. absurd (omega arith);
  free = λ a. absurd (omega arith);
}
colour_loop-Free slots (suc rounds) c = elim (Bool-cases (any (λ s. s.colour == c) slots)) [
  | inr unused ↦ rw unused (record {
    low = omega arith;
    high = omega arith;
    used = λ k a b. absurd (omega arith);
    free = λ a. unused;
  })
  | inl taken ↦
      let rest = colour_loop-Free slots rounds (c + 1) in
      rw taken (record {
        low = omega (arith, rest.low);
        high = omega (arith, rest.high);
        used = λ k a b. elim (Bool-cases (k == c)) [
          | inl same ↦ let e : k ≡ c = ground arith in rw e taken
          | inr other ↦ rest.used k (ground arith) b
        ];
        free = λ a. rest.free (omega arith);
      })
]

-- `unused_colour` is the lowest colour below 24 that no slot has, or 24 if there is none.
pub unused_colour_lem :
    (slots : SlotTable)
    → (unused_colour slots ≤ max_slots)
      × ((k : ℕ) → k < unused_colour slots → any (λ s. s.colour == k) slots ≡ true)
      × ((unused_colour slots ≡ max_slots)
          ⊎ (any (λ s. s.colour == unused_colour slots) slots ≡ false))
unfolding unused_colour
unused_colour_lem slots =
    let r = colour_loop-Free slots max_slots 0 in
    (
      r.high,
      λ k l. r.used k (omega arith) l,
      elim (Bool-cases (ltb (colour_loop max_slots 0 slots) max_slots)) [
        | inl small ↦ inr (r.free (ground arith))
        | inr end ↦ inl (ground (arith, r.high))
      ],
    )
