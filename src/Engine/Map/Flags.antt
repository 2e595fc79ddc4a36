-- ===== src/Engine/Map/Flags.antt =====
-- The flags of a game tell its observers and its random races.
use ghostrs.Base.{
  ℕ, ◌≤◌, ◌≡◌, refl, sym, ==_iff, inl, inr, Bool, true, false, ◌&&◌, not, arith, ◌==◌, Bool-cases,
  bit_or,
}
use ghostrs.Engine.Map.{
  has, flag, speed_flags, visibility_flags, observer_flags, calculate_game_flags, observers_of,
  has_random_races, mapspeed_slow, mapspeed_normal, mapvis_hideterrain, mapvis_explored,
  mapvis_alwaysvisible, mapflag_randomraces, mapflag_teamstogether, mapflag_fixedteams,
  mapflag_unitshare, mapflag_randomhero, mapobs_none, mapobs_referees,
}

-- A test that passes on both Booleans.
abbrev every : (Bool → Bool) → Bool
every f = f true && f false

and-left : (a b : Bool) → (a && b) ≡ true → a ≡ true
and-left true b h = refl
and-left false b h = h

and-right : (a b : Bool) → (a && b) ≡ true → b ≡ true
and-right true b h = h
and-right false b h = absurd (cc h)

every-lem : (f : Bool → Bool) → every f ≡ true → (b : Bool) → f b ≡ true
every-lem f h true = and-left (f true) (f false) h
every-lem f h false = and-right (f true) (f false) h

-- A test that passes on the bits of every speed, and of every visibility.
abbrev by_speed : (ℕ → Bool) → Bool
by_speed f = f 0 && (f 1 && f 2)

abbrev by_visibility : (ℕ → Bool) → Bool
by_visibility f = f 0x100 && (f 0x200 && (f 0x400 && f 0x800))

by_speed-lem : (f : ℕ → Bool) → by_speed f ≡ true → (speed : ℕ) → f (speed_flags speed) ≡ true
by_speed-lem f h speed =
    let rest = and-right (f 0) _ h in
    elim (Bool-cases (speed == mapspeed_slow)) [
      | inl slow ↦ rw slow (and-left (f 0) _ h)
      | inr other ↦ elim (Bool-cases (speed == mapspeed_normal)) [
        | inl normal ↦ rw (other, normal) (and-left (f 1) _ rest)
        | inr fast ↦ rw (other, fast) (and-right (f 1) _ rest)
      ]
    ]

by_visibility-lem :
    (f : ℕ → Bool) → by_visibility f ≡ true → (v : ℕ) → f (visibility_flags v) ≡ true
by_visibility-lem f h v =
    let rest = and-right (f 0x100) _ h in
    let rest' = and-right (f 0x200) _ rest in
    elim (Bool-cases (v == mapvis_hideterrain)) [
      | inl e ↦ rw e (and-left (f 0x100) _ h)
      | inr n1 ↦ elim (Bool-cases (v == mapvis_explored)) [
        | inl e ↦ rw (n1, e) (and-left (f 0x200) _ rest)
        | inr n2 ↦ elim (Bool-cases (v == mapvis_alwaysvisible)) [
          | inl e ↦ rw (n1, n2, e) (and-left (f 0x400) _ rest')
          | inr n3 ↦ rw (n1, n2, n3) (and-right (f 0x400) _ rest')
        ]
      ]
    ]

-- `calculate_game_flags` from what it tests.
abbrev flags_from : ℕ → ℕ → ℕ → Bool → Bool → Bool → Bool → Bool → ℕ
flags_from speed visibility observers a b c d e = flag e 0x400_0000 (
    flag d 0x200_0000 (
      flag c 0x100_0000
        (flag b 0x6_0000 (flag a 0x4000 (bit_or (bit_or speed visibility) observers)))))

abbrev same : Bool → Bool → Bool
same true b = b
same false b = not b

same-lem : (a b : Bool) → same a b ≡ true → a ≡ b
same-lem true true h = refl
same-lem true false h = absurd (cc h)
same-lem false true h = absurd (cc h)
same-lem false false h = refl

abbrev is_right : ℕ → Bool → ℕ → Bool
is_right observers e flags = (observers_of flags == observers) && same e (has_random_races flags)

abbrev every_five : (Bool → Bool → Bool → Bool → Bool → Bool) → Bool
every_five f = every λ a. every λ b. every λ c. every λ d. every (f a b c d)

every_five-lem :
    (f : Bool → Bool → Bool → Bool → Bool → Bool) (a b c d e : Bool)
    → every_five f ≡ true
    → f a b c d e ≡ true
every_five-lem f a b c d e h =
    let h1 = every-lem (λ a. every λ b. every λ c. every λ d. every (f a b c d)) h a in
    let h2 = every-lem (λ b. every λ c. every λ d. every (f a b c d)) h1 b in
    let h3 = every-lem (λ c. every λ d. every (f a b c d)) h2 c in
    every-lem (f a b c d) (every-lem (λ d. every (f a b c d)) h3 d) e

abbrev all_bits : ℕ → ℕ → ℕ → Bool
all_bits observers visibility speed = every_five λ a b c d e.
    is_right observers e (flags_from speed visibility (observer_flags observers) a b c d e)

abbrev grid : ℕ → Bool
grid observers = by_visibility λ v. by_speed λ s. all_bits observers v s

grid_lem :
    (speed visibility observers : ℕ) (a b c d e : Bool)
    → grid observers ≡ true
    → is_right observers e (
        flags_from
          (speed_flags speed)
          (visibility_flags visibility)
          (observer_flags observers)
          a
          b
          c
          d
          e)
      ≡ true
grid_lem s v o a b c d e h =
    every_five-lem
      (λ a b c d e.
        is_right o e (flags_from (speed_flags s) (visibility_flags v) (observer_flags o) a b c d e))
      a b c d e
      (by_speed-lem (all_bits o (visibility_flags v))
        (by_visibility-lem (λ v. by_speed λ s. all_bits o v s) h v) s)

is_right_lem :
    (observers : ℕ) (e : Bool) (flags : ℕ)
    → is_right observers e flags ≡ true
    → (observers_of flags ≡ observers) × (has_random_races flags ≡ e)
is_right_lem observers e flags h =
    ((==_iff _ _).0 (and-left _ _ h), sym (same-lem e _ (and-right _ _ h)))

grid_of : (observers : ℕ) → 1 ≤ observers → observers ≤ 4 → grid observers ≡ true
grid_of observers low high = elim (Bool-cases (observers == 1)) [
  | inl e ↦ rw ((==_iff _ _).0 e) refl
  | inr n1 ↦ elim (Bool-cases (observers == 2)) [
    | inl e ↦ rw ((==_iff _ _).0 e) refl
    | inr n2 ↦ elim (Bool-cases (observers == 3)) [
      | inl e ↦ rw ((==_iff _ _).0 e) refl
      | inr n3 ↦ let last : observers ≡ 4 = ground (arith, n1, n2, n3) in rw last refl
    ]
  ]
]

-- From the flags that `calculate_game_flags` makes of a known observer option, `MapInfo::observers`
-- reads that option back and `has_random_races` whether the map asks for random races, whatever the
-- speed, the visibility and the other options of the map are.
pub flags_tell_observers :
    (speed visibility observers map_flags : ℕ)
    → mapobs_none ≤ observers
    → observers ≤ mapobs_referees
    → (observers_of (calculate_game_flags speed visibility observers map_flags) ≡ observers)
      × (has_random_races (calculate_game_flags speed visibility observers map_flags)
          ≡ has map_flags mapflag_randomraces)
unfolding calculate_game_flags
flags_tell_observers speed visibility observers map_flags low high =
    is_right_lem observers (has map_flags mapflag_randomraces) _ (
      grid_lem speed visibility observers (has map_flags mapflag_teamstogether)
        (has map_flags mapflag_fixedteams) (has map_flags mapflag_unitshare)
        (has map_flags mapflag_randomhero) (has map_flags mapflag_randomraces)
        (grid_of observers low high))
