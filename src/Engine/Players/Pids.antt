-- ===== src/Engine/Players/Pids.antt =====
-- Player ids: the next free one is fresh, and ids stay distinct however players come and go.
use ghostrs.Base.{
  ℕ, zero, suc, ◌+◌, ◌≤◌, ◌<◌, ◌≡◌, refl, inl, inr, Bool, true, false, ◌||◌, [], ◌∷◌, ◌++◌, Option,
  none, some, arith, any, Bool-cases, ◌==◌,
}
use ghostrs.Engine.Players.{
  Player, PlayerTable, insert, remove_first, remove_pid, has_pid, pid_loop, next_free_pid,
}

abbrev pub InUse : PlayerTable → ℕ → Type 0
InUse players c = any (has_pid c) players ≡ true

abbrev pub IsFresh : PlayerTable → ℕ → Type 0
IsFresh players c = any (has_pid c) players ≡ false

-- What the search over `rounds` ids from `c` on may return.
abbrev pub Searched : PlayerTable → ℕ → ℕ → Option ℕ → Type 0
Searched players c rounds none = (k : ℕ) → c ≤ k → k < c + rounds → InUse players k
Searched players c rounds (some r) =
    (c ≤ r) × (r < c + rounds) × IsFresh players r × ((k : ℕ) → c ≤ k → k < r → InUse players k)

extend-Searched :
    (players : PlayerTable) (c rounds : ℕ) (o : Option ℕ)
    → InUse players c
    → Searched players (c + 1) rounds o
    → Searched players c (suc rounds) o
extend-Searched players c rounds none used h = λ k a b. elim (Bool-cases (k == c)) [
  | inl same ↦ let e : k ≡ c = ground arith in rw e used
  | inr other ↦ h k (ground arith) (omega arith)
]
extend-Searched players c rounds (some r) used (low, high, fresh, lower) = (
  omega arith,
  omega arith,
  fresh,
  λ k a b. elim (Bool-cases (k == c)) [
    | inl same ↦ let e : k ≡ c = ground arith in rw e used
    | inr other ↦ lower k (ground arith) b
  ],
)

pid_loop-Searched :
    (players : PlayerTable) (rounds c : ℕ) → Searched players c rounds (pid_loop rounds c players)
unfolding pid_loop
pid_loop-Searched players zero c = λ k a b. absurd (omega arith)
pid_loop-Searched players (suc rounds) c = elim (Bool-cases (any (has_pid c) players)) [
  | inl used ↦
      rw used (extend-Searched players c rounds _ used (pid_loop-Searched players rounds (c + 1)))
  | inr fresh ↦ rw fresh (omega arith, omega arith, fresh, λ k a b. absurd (omega arith))
]

-- `next_free_pid` gives the lowest id from 1 to 254 that no player has, and none only where all 254
-- are taken.
pub next_free_pid-Searched :
    (players : PlayerTable) → Searched players 1 254 (next_free_pid players)
unfolding next_free_pid
next_free_pid-Searched players = pid_loop-Searched players 254 1

-- Every id is that of one player only, and lies between 1 and 254.
abbrev pub Distinct : PlayerTable → Type 0
Distinct [] = Unit {0}
Distinct (p ∷ players) = IsFresh players p.pid × (1 ≤ p.pid) × (p.pid ≤ 254) × Distinct players

any-append :
    (c : ℕ) (players : PlayerTable) (p : Player)
    → any (has_pid c) (players ++ p ∷ []) ≡ any (has_pid c) players || has_pid c p
any-append c [] p = ground arith
any-append c (q ∷ players) p = ground (arith, any-append c players p)

pub insert-Distinct :
    (players : PlayerTable) (p : Player)
    → Distinct players
    → IsFresh players p.pid
    → 1 ≤ p.pid
    → p.pid ≤ 254
    → Distinct (insert players p)
unfolding insert
insert-Distinct [] p d f low high = (refl, low, high, tt)
insert-Distinct (q ∷ players) p (fresh, a, b, d) f low high = (
  ground (arith, any-append q.pid players p),
  a,
  b,
  insert-Distinct players p d (ground arith) low high,
)

any-remove :
    (c : ℕ) (test : Player → Bool) (players : PlayerTable)
    → IsFresh players c
    → IsFresh (remove_first test players) c
unfolding remove_first
any-remove c test [] h = refl
any-remove c test (p ∷ players) h = ground (arith, any-remove c test players)

pub remove-Distinct :
    (test : Player → Bool) (players : PlayerTable)
    → Distinct players
    → Distinct (remove_first test players)
unfolding remove_first
remove-Distinct test [] d = tt
remove-Distinct test (p ∷ players) (fresh, a, b, d) = elim (Bool-cases (test p)) [
  | inl hit ↦ rw hit d
  | inr miss ↦ rw miss (any-remove p.pid test players fresh, a, b, remove-Distinct test players d)
]

pub removed-IsFresh :
    (pid : ℕ) (players : PlayerTable)
    → Distinct players
    → IsFresh (remove_first (has_pid pid) players) pid
unfolding remove_first
removed-IsFresh pid [] d = refl
removed-IsFresh pid (p ∷ players) (fresh, a, b, d) = elim (Bool-cases (p.pid == pid)) [
  | inl hit ↦ let e : p.pid ≡ pid = ground arith in rw hit (rw e at fresh)
  | inr miss ↦ rw (miss, removed-IsFresh pid players d) (rw miss)
]

-- What happens to the table in a game: a player joins under the next free id, or one is removed.
pub data Step (players : PlayerTable) : PlayerTable → Type 0 where
  joins : (p : Player) → next_free_pid players ≡ some p.pid → Step players (insert players p)
  leaves : (pid : ℕ) → Step players (remove_pid players pid).1

pub data Reach : PlayerTable → Type 0 where
  start : Reach []
  next : {players players' : PlayerTable} → Reach players → Step players players' → Reach players'

pub found-Distinct :
    (players : PlayerTable) (p : Player) (o : Option ℕ)
    → Searched players 1 254 o
    → o ≡ some p.pid
    → Distinct players
    → Distinct (insert players p)
found-Distinct players p none s e d = absurd (cc)
found-Distinct players p (some r) (low, high, fresh, lower) e d =
    let same : p.pid ≡ r = ground arith in
    insert-Distinct players p d (rw same fresh) (omega arith) (omega arith)

Step-Distinct :
    {players players' : PlayerTable} → Step players players' → Distinct players → Distinct players'
unfolding remove_pid
Step-Distinct {players} (joins p e) d =
    found-Distinct players p (next_free_pid players) (next_free_pid-Searched players) e d
Step-Distinct {players} (leaves pid) d = remove-Distinct (has_pid pid) players d

reached : {players : PlayerTable} → Reach players → Distinct players
reached start = tt
reached (next r s) = Step-Distinct s (reached r)

-- In every table that a game can reach, no two players share an id, each id lies between 1 and 254,
-- and the id of a removed player is free again.
pub Reach-Distinct :
    {players : PlayerTable}
    → Reach players
    → Distinct players × ((pid : ℕ) → IsFresh (remove_pid players pid).1 pid)
unfolding remove_pid
Reach-Distinct {players} r = (reached r, λ pid. removed-IsFresh pid players (reached r))
