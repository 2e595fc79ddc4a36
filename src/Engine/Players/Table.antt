-- ===== src/Engine/Players/Table.antt =====
-- Lookups and writes in the player table, and the ping history.
use mathlib.Core.Option
use ghostrs.Base.{
  ℕ, ◌*◌, ◌/◌, ◌^◌, ◌≤◌, ◌<◌, ◌≡◌, ap, ◌∙◌, inl, inr, List, [], ◌∷◌, ◌++◌, some, arith, Bool-cases,
  ◌==◌, if◌then◌else◌, length, map, refl, All, append_assoc, append-nil, leb, as_u32,
}
use ghostrs.Base.Window.{window, length-window, window_slide, window_grow}
use ghostrs.Engine.Players.{
  Player, PlayerTable, find, update_first, by_pid, with_pid, push_ping, ping_history_len, sum,
  average,
}

-- A write through `by_pid_mut` that keeps ids is seen by the next lookup of that id, and by no other.
pub by_pid-with_pid :
    (players : PlayerTable) (pid q : ℕ) (f : Player → Player)
    → ((p : Player) → (f p).pid ≡ p.pid)
    → by_pid (with_pid players pid f) q
      ≡ (if q == pid then Option.map f (by_pid players q) else by_pid players q)
unfolding by_pid with_pid find update_first
by_pid-with_pid [] pid q f keep = ground arith
by_pid-with_pid (p ∷ players) pid q f keep =
    ground (arith, keep p, by_pid-with_pid players pid q f keep)

-- A change of every player that keeps ids.
pub by_pid-map :
    (players : PlayerTable) (pid : ℕ) (f : Player → Player)
    → ((p : Player) → (f p).pid ≡ p.pid)
    → by_pid (map f players) pid ≡ Option.map f (by_pid players pid)
unfolding by_pid find
by_pid-map [] pid f keep = refl
by_pid-map (p ∷ players) pid f keep = ground (arith, keep p, by_pid-map players pid f keep)

-- The pings of a player in order.
pub push_pings : List ℕ → List ℕ → List ℕ
push_pings history [] = history
push_pings history (p ∷ ps) = push_pings (push_ping history p) ps

push_ping-window :
    (log : List ℕ) (p : ℕ)
    → push_ping (window ping_history_len log) p ≡ window ping_history_len (log ++ p ∷ [])
unfolding push_ping
push_ping-window log p = elim (Bool-cases (leb ping_history_len (length log))) [
  | inl full ↦ ground (arith, length-window 10 log, window_slide 10 log p (omega arith))
  | inr room ↦ ground (arith, length-window 10 log, window_grow 10 log p)
]

push_pings-window :
    (log ps : List ℕ)
    → push_pings (window ping_history_len log) ps ≡ window ping_history_len (log ++ ps)
unfolding push_pings
push_pings-window log [] = rw append-nil
push_pings-window log (p ∷ ps) =
    rw (push_ping-window log p)
      (push_pings-window (log ++ p ∷ []) ps ∙ ap (window 10) (append_assoc log (p ∷ []) ps))

-- However many pings come in, the history is the last ten of them.
pub ping_history_of_log : (pings : List ℕ) → push_pings [] pings ≡ window ping_history_len pings
ping_history_of_log pings = push_pings-window [] pings

sum_bounds :
    (lo hi : ℕ) (xs : List ℕ)
    → All (λ x. (lo ≤ x) × (x ≤ hi)) xs
    → (lo * length xs ≤ sum xs) × (sum xs ≤ hi * length xs)
unfolding sum
sum_bounds lo hi [] h = (omega arith, omega arith)
sum_bounds lo hi (x ∷ xs) h =
    (omega (arith, (sum_bounds lo hi xs h.1).0), omega (arith, (sum_bounds lo hi xs h.1).1))

quotient_low : (lo s n : ℕ) → lo * n ≤ s → 0 < n → lo ≤ s / n
quotient_low lo s n h p = grind arith

quotient_high : (hi s n : ℕ) → s ≤ hi * n → 0 < n → s / n ≤ hi
quotient_high hi s n h p = grind arith

-- The average of pings between two bounds lies between them, while their sum fits 32 bits.
pub average_bounds :
    (lo hi x : ℕ) (xs : List ℕ)
    → All (λ x. (lo ≤ x) × (x ≤ hi)) (x ∷ xs)
    → sum (x ∷ xs) < 2 ^ 32
    → (a : ℕ) × (average (x ∷ xs) ≡ some a) × (lo ≤ a) × (a ≤ hi)
average_bounds lo hi x xs h small =
    let fits : as_u32 (sum (x ∷ xs)) ≡ sum (x ∷ xs) = omega arith in
    let (low, high) = sum_bounds lo hi (x ∷ xs) h in
    (
      sum (x ∷ xs) / length (x ∷ xs),
      rw fits,
      quotient_low lo _ _ low (omega arith),
      quotient_high hi _ _ high (omega arith),
    )
