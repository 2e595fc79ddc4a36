-- ===== src/Engine/Tick.antt =====
-- crates/spectre-engine/src/tick.rs. An `Instant` or a `Duration` is its number of nanoseconds.
use ghostrs.Base.{
  ℕ, zero, suc, ◌+◌, ◌*◌, ◌^◌, ◌≤◌, ◌<◌, ◌≡◌, refl, Option, none, some, arith, leb, as_u32,
  if◌then◌else◌, ◌⊎◌, inl, inr, Bool-cases, leb→le,
}

pub record TickScheduler : Type 0 where
  pub period : ℕ
  pub next : ℕ

-- `now` is what `Instant::now()` reads.
unfoldable pub new : ℕ → ℕ → TickScheduler
new now period = record { period = period; next = now + period }

unfoldable pub set_period : TickScheduler → ℕ → TickScheduler
set_period t period = record t { period = period }

-- `while self.next <= now`; `none` means that the fuel ran out.
unfoldable pub skip_loop : ℕ → ℕ → ℕ → ℕ → ℕ → Option (ℕ × ℕ)
skip_loop zero period now next skipped = none
skip_loop (suc fuel) period now next skipped =
    let rest = skip_loop fuel period now (next + period) (as_u32 (skipped + 1)) in
    if leb next now then rest else some (next, skipped)

-- The scheduler after the call, and the count that it returns.
unfoldable pub advance : ℕ → TickScheduler → ℕ → Option (TickScheduler × ℕ)
advance fuel t now = elim (skip_loop fuel t.period now (t.next + t.period) 0) [
  | none ↦ none
  | some (next, skipped) ↦ some (record t { next = next }, skipped)
]

skip_loop_lem :
    (fuel period now next skipped : ℕ)
    → 0 < period
    → 0 < fuel
    → now + 1 < next + fuel
    → skipped < 2 ^ 32
    → (n : ℕ) × (skip_loop fuel period now next skipped
        ≡ some (next + n * period, as_u32 (skipped + n)))
      × (now < next + n * period)
      × ((n ≡ 0) ⊎ (next + n * period ≤ now + period))
unfolding skip_loop
skip_loop_lem zero period now next skipped h f l s = absurd (omega arith)
skip_loop_lem (suc fuel) period now next skipped h f l s = elim (Bool-cases (leb next now)) [
  | inr stop ↦ (0, ground arith, ground arith, inl refl)
  | inl go ↦
      let due : next ≤ now = leb→le next now go in
      let (n, e, past, first) =
        skip_loop_lem fuel period now (next + period) (as_u32 (skipped + 1)) h (omega arith)
          (omega arith) (omega arith) in
      (suc n, rw (go, e) (ground arith), omega arith, inr (last n first due))
]
  where
    last :
        (n : ℕ)
        → (n ≡ 0) ⊎ (next + period + n * period ≤ now + period)
        → next ≤ now
        → next + suc n * period ≤ now + period
    last n (inl e) due = rw e (omega arith)
    last n (inr le) due = omega arith

-- A scheduler with a period ends its call, with enough fuel: the deadline moves by whole periods
-- only, to the first deadline past `now`, and the count is that of the periods left out.
pub advance_lem :
    (fuel now : ℕ) (t : TickScheduler)
    → 0 < t.period
    → 0 < fuel
    → now + 1 < t.next + t.period + fuel
    → (n : ℕ) × (advance fuel t now
        ≡ some (record t { next = t.next + t.period + n * t.period }, as_u32 n))
      × (now < t.next + t.period + n * t.period)
      × ((n ≡ 0) ⊎ (t.next + t.period + n * t.period ≤ now + t.period))
unfolding advance
advance_lem fuel now t h f l =
    let (n, e, past, first) =
      skip_loop_lem fuel t.period now (t.next + t.period) 0 h f l (omega arith) in
    (n, rw (e, advance) (ground arith), past, first)

never :
    (fuel period now next skipped : ℕ)
    → period ≡ 0
    → next ≤ now
    → skip_loop fuel period now next skipped ≡ none
unfolding skip_loop
never zero period now next skipped z l = refl
never (suc fuel) period now next skipped z l =
    ground (arith, never fuel period now (next + period) (as_u32 (skipped + 1)) z)

-- With no period, a deadline that is due is never passed: no amount of fuel ends the loop.
pub advance_zero_period :
    (fuel now : ℕ) (t : TickScheduler) → t.period ≡ 0 → t.next ≤ now → advance fuel t now ≡ none
unfolding advance
advance_zero_period fuel now t z l =
    rw (never fuel t.period now (t.next + t.period) 0 z (omega arith), advance)
