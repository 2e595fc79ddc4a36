-- ===== src/Engine/Catchup/Loop.antt =====
-- What the loop of the pump does to one player.

use ghostrs.Base.{
  ℕ, zero, suc, ◌+◌, ◌≤◌, ◌≡◌, refl, sym, ap, ◌∙◌, ◌⊎◌, inl, inr, Bool, true, false, ◌||◌, List, [],
  ◌∷◌, ◌++◌, Option, none, some, arith, ltb, length, take, drop, append_assoc, append-nil,
}
use ghostrs.Protocol.Buffer.{Bytes}
use ghostrs.Engine.Link.{PlayerLink, backpressure, closed, delivered, failed, try_send}
use ghostrs.Engine.History.{FullHistory, first_seq, next_seq, snapshot_from_seq}
use ghostrs.Engine.History.Log.{holding}
use ghostrs.Base.Window.{length-window, drop-window}
use ghostrs.Engine.Players.{Player}
use ghostrs.Engine.State.{is_some}
use ghostrs.Engine.Catchup.{pump_loop, settle_cursor, pump_from, pump_player, hang_up}

-- A player who has left, or is held for a reconnect.
abbrev pub is_gone : Player → Bool
is_gone p = is_some p.left || is_some p.disconnected_since

pub take-nil : (n : ℕ) → ◌≡◌ {A = List Bytes} (take n []) []
take-nil zero = refl
take-nil (suc n) = refl

pub take-add : (c n : ℕ) (xs : List Bytes) → take (c + n) xs ≡ take c xs ++ take n (drop c xs)
take-add zero n xs = let same : 0 + n ≡ n = omega arith in rw same
take-add (suc c) n [] = take-nil (suc c + n) ∙ sym (take-nil n)
take-add (suc c) n (x ∷ xs) =
    let same : suc c + n ≡ suc (c + n) = omega arith in rw same (ap (λ l. x ∷ l) (take-add c n xs))

pub try_send_cases :
    (link : PlayerLink) (b : Bytes)
    → (try_send link b ≡ (delivered, record link { queue = link.queue ++ b ∷ [] }))
      ⊎ (try_send link b ≡ (failed backpressure, link))
      ⊎ (try_send link b ≡ (failed closed, link))
unfolding try_send
try_send_cases link b = ground arith

pub hang_up_gone : (now : ℕ) (p : Player) → is_gone (hang_up now p) ≡ true
hang_up_gone now p = ground arith

pub hang_up-pid : (now : ℕ) (p : Player) → (hang_up now p).pid ≡ p.pid
hang_up-pid now p = ground arith

-- What the loop of the pump does to a player.
abbrev pub Pumped : List Bytes → ℕ → Player → ℕ × Player → Type 0
Pumped pending cur p r =
    (r.1.pid ≡ p.pid)
    × (is_gone p ≡ true → is_gone r.1 ≡ true)
    × ((is_gone r.1 ≡ true)
        ⊎ ((n : ℕ) × (n ≤ length pending)
            × (r.0 ≡ cur + n)
            × (r.1.catchup_cursor ≡ p.catchup_cursor)
            × (r.1.link.queue ≡ p.link.queue ++ take n pending)))

pub pump_loop_lem :
    (now : ℕ) (pending : List Bytes) (cur : ℕ) (p : Player)
    → Pumped pending cur p (pump_loop now pending cur p)
unfolding pump_loop
pump_loop_lem now [] cur p =
    (refl, (λ g. g), inr (0, omega arith, omega arith, refl, sym (append-nil p.link.queue)))
pump_loop_lem now (pkt ∷ pending) cur p = elim (try_send_cases p.link pkt) [
  | inl went ↦
      let p' : Player = record p {
        link = record p.link { queue = p.link.queue ++ pkt ∷ [] };
        consecutive_send_failures = 0;
      } in
      let (same, lost, more) = pump_loop_lem now pending (cur + 1) p' in
      rw went (
        same,
        lost,
        elim more [
          | inl gone ↦ inl gone
          | inr (n, few, moved, cursor, queue) ↦ inr (
            suc n,
            omega arith,
            omega arith,
            cursor,
            queue ∙ append_assoc p.link.queue (pkt ∷ []) (take n pending),
          )
        ],
      )
  | inr (inl full) ↦
      rw full
        (refl, (λ g. g), inr (0, omega arith, omega arith, refl, sym (append-nil p.link.queue)))
  | inr (inr hung) ↦
      rw hung (hang_up-pid now p, (λ g. hang_up_gone now p), inl (hang_up_gone now p))
]

pub next_seq-holding : (cap : ℕ) (log : List Bytes) → next_seq (holding cap log) ≡ length log
unfolding next_seq
next_seq-holding cap log = omega (arith, length-window cap log)

pub snapshot-holding :
    (cap c : ℕ) (log : List Bytes)
    → ltb c (first_seq (holding cap log)) ≡ false
    → snapshot_from_seq (holding cap log) c ≡ drop c log
unfolding snapshot_from_seq first_seq
snapshot-holding cap c log held = drop-window cap c log (ground arith)

pub pump_player-cursor :
    (now cap : ℕ) (log : List Bytes) (p : Player) (o : Option ℕ)
    → p.catchup_cursor ≡ o
    → pump_player now (holding cap log) p ≡ pump_from now (holding cap log) p o
unfolding pump_player
pump_player-cursor now cap log p o e = ap (pump_from now (holding cap log) p) e

-- What the writes behind the loop leave alone.
pub settle_cursor-same :
    (next cur : ℕ) (p : Player)
    → let p' = settle_cursor next (cur, p) in
      (p'.pid ≡ p.pid) × (is_gone p' ≡ is_gone p) × (p'.link ≡ p.link)
settle_cursor-same next cur p = (ground arith, ground arith, ground arith)

pub pump_from-gone :
    (now : ℕ) (h : FullHistory) (p : Player) (o : Option ℕ)
    → let p' = pump_from now h p o in (p'.pid ≡ p.pid) × (is_gone p ≡ true → is_gone p' ≡ true)
pump_from-gone now h p none = (refl, λ g. g)
pump_from-gone now h p (some c) =
    let r = pump_loop now (snapshot_from_seq h c) c p in
    let (same, lost, more) = pump_loop_lem now (snapshot_from_seq h c) c p in
    let (pid, keeps, link) = settle_cursor-same (next_seq h) r.0 r.1 in
    (ground (arith, same, pid), ground (arith, lost, keeps))

pub pump_player-pid : (now : ℕ) (h : FullHistory) (p : Player) → (pump_player now h p).pid ≡ p.pid
unfolding pump_player
pump_player-pid now h p = (pump_from-gone now h p p.catchup_cursor).0
