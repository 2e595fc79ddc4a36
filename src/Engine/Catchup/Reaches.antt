-- ===== src/Engine/Catchup/Reaches.antt =====
-- How far one pump takes a player whose link is open.
use ghostrs.Base.{
  ℕ, suc, ◌+◌, ◌-◌, ◌≤◌, ◌<◌, ◌≡◌, refl, sym, ap, ◌∙◌, inl, inr, false, List, [], ◌∷◌, ◌++◌, none,
  some, arith, leb, ltb, if◌then◌else◌, length, take, drop, min, append_assoc, append-nil,
  Bool-cases, length-append, length-drop,
}
use ghostrs.Protocol.Buffer.{Bytes}
use ghostrs.Engine.Link.{PlayerLink, backpressure, delivered, failed, try_send}
use ghostrs.Engine.History.{new_with_cap, push_all, first_seq}
use ghostrs.Engine.History.Log.{holding, new-holding, push_all-holding}
use ghostrs.Engine.Players.{Player}
use ghostrs.Engine.State.{is_some}
use ghostrs.Engine.Catchup.{pump_loop, pump_player, settle_cursor}
use ghostrs.Engine.Catchup.Loop.{
  next_seq-holding, snapshot-holding, pump_player-cursor, settle_cursor-same,
}

abbrev pub room : PlayerLink → ℕ
room link = link.capacity - length link.queue

abbrev pub carrying : PlayerLink → List Bytes → PlayerLink
carrying link sent = record link { queue = link.queue ++ sent }

carrying_none :
    (link : PlayerLink) (n : ℕ) (xs : List Bytes) → n ≡ 0 → link ≡ carrying link (take n xs)
carrying_none link n xs z = rw z (ap (λ q. record link { queue = q }) (sym (append-nil link.queue)))

carrying_one_more :
    (link : PlayerLink) (pkt : Bytes) (k n : ℕ) (xs : List Bytes)
    → k ≡ 1 + n
    → carrying (carrying link (pkt ∷ [])) (take n xs) ≡ carrying link (take k (pkt ∷ xs))
carrying_one_more link pkt k n xs e =
    let same : k ≡ suc n = omega arith in
    rw same (ap (λ q. record link { queue = q }) (append_assoc link.queue (pkt ∷ []) (take n xs)))

-- The loop on an open link: it sends what there is room for.
pump_loop_open :
    (now : ℕ) (pending : List Bytes) (cur : ℕ) (p : Player)
    → p.link.is_closed ≡ false
    → let r = pump_loop now pending cur p in
      let n = min (room p.link) (length pending) in
      (r.0 ≡ cur + n)
      × (r.1.link ≡ carrying p.link (take n pending))
      × (r.1.left ≡ p.left)
      × (r.1.catchup_cursor ≡ p.catchup_cursor)
unfolding pump_loop
pump_loop_open now [] cur p up = (omega arith, carrying_none p.link _ [] (omega arith), refl, refl)
pump_loop_open now (pkt ∷ pending) cur p up =
    elim (Bool-cases (leb p.link.capacity (length p.link.queue))) [
      | inl full ↦
          let stays : try_send p.link pkt ≡ (failed backpressure, p.link) =
            unfold try_send in ground (arith, up, full) in
          rw stays (ground arith, carrying_none p.link _ (pkt ∷ pending) (ground arith), refl, refl)
      | inr free ↦
          let went : try_send p.link pkt ≡ (delivered, carrying p.link (pkt ∷ [])) =
            unfold try_send in ground (arith, up, free) in
          let p' : Player = record p {
            link = carrying p.link (pkt ∷ []);
            consecutive_send_failures = 0;
          } in
          let (moved, link, left, cursor) = pump_loop_open now pending (cur + 1) p' up in
          let more : min (room p.link) (suc (length pending))
              ≡ 1 + min (room (carrying p.link (pkt ∷ []))) (length pending) =
            ground (arith, free, length-append p.link.queue (pkt ∷ [])) in
          rw went (
            omega (arith, moved, more),
            link ∙ carrying_one_more p.link pkt _ _ pending more,
            left,
            cursor,
          )
    ]

settle_cursor_writes :
    (next cur c : ℕ) (q : Player)
    → q.catchup_cursor ≡ some c
    → let q' = settle_cursor next (cur, q) in
      (q'.link ≡ q.link)
      × (q'.left ≡ q.left)
      × (q'.catchup_cursor ≡ (if leb next cur then none else some cur))
settle_cursor_writes next cur c q e =
    ((settle_cursor-same next cur q).2, ground arith, ground (arith, e))

-- A pump, for a seated player at packet `c` of a history with room for `cap` packets at least one,
-- that was filled by the log and still holds packet `c`: an open link takes as many of the packets
-- from `c` on as it has room for; and the cursor moves behind them, or is gone if they were the last.
pub pump_fills_link :
    (now cap c : ℕ) (log : List Bytes) (p : Player)
    → 0 < cap
    → p.catchup_cursor ≡ some c
    → p.left ≡ none
    → p.link.is_closed ≡ false
    → c ≤ length log
    → length log ≤ c + cap
    → let p' = pump_player now (push_all (new_with_cap cap) log) p in
      let n = min (room p.link) (length log - c) in
      (p'.link ≡ carrying p.link (take n (drop c log)))
      × (p'.left ≡ none)
      × (p'.catchup_cursor ≡ (if leb (length log) (c + n) then none else some (c + n)))
pump_fills_link now cap c log p h cursor seated up start held =
    rw
      (
        ap (λ g. push_all g log) (new-holding cap) ∙ push_all-holding cap [] log h,
        pump_player-cursor now cap log p (some c) cursor,
        stays,
        kept,
        next_seq-holding cap log,
        snapshot-holding cap c log kept,
      )
      filled
  where
    n : ℕ
    n = min (room p.link) (length (drop c log))

    all_of : min (room p.link) (length log - c) ≡ n
    all_of = omega (arith, length-drop c log)

    r : ℕ × Player
    r = pump_loop now (drop c log) c p

    filled :
        let p' = settle_cursor (length log) r in
        let n' = min (room p.link) (length log - c) in
        (p'.link ≡ carrying p.link (take n' (drop c log)))
        × (p'.left ≡ none)
        × (p'.catchup_cursor ≡ (if leb (length log) (c + n') then none else some (c + n')))
    filled =
        let (moved, link, left, same) = pump_loop_open now (drop c log) c p up in
        let (link', left', cursor') = settle_cursor_writes (length log) r.0 c r.1 (same ∙ cursor) in
        (
          link' ∙ link ∙ ap (λ k. carrying p.link (take k (drop c log))) (sym all_of),
          left' ∙ left ∙ seated,
          cursor'
              ∙ ap (λ k. if leb (length log) k then none else some k)
                  (moved ∙ ap (λ k. c + k) (sym all_of)),
        )

    stays : is_some p.left ≡ false
    stays = ap is_some seated

    kept : ltb c (first_seq (holding cap log)) ≡ false
    kept = unfold first_seq in ground arith
