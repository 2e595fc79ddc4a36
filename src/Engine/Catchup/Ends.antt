-- ===== src/Engine/Catchup/Ends.antt =====
-- Where the catch-up of crates/spectre-engine/src/state.rs ends.
use ghostrs.Base.{
  ℕ, ◌≡◌, refl, ap, ◌∙◌, ◌⊎◌, inl, inr, true, List, ◌++◌, none, some, arith, leb, ltb, length, take,
  drop, take_all, Bool-cases,
}
use ghostrs.Protocol.Buffer.{Bytes}
use ghostrs.Engine.History.{first_seq}
use ghostrs.Engine.History.Log.{holding}
use ghostrs.Engine.Players.{Player}
use ghostrs.Engine.State.{is_some}
use ghostrs.Engine.Broadcast.{offer}
use ghostrs.Engine.Catchup.{settle_cursor, pump_player}
use ghostrs.Engine.Catchup.Loop.{
  is_gone, try_send_cases, Pumped, pump_loop_lem, next_seq-holding, snapshot-holding,
  pump_player-cursor, settle_cursor-same, pump_from-gone,
}
use ghostrs.Engine.Catchup.Progress.{Progress, gone, behind, live, settle_cursor-sent}

-- What one step does to the catch-up of the player `p`, now `p'`: the player is gone, or catches up now
-- if and only if it did before, or the catch-up is over and all of the log is sent.
abbrev pub Ends : List Bytes → List Bytes → Player → Player → List Bytes → Type 0
Ends start log p p' sent =
    (is_gone p' ≡ true)
    ⊎ (is_some p'.catchup_cursor ≡ is_some p.catchup_cursor)
    ⊎ ((p'.catchup_cursor ≡ none) × (sent ≡ start ++ log))

settle_cursor-Ends :
    (start log taken : List Bytes) (p q : Player) (c cur : ℕ)
    → p.catchup_cursor ≡ some c
    → taken ++ p.link.queue ≡ start ++ take c log
    → Pumped (drop c log) c p (cur, q)
    → let q' = settle_cursor (length log) (cur, q) in Ends start log p q' (taken ++ q'.link.queue)
settle_cursor-Ends start log taken p q c cur e s (same, lost, inl g) =
    inl ((settle_cursor-same (length log) cur q).1 ∙ g)
settle_cursor-Ends start log taken p q c cur e s (same, lost, inr (n, few, moved, kept, queue)) =
    elim (Bool-cases (leb (length log) cur)) [
      | inl end ↦ inr (
          inr (
            ground (arith, end, held),
            settle_cursor-sent start log taken p q c cur n s moved queue
                ∙ ap (λ l. start ++ l) (take_all cur log (ground arith)),
          ))
      | inr more ↦ inr (inl (ground (arith, more, held, e)))
    ]
  where
    held : q.catchup_cursor ≡ some c
    held = kept ∙ e

pub pump_player-Ends :
    (now cap : ℕ) (start log taken : List Bytes) (p : Player)
    → Progress start log p (taken ++ p.link.queue)
    → let p' = pump_player now (holding cap log) p in Ends start log p p' (taken ++ p'.link.queue)
pump_player-Ends now cap start log taken p (gone g) = inl (
    rw (pump_player-cursor now cap log p p.catchup_cursor refl)
      ((pump_from-gone now (holding cap log) p p.catchup_cursor).1 g))
pump_player-Ends now cap start log taken p (behind c e le s) =
    rw (pump_player-cursor now cap log p (some c) e) (elim (Bool-cases (is_some p.left)) [
      | inl left ↦ inl (ground (arith, left))
      | inr seated ↦ elim (Bool-cases (ltb c (first_seq (holding cap log)))) [
        | inl evicted ↦ inl (ground (arith, seated, evicted))
        | inr held ↦
            rw (seated, held, next_seq-holding cap log, snapshot-holding cap c log held)
              (settle_cursor-Ends start log taken p _ c _ e s (pump_loop_lem now (drop c log) c p))
      ]
    ])
pump_player-Ends now cap start log taken p (live m later e le s w) =
    inr (inl (ap (λ q. is_some q.catchup_cursor) (pump_player-cursor now cap log p none e)))

-- A broadcast never touches the cursor.
pub offer-keeps_cursor :
    (now : ℕ) (b : Bytes) (p : Player) → (offer now b p).catchup_cursor ≡ p.catchup_cursor
unfolding offer
offer-keeps_cursor now b p = elim (try_send_cases p.link b) [
  | inl went ↦ ground (arith, went)
  | inr (inl full) ↦ ground (arith, full)
  | inr (inr hung) ↦ ground (arith, hung)
]
