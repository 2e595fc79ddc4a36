-- ===== src/Engine/Catchup/Drops.antt =====
-- When a step of a game of crates/spectre-engine/src/state.rs drops the player who catches up.
use ghostrs.Base.{
  ℕ, ◌+◌, ◌-◌, ◌≤◌, ◌<◌, ◌≡◌, refl, ap, ◌∙◌, ◌⊎◌, inl, inr, true, ◌||◌, List, [], ◌∷◌, ◌++◌, none,
  some, arith, leb, ltb, length, Bool-cases, Option-cases,
}
use ghostrs.Protocol.Buffer.{Bytes}
use ghostrs.Engine.Link.{PlayerLink, try_send, delivered, failed, backpressure}
use ghostrs.Engine.History.{first_seq, next_seq, snapshot_from_seq}
use ghostrs.Engine.History.Log.{holding}
use ghostrs.Engine.Players.{Player}
use ghostrs.Engine.State.{is_some}
use ghostrs.Engine.Broadcast.{offer, transmit, record_packet, max_consecutive_drops}
use ghostrs.Engine.Catchup.{pump_loop, pump_player}
use ghostrs.Engine.Catchup.Loop.{is_gone, settle_cursor-same, pump_player-cursor}
use ghostrs.Engine.Catchup.Progress.{is_held}

-- What one step from the player `p` to `p'` does to its seat, with room for `cap` packets of the log in
-- the history: `p'` is gone if and only if `p` was; or the link of `p` is closed; or the packet at its
-- cursor is evicted; or it is live, and the queue was full for `max_consecutive_drops` packets on end.
abbrev pub DropsFor : ℕ → List Bytes → Player → Player → Type 0
DropsFor cap log p p' =
    (is_gone p' ≡ is_gone p)
    ⊎ (p.link.is_closed ≡ true)
    ⊎ ((c : ℕ) × (p.catchup_cursor ≡ some c) × (c < length log - cap))
    ⊎ ((p.catchup_cursor ≡ none) × (max_consecutive_drops ≤ p.consecutive_send_failures + 1))

-- The arms of `try_send`, with what it reads.
try_send-Open :
    (link : PlayerLink) (b : Bytes)
    → (link.is_closed ≡ true)
      ⊎ (try_send link b ≡ (delivered, record link { queue = link.queue ++ b ∷ [] }))
      ⊎ (try_send link b ≡ (failed backpressure, link))
unfolding try_send
try_send-Open link b = ground arith

pump_loop-drops :
    (now : ℕ) (pending : List Bytes) (cur : ℕ) (p : Player)
    → (p.link.is_closed ≡ true) ⊎ (is_gone (pump_loop now pending cur p).1 ≡ is_gone p)
unfolding pump_loop
pump_loop-drops now [] cur p = inr refl
pump_loop-drops now (pkt ∷ pending) cur p = elim (try_send-Open p.link pkt) [
  | inl shut ↦ inl shut
  | inr (inl went) ↦ rw went (
      pump_loop-drops now pending (cur + 1) (record p {
        link = record p.link { queue = p.link.queue ++ pkt ∷ [] };
        consecutive_send_failures = 0;
      }))
  | inr (inr full) ↦ inr (rw full refl)
]

pub pump_player-drops :
    (now cap : ℕ) (log : List Bytes) (p : Player)
    → DropsFor cap log p (pump_player now (holding cap log) p)
pump_player-drops now cap log p = elim (Option-cases p.catchup_cursor) [
  | inl e ↦ inl (rw (pump_player-cursor now cap log p none e) refl)
  | inr (c, e) ↦
      rw (pump_player-cursor now cap log p (some c) e) (elim (Bool-cases (is_some p.left)) [
        | inl left ↦ inl (ground (arith, left))
        | inr seated ↦ elim (Bool-cases (ltb c (first_seq (holding cap log)))) [
          | inl evicted ↦ inr (inr (inl (c, e, unfold first_seq in ground (arith, evicted))))
          | inr held ↦
              rw (seated, held)
                (let r = pump_loop now (snapshot_from_seq (holding cap log) c) c p in
                  elim (pump_loop-drops now (snapshot_from_seq (holding cap log) c) c p) [
                    | inl shut ↦ inr (inl shut)
                    | inr same ↦ inl (
                        (settle_cursor-same (next_seq (holding cap log)) r.0 r.1).1
                        ∙ same
                        ∙ ap (λ b. b || is_some p.disconnected_since) seated)
                  ])
        ]
      ])
]

transmit-drops :
    (now cap : ℕ) (log : List Bytes) (b : Bytes) (p : Player)
    → p.catchup_cursor ≡ none
    → DropsFor cap log p (transmit now b p)
transmit-drops now cap log b p live = elim (try_send-Open p.link b) [
  | inl shut ↦ inr (inl shut)
  | inr (inl went) ↦ inl (rw went refl)
  | inr (inr full) ↦
      rw full (elim (Bool-cases (leb max_consecutive_drops (p.consecutive_send_failures + 1))) [
        | inl many ↦ inr (inr (inr (live, ground (arith, many))))
        | inr few ↦ inl (ground (arith, few))
      ])
]

pub offer-drops :
    (now cap : ℕ) (log : List Bytes) (b : Bytes) (p : Player) → DropsFor cap log p (offer now b p)
unfolding offer
offer-drops now cap log b p = elim (Bool-cases (is_some p.left || p.virtual_host)) [
  | inl out ↦ inl (rw out refl)
  | inr seated ↦ elim (Bool-cases (is_held p)) [
    | inl held ↦ inl (rw (seated, held) refl)
    | inr free ↦ rw (seated, free) (transmit-drops now cap log b (record_packet b p) (ground arith))
  ]
]
