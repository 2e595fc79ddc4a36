-- ===== src/Engine/Catchup/Progress.antt =====
-- How far a player has come who catches up, through the pump and the broadcasts.

use ghostrs.Base.{
  ℕ, ◌+◌, ◌≤◌, ◌≡◌, refl, sym, ap, subst, ◌∙◌, inl, inr, Bool, true, ◌||◌, List, [], ◌∷◌, ◌++◌,
  none, some, arith, leb, ltb, length, take, drop, append_assoc, append-nil, Bool-cases,
  length-drop, take-append_le, length-append, drop-append_le,
}
use ghostrs.Protocol.Buffer.{Bytes}
use ghostrs.Engine.Link.{backpressure, closed, failed}
use ghostrs.Engine.History.{first_seq}
use ghostrs.Engine.History.Log.{holding}
use ghostrs.Engine.Players.{Player}
use ghostrs.Engine.State.{is_some, is_rejoining}
use ghostrs.Engine.Broadcast.{offer, settle, transmit, record_packet}
use ghostrs.Engine.Catchup.{settle_cursor, pump_player}
use ghostrs.Engine.Catchup.Loop.{
  is_gone, take-add, try_send_cases, Pumped, pump_loop_lem, next_seq-holding, snapshot-holding,
  pump_player-cursor, settle_cursor-same, pump_from-gone,
}

-- The first list is the second with some entries left out.
pub data Within : List Bytes → List Bytes → Type 0 where
  done : Within [] []
  keep : {xs ys : List Bytes} (x : Bytes) → Within xs ys → Within (x ∷ xs) (x ∷ ys)
  skip : {xs ys : List Bytes} (y : Bytes) → Within xs ys → Within xs (y ∷ ys)

nothing-Within : (ys : List Bytes) → Within [] ys
nothing-Within [] = done
nothing-Within (y ∷ ys) = skip y (nothing-Within ys)

Within-append :
    {xs ys : List Bytes} (b : Bytes) → Within xs ys → Within (xs ++ b ∷ []) (ys ++ b ∷ [])
Within-append b done = keep b done
Within-append b (keep x w) = keep x (Within-append b w)
Within-append b (skip y w) = skip y (Within-append b w)

Within-longer : {xs ys : List Bytes} (b : Bytes) → Within xs ys → Within xs (ys ++ b ∷ [])
Within-longer b done = skip b done
Within-longer b (keep x w) = keep x (Within-longer b w)
Within-longer b (skip y w) = skip y (Within-longer b w)

-- How far a player is who began to catch up with the packets `start` on the way: gone; or at the
-- cursor `c`, with the first `c` packets of the log sent; or live, with a first part of the log sent
-- and then nothing but packets of the rest, in order.
pub data Progress (start log : List Bytes) (p : Player) (sent : List Bytes) : Type 0 where
  gone : is_gone p ≡ true → Progress start log p sent
  behind :
      (c : ℕ)
      → p.catchup_cursor ≡ some c
      → c ≤ length log
      → sent ≡ start ++ take c log
      → Progress start log p sent
  live :
      (m : ℕ) (later : List Bytes)
      → p.catchup_cursor ≡ none
      → m ≤ length log
      → sent ≡ (start ++ take m log) ++ later
      → Within later (drop m log)
      → Progress start log p sent

-- What is on the way when the loop of the pump has sent `n` packets.
pub settle_cursor-sent :
    (start log taken : List Bytes) (p q : Player) (c cur n : ℕ)
    → taken ++ p.link.queue ≡ start ++ take c log
    → cur ≡ c + n
    → q.link.queue ≡ p.link.queue ++ take n (drop c log)
    → taken ++ (settle_cursor (length log) (cur, q)).link.queue ≡ start ++ take cur log
settle_cursor-sent start log taken p q c cur n s moved queue =
    ap (λ l. taken ++ l.queue) (settle_cursor-same (length log) cur q).2
    ∙ ap (λ l. taken ++ l) queue
    ∙ sym (append_assoc taken p.link.queue (take n (drop c log)))
    ∙ ap (λ l. l ++ take n (drop c log)) s
    ∙ append_assoc start (take c log) (take n (drop c log))
    ∙ ap (λ l. start ++ l) (sym (take-add c n log))
    ∙ ap (λ k. start ++ take k log) (sym moved)

settle_cursor-Progress :
    (start log taken : List Bytes) (p q : Player) (c cur : ℕ)
    → p.catchup_cursor ≡ some c
    → c ≤ length log
    → taken ++ p.link.queue ≡ start ++ take c log
    → Pumped (drop c log) c p (cur, q)
    → let q' = settle_cursor (length log) (cur, q) in Progress start log q' (taken ++ q'.link.queue)
settle_cursor-Progress start log taken p q c cur e le s (same, lost, inl g) =
    gone ((settle_cursor-same (length log) cur q).1 ∙ g)
settle_cursor-Progress start log taken p q c cur e le s
      (same, lost, inr (n, few, moved, kept, queue)) =
    elim (Bool-cases (leb (length log) cur)) [
      | inl end ↦
          live cur [] (ground (arith, end, held)) (omega (arith, moved, few, length-drop c log))
            (settled ∙ sym (append-nil (start ++ take cur log))) (nothing-Within _)
      | inr more ↦ behind cur (ground (arith, more, held)) (ground arith) settled
    ]
  where
    held : q.catchup_cursor ≡ some c
    held = kept ∙ e

    settled : taken ++ (settle_cursor (length log) (cur, q)).link.queue ≡ start ++ take cur log
    settled = settle_cursor-sent start log taken p q c cur n s moved queue

pub pump_player-Progress :
    (now cap : ℕ) (start log taken : List Bytes) (p : Player)
    → Progress start log p (taken ++ p.link.queue)
    → let p' = pump_player now (holding cap log) p in Progress start log p' (taken ++ p'.link.queue)
pump_player-Progress now cap start log taken p (gone g) = gone (
    rw (pump_player-cursor now cap log p p.catchup_cursor refl)
      ((pump_from-gone now (holding cap log) p p.catchup_cursor).1 g))
pump_player-Progress now cap start log taken p (behind c e le s) =
    rw (pump_player-cursor now cap log p (some c) e) (elim (Bool-cases (is_some p.left)) [
      | inl left ↦ gone (ground (arith, left))
      | inr seated ↦ elim (Bool-cases (ltb c (first_seq (holding cap log)))) [
        | inl evicted ↦ gone (ground (arith, seated, evicted))
        | inr held ↦
            rw (seated, held, next_seq-holding cap log, snapshot-holding cap c log held)
              (settle_cursor-Progress start log taken p _ c _ e le s
                (pump_loop_lem now (drop c log) c p))
      ]
    ])
pump_player-Progress now cap start log taken p (live m later e le s w) =
    rw (pump_player-cursor now cap log p none e) (live m later e le s w)

-- A packet that the player is not sent.
Progress-longer :
    (start log sent : List Bytes) (p : Player) (b : Bytes)
    → Progress start log p sent
    → Progress start (log ++ b ∷ []) p sent
Progress-longer start log sent p b (gone g) = gone g
Progress-longer start log sent p b (behind c e le s) =
    behind c e (omega (arith, length-append log (b ∷ [])))
      (s ∙ ap (λ l. start ++ l) (sym (take-append_le c log (b ∷ []) le)))
Progress-longer start log sent p b (live m later e le s w) =
    live m later e (omega (arith, length-append log (b ∷ [])))
      (s ∙ ap (λ l. (start ++ l) ++ later) (sym (take-append_le m log (b ∷ []) le)))
      (rw (drop-append_le m log (b ∷ []) le) (Within-longer b w))

pub Progress-same :
    (start log sent : List Bytes) (p q : Player)
    → q.catchup_cursor ≡ p.catchup_cursor
    → (is_gone p ≡ true → is_gone q ≡ true)
    → Progress start log p sent
    → Progress start log q sent
Progress-same start log sent p q cursor keeps (gone g) = gone (keeps g)
Progress-same start log sent p q cursor keeps (behind c e le s) = behind c (cursor ∙ e) le s
Progress-same start log sent p q cursor keeps (live m later e le s w) =
    live m later (cursor ∙ e) le s w

-- A player with the same cursor and queue, who is gone if the other is.
abbrev Likewise : Player → Player → Type 0
Likewise p q =
    (q.catchup_cursor ≡ p.catchup_cursor)
    × (q.link.queue ≡ p.link.queue)
    × (is_gone p ≡ true → is_gone q ≡ true)

Progress-Likewise :
    (start log taken : List Bytes) (p q : Player)
    → Likewise p q
    → Progress start log p (taken ++ p.link.queue)
    → Progress start log q (taken ++ q.link.queue)
Progress-Likewise start log taken p q (cursor, queue, keeps) progress =
    subst (λ l. Progress start log q (taken ++ l)) (sym queue)
      (Progress-same start log (taken ++ p.link.queue) p q cursor keeps progress)

settle_full-Likewise : (now : ℕ) (p : Player) → Likewise p (settle now (failed backpressure) p)
settle_full-Likewise now p = (ground arith, ground arith, ground arith)

settle_hung-Likewise : (now : ℕ) (p : Player) → Likewise p (settle now (failed closed) p)
settle_hung-Likewise now p = (ground arith, ground arith, ground arith)

-- A packet that goes out to a live player.
transmit-Progress :
    (now : ℕ) (start log taken : List Bytes) (p : Player) (b : Bytes)
    → p.catchup_cursor ≡ none
    → Progress start log p (taken ++ p.link.queue)
    → let p' = transmit now b p in Progress start (log ++ b ∷ []) p' (taken ++ p'.link.queue)
transmit-Progress now start log taken p b idle progress = elim (try_send_cases p.link b) [
  | inl went ↦ rw went (sent progress)
  | inr (inl full) ↦
      rw full
        (Progress-Likewise start (log ++ b ∷ []) taken p _ (settle_full-Likewise now p) unsent)
  | inr (inr hung) ↦
      rw hung
        (Progress-Likewise start (log ++ b ∷ []) taken p _ (settle_hung-Likewise now p) unsent)
]
  where
    unsent : Progress start (log ++ b ∷ []) p (taken ++ p.link.queue)
    unsent = Progress-longer start log (taken ++ p.link.queue) p b progress

    carried : Player
    carried = record p {
      link = record p.link { queue = p.link.queue ++ b ∷ [] };
      consecutive_send_failures = 0;
    }

    sent :
        Progress start log p (taken ++ p.link.queue)
        → Progress start (log ++ b ∷ []) carried (taken ++ (p.link.queue ++ b ∷ []))
    sent (gone g) = gone g
    sent (behind c e le s) = absurd (ground (arith, idle, e))
    sent (live m later e le s w) =
        live m (later ++ b ∷ []) e (omega (arith, length-append log (b ∷ [])))
          (sym (append_assoc taken p.link.queue (b ∷ []))
            ∙ ap (λ l. l ++ b ∷ []) s
            ∙ append_assoc (start ++ take m log) later (b ∷ [])
            ∙ ap (λ l. (start ++ l) ++ (later ++ b ∷ [])) (sym (take-append_le m log (b ∷ []) le)))
          (rw (drop-append_le m log (b ∷ []) le) (Within-append b w))

abbrev pub is_held : Player → Bool
is_held p = is_rejoining p.rejoin || is_some p.catchup_cursor || is_some p.disconnected_since

pub offer-Progress :
    (now : ℕ) (start log taken : List Bytes) (p : Player) (b : Bytes)
    → Progress start log p (taken ++ p.link.queue)
    → let p' = offer now b p in Progress start (log ++ b ∷ []) p' (taken ++ p'.link.queue)
unfolding offer
offer-Progress now start log taken p b progress =
    elim (Bool-cases (is_some p.left || p.virtual_host)) [
      | inl out ↦ rw out (Progress-longer start log (taken ++ p.link.queue) p b progress)
      | inr seated ↦ elim (Bool-cases (is_held p)) [
        | inl held ↦
            rw (seated, held)
              (Progress-longer start log (taken ++ p.link.queue) (record_packet b p) b recorded)
        | inr free ↦
            rw (seated, free)
              (transmit-Progress now start log taken (record_packet b p) b (ground arith) recorded)
      ]
    ]
  where
    recorded : Progress start log (record_packet b p) (taken ++ p.link.queue)
    recorded = Progress-Likewise start log taken p (record_packet b p) (refl, refl, λ g. g) progress
