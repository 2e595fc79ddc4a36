-- ===== src/Engine/History/Log.antt =====
-- The history against the log of all that was ever pushed.
use ghostrs.Base.{
  ℕ, ◌-◌, ◌<◌, ◌≡◌, refl, ap, ◌∙◌, inl, inr, List, [], ◌∷◌, ◌++◌, arith, leb, max, min, as_u32,
  length, drop, append_assoc, append-nil, length-append, Bool-cases,
}
use ghostrs.Base.Window.{window, drop-nil, length-window, window_slide, window_grow, drop-window}
use ghostrs.Protocol.Buffer.{Bytes}
use ghostrs.Engine.History.{
  FullHistory, new_with_cap, push, first_seq, next_seq, snapshot_from_seq, len, push_all,
}

-- The history that a log leaves.
abbrev pub holding : ℕ → List Bytes → FullHistory
holding cap log = record { inner = window cap log; cap = cap; evicted = length log - cap }

pub new-holding : (cap : ℕ) → new_with_cap cap ≡ holding cap []
unfolding new_with_cap
new-holding c = ground (arith, drop-nil {A = Bytes} (0 - c))

pub push-holding :
    (cap : ℕ) (log : List Bytes) (p : Bytes)
    → 0 < cap
    → push (holding cap log) p ≡ holding cap (log ++ p ∷ [])
unfolding push
push-holding cap log p h = elim (Bool-cases (leb cap (length log))) [
  | inl full ↦
      ground
        (arith, full, length-window cap log, window_slide cap log p h, length-append log (p ∷ []))
  | inr room ↦
      ground (arith, room, length-window cap log, window_grow cap log p, length-append log (p ∷ []))
]

pub push_all-holding :
    (cap : ℕ) (log ps : List Bytes)
    → 0 < cap
    → push_all (holding cap log) ps ≡ holding cap (log ++ ps)
unfolding push_all
push_all-holding cap log [] h = rw append-nil
push_all-holding cap log (p ∷ ps) h =
    rw (push-holding cap log p h)
      (push_all-holding cap (log ++ p ∷ []) ps h ∙ ap (holding cap) (append_assoc log (p ∷ []) ps))

-- After a game's packets a history with room for `cap` packets, at least one, holds the last `cap` of
-- them; the sequence numbers count all that were ever pushed; `len` is the number of packets held,
-- modulo 2 ^ 32; and a reader at `seq` gets every packet from there on, or from the oldest one kept.
pub history_of_log :
    (cap seq : ℕ) (log : List Bytes)
    → 0 < cap
    → let h = push_all (new_with_cap cap) log in
      (next_seq h ≡ length log)
      × (first_seq h ≡ length log - cap)
      × (len h ≡ as_u32 (min cap (length log)))
      × (snapshot_from_seq h seq ≡ drop (max seq (length log - cap)) log)
unfolding new_with_cap next_seq first_seq len snapshot_from_seq
history_of_log c seq log h =
    rw (new-holding c, push_all-holding c [] log h)
      (omega (arith, length-window c log), refl, ap as_u32 (length-window c log), kept)
  where
    kept : drop (seq - (length log - c)) (window c log) ≡ drop (max seq (length log - c)) log
    kept = elim (Bool-cases (leb seq (length log - c))) [
      | inl gone ↦
          let zeroed : seq - (length log - c) ≡ 0 = ground arith in
          let same : max seq (length log - c) ≡ length log - c = ground arith in rw (zeroed, same)
      | inr held ↦
          let same : max seq (length log - c) ≡ seq = ground arith in
          rw same (drop-window c seq log (ground arith))
    ]

-- A history with no room stays empty.
pub history_no_room : (log : List Bytes) → push_all (new_with_cap 0) log ≡ new_with_cap 0
unfolding push_all push new_with_cap
history_no_room [] = refl
history_no_room (p ∷ ps) = history_no_room ps
