-- ===== src/Engine/Gproxy/Replay.antt =====
-- What a client that comes back is sent.
use ghostrs.Base.{
  ℕ, ◌+◌, ◌-◌, ◌/◌, ◌^◌, ◌≤◌, ◌<◌, ◌≡◌, ap, ◌∙◌, inl, inr, List, [], ◌∷◌, ◌++◌, none, some, arith,
  leb, ◌&&◌, if◌then◌else◌, length, drop, append_assoc, append-nil, length-append, Bool-cases, min,
}
use ghostrs.Base.Window.{window, drop-nil, length-window, window_slide, window_grow, drop-window}
use ghostrs.Protocol.Buffer.{Bytes}
use ghostrs.Engine.Players.{GProxyBuffer}
use ghostrs.Engine.Gproxy.{new, push, total_sent, replay_from, push_all, gproxy_empty_actions}

-- The buffer that a log leaves.
abbrev pub holding : ℕ → List Bytes → GProxyBuffer
holding cap log = record {
  capacity = cap;
  first_packet_id = length log - cap;
  packets = window cap log;
}

push-holding :
    (cap : ℕ) (log : List Bytes) (p : Bytes)
    → 0 < cap
    → length log < 2 ^ 32
    → push (holding cap log) p ≡ holding cap (log ++ p ∷ [])
unfolding push
push-holding cap log p h small = elim (Bool-cases (leb cap (length log))) [
  | inl full ↦
      ground
        (arith, full, length-window cap log, window_slide cap log p h, length-append log (p ∷ []))
  | inr room ↦
      ground (arith, room, length-window cap log, window_grow cap log p, length-append log (p ∷ []))
]

push_all-holding :
    (cap : ℕ) (log ps : List Bytes)
    → 0 < cap
    → length log + length ps < 2 ^ 32
    → push_all (holding cap log) ps ≡ holding cap (log ++ ps)
unfolding push_all
push_all-holding cap log [] h small = rw append-nil
push_all-holding cap log (p ∷ ps) h small = rw (push-holding cap log p h (omega arith)) (
    push_all-holding cap (log ++ p ∷ []) ps h (omega (arith, length-append log (p ∷ [])))
    ∙ ap (holding cap) (append_assoc log (p ∷ []) ps))

new-holding : (cap : ℕ) → new cap ≡ holding cap []
unfolding new
new-holding c = ground (arith, drop-nil {A = Bytes} (0 - c))

-- From a buffer with room for a packet at least, filled by a log of fewer than 2 ^ 32, a client that
-- has `last` packets gets the packets behind them, all and in order, as long as the buffer still
-- holds the next one; a client that lacks an evicted packet, or claims more than were sent, gets
-- none. The total is the length of the log.
pub replay_of_log :
    (capacity last : ℕ) (log : List Bytes)
    → 0 < capacity
    → length log < 2 ^ 32
    → let b = push_all (new capacity) log in
      (total_sent b ≡ length log)
      × (replay_from b last ≡ (
          if leb (length log - capacity) last && leb last (length log)
          then some (drop last log)
          else none))
unfolding replay_from
replay_of_log c last log h small =
    rw (new-holding c, push_all-holding c [] log h (omega arith))
      (total, ground (arith, total, drop-window c last log))
  where
    total : total_sent (holding c log) ≡ length log
    total = unfold total_sent in omega (arith, length-window c log)

-- The empty actions are those of GHost++: one less than the minutes of the wait, nine at most, and a
-- wait of less than a minute counts its seconds.
pub gproxy_empty_actions_lem :
    (secs : ℕ)
    → (gproxy_empty_actions secs ≤ 9)
      × (gproxy_empty_actions secs ≡ min ((if leb 60 secs then secs / 60 else secs) - 1) 9)
unfolding gproxy_empty_actions
gproxy_empty_actions_lem secs = (ground arith, ground arith)
