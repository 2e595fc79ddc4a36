-- ===== src/Engine/History.antt =====
-- crates/spectre-engine/src/full_history.rs: the packets of a game, the oldest given up at the cap.
pub mod Log
use ghostrs.Base.{
  ℕ, suc, ◌+◌, ◌-◌, List, [], ◌∷◌, ◌++◌, leb, ltb, ◌==◌, if◌then◌else◌, length, drop, as_u32,
}
use ghostrs.Protocol.Buffer.{Bytes}

pub record FullHistory : Type 0 where
  pub inner : List Bytes
  pub cap : ℕ
  pub evicted : ℕ

pub new_with_cap : ℕ → FullHistory
new_with_cap cap = record { inner = []; cap = cap; evicted = 0 }

pub new : FullHistory
new = new_with_cap 216_000

-- `pop_front` is `drop 1`. The u64 count does not wrap: it grows by one with each packet.
pub push : FullHistory → Bytes → FullHistory
push h pkt =
    if h.cap == 0
    then h
    else if leb h.cap (length h.inner)
    then record h { inner = drop 1 h.inner ++ pkt ∷ []; evicted = h.evicted + 1 }
    else record h { inner = h.inner ++ pkt ∷ [] }

unfoldable pub first_seq : FullHistory → ℕ
first_seq h = h.evicted

unfoldable pub next_seq : FullHistory → ℕ
next_seq h = h.evicted + length h.inner

unfoldable pub snapshot_from_seq : FullHistory → ℕ → List Bytes
snapshot_from_seq h seq = drop (seq - h.evicted) h.inner

unfoldable pub len : FullHistory → ℕ
len h = as_u32 (length h.inner)

sum_len : List Bytes → ℕ
sum_len [] = 0
sum_len (b ∷ bs) = length b + sum_len bs

pub bytes_estimate : FullHistory → ℕ
unfolding sum_len
bytes_estimate h = sum_len h.inner

-- A game's pushes in order.
unfoldable pub push_all : FullHistory → List Bytes → FullHistory
push_all h [] = h
push_all h (p ∷ ps) = push_all (push h p) ps
