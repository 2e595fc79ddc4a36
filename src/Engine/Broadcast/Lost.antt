-- ===== src/Engine/Broadcast/Lost.antt =====
-- What the broadcasts of a running game leave for a player who has lost the link.
use mathlib.Core.Option
use ghostrs.Base.{
  ℕ, ◌+◌, ◌^◌, ◌≤◌, ◌<◌, ◌≡◌, refl, ap, ◌∙◌, true, false, ◌||◌, List, [], ◌∷◌, ◌++◌, none, some,
  arith, length, drop,
}
use ghostrs.Protocol.Buffer.{Bytes}
use ghostrs.Engine.History
use ghostrs.Engine.Link.{Sent, delivered, failed, backpressure, closed, try_send}
use ghostrs.Engine.Players.{Player, GProxyBuffer, by_pid}
use ghostrs.Engine.Players.Table.{by_pid-map}
use ghostrs.Engine.Gproxy.{new, push, push_all, replay_from}
use ghostrs.Engine.Gproxy.Replay.{replay_of_log}
use ghostrs.Engine.Gproxy.Reconnect.{replay_of}
use ghostrs.Engine.Broadcast.{deliver, offer, broadcast, settle, record_packet}
use ghostrs.Engine.State.{GameState, is_playing, is_some, is_rejoining}

-- Broadcasts in order, all at the time `now`.
unfoldable pub broadcast_all : ℕ → List Bytes → GameState → GameState
broadcast_all now [] st = st
broadcast_all now (b ∷ bs) st = broadcast_all now bs (broadcast now b st)

-- A seated player whose link is lost, with a buffer.
abbrev pub IsLost : Player → GProxyBuffer → Type 0
IsLost p b =
    (p.left ≡ none)
    × (p.virtual_host ≡ false)
    × (is_some p.disconnected_since ≡ true)
    × (p.gproxy_buffer ≡ some b)

abbrev pub with_buffer : GProxyBuffer → Player → Player
with_buffer b p = record p { gproxy_buffer = some b }

offer-IsLost :
    (now : ℕ) (bytes : Bytes) (p : Player) (b : GProxyBuffer)
    → IsLost p b
    → offer now bytes p ≡ with_buffer (push b bytes) p
unfolding offer
offer-IsLost now bytes p b (seated, real, gone, buffer) =
    rw (stays, held)
      (ap (λ o. record p { gproxy_buffer = Option.map (λ b. push b bytes) o }) buffer)
  where
    stays : (is_some p.left || p.virtual_host) ≡ false
    stays = rw (seated, real) refl

    held :
        (is_rejoining p.rejoin || is_some p.catchup_cursor || is_some p.disconnected_since) ≡ true
    held = ground (arith, gone)

pub settle-pid : (now : ℕ) (r : Sent) (p : Player) → (settle now r p).pid ≡ p.pid
settle-pid now delivered p = refl
settle-pid now (failed backpressure) p = ground arith
settle-pid now (failed closed) p = ground arith

pub offer-pid : (now : ℕ) (bytes : Bytes) (p : Player) → (offer now bytes p).pid ≡ p.pid
unfolding offer
offer-pid now bytes p = ground (
  arith,
  settle-pid now (try_send p.link bytes).0
      (record (record_packet bytes p) { link = (try_send p.link bytes).1 }),
)

pub deliver-pid : (now : ℕ) (b : Bytes) (p : Player) → (deliver now b p).pid ≡ p.pid
unfolding deliver
deliver-pid now b p = ground (
  arith,
  settle-pid now (try_send p.link b).0
      (record (record_packet b p) { link = (try_send p.link b).1 }),
)

push_all-append :
    (b : GProxyBuffer) (xs ys : List Bytes) → push_all (push_all b xs) ys ≡ push_all b (xs ++ ys)
unfolding push_all
push_all-append b [] ys = refl
push_all-append b (x ∷ xs) ys = push_all-append (push b x) xs ys

broadcast_all-IsLost :
    (now pid : ℕ) (bs : List Bytes) (st : GameState) (p : Player) (b : GProxyBuffer)
    → by_pid st.players pid ≡ some p
    → IsLost p b
    → by_pid (broadcast_all now bs st).players pid ≡ some (with_buffer (push_all b bs) p)
unfolding broadcast_all push_all
broadcast_all-IsLost now pid [] st p b here lost =
    here ∙ ap (λ o. some (record p { gproxy_buffer = o })) lost.3
broadcast_all-IsLost now pid (x ∷ bs) st p b here lost =
    broadcast_all-IsLost now pid bs (broadcast now x st) (with_buffer (push b x) p) (push b x)
      (unfold broadcast in
        by_pid-map st.players pid (offer now x) (offer-pid now x)
        ∙ ap (Option.map (offer now x)) here
        ∙ ap some (offer-IsLost now x p b lost))
      (lost.0, lost.1, lost.2, refl)

broadcast_all-history :
    (now : ℕ) (bs : List Bytes) (st : GameState)
    → is_playing st.phase ≡ true
    → (broadcast_all now bs st).full_history ≡ History.push_all st.full_history bs
unfolding broadcast_all History.push_all
broadcast_all-history now [] st playing = refl
broadcast_all-history now (x ∷ bs) st playing =
    broadcast_all-history now bs (broadcast now x st) (unfold broadcast in playing)
    ∙ ap (λ h. History.push_all h bs) (unfold broadcast in rw playing refl)

-- A seated player who has lost the link, with a GProxy buffer for at least one packet that was filled
-- by `log`, misses nothing: whatever a running game broadcasts meanwhile, the player keeps its seat,
-- and a client that has the first `last` packets is replayed all that follow, in order, if they fit
-- the buffer and fewer than 2 ^ 32 were sent; and the full history takes each broadcast.
pub lost_misses_nothing :
    (now pid c last : ℕ) (log bs : List Bytes) (st : GameState) (p : Player)
    → by_pid st.players pid ≡ some p
    → IsLost p (push_all (new c) log)
    → is_playing st.phase ≡ true
    → 0 < c
    → length (log ++ bs) < 2 ^ 32
    → length (log ++ bs) ≤ last + c
    → last ≤ length (log ++ bs)
    → let st' = broadcast_all now bs st in
      ((p' : Player) × (by_pid st'.players pid ≡ some p')
        × (p'.left ≡ none)
        × (replay_of p'.gproxy_buffer last ≡ some (drop last (log ++ bs))))
      × (st'.full_history ≡ History.push_all st.full_history bs)
lost_misses_nothing now pid c last log bs st p here lost playing room small held sent = (
  (
    with_buffer (push_all (push_all (new c) log) bs) p,
    broadcast_all-IsLost now pid bs st p (push_all (new c) log) here lost,
    lost.0,
    replayed,
  ),
  broadcast_all-history now bs st playing,
)
  where
    replayed : replay_from (push_all (push_all (new c) log) bs) last ≡ some (drop last (log ++ bs))
    replayed =
        rw (push_all-append (new c) log bs)
          (ground (arith, (replay_of_log c last (log ++ bs) room small).1, held, sent))
