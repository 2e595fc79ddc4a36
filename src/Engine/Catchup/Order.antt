-- ===== src/Engine/Catchup/Order.antt =====
-- What a client that catches up receives, over the runs of a game.
use mathlib.Core.Option
use ghostrs.Base.{
  ℕ, ◌<◌, ◌≡◌, refl, sym, ap, subst, ◌∙◌, inl, inr, true, List, [], ◌∷◌, ◌++◌, Option, none, some,
  arith, take, drop, take-append-drop, append_assoc, append-nil,
}
use ghostrs.Protocol.Buffer.{Bytes}
use ghostrs.Engine.Link.{PlayerLink}
use ghostrs.Engine.History.{new_with_cap, push, push_all}
use ghostrs.Engine.History.Log.{holding, new-holding, push_all-holding, push-holding}
use ghostrs.Engine.Players.{Player, by_pid, with_pid}
use ghostrs.Engine.Players.Table.{by_pid-with_pid, by_pid-map}
use ghostrs.Engine.State.{GameState, is_playing, is_some}
use ghostrs.Engine.Broadcast.{broadcast, offer}
use ghostrs.Engine.Broadcast.Lost.{offer-pid}
use ghostrs.Engine.Catchup.{pump_player, pump_rejoin_catchup}
use ghostrs.Engine.Catchup.Drops.{DropsFor, pump_player-drops, offer-drops}
use ghostrs.Engine.Catchup.Ends.{Ends, pump_player-Ends, offer-keeps_cursor}
use ghostrs.Engine.Catchup.Loop.{pump_player-pid}
use ghostrs.Engine.Catchup.Progress.{
  Progress, behind, Progress-same, offer-Progress, pump_player-Progress,
}

-- A game, with what the client of one player has read from its link, and all that a running game
-- has broadcast.
pub record Run : Type 0 where
  pub game : GameState
  pub taken : List Bytes
  pub log : List Bytes

abbrev queue_of : Option Player → List Bytes
queue_of none = []
queue_of (some p) = p.link.queue

abbrev with_queue : (PlayerLink → PlayerLink) → Player → Player
with_queue f p = record p { link = f p.link }

-- A broadcast; a pump; the client reads `k` packets; the client's end is closed.
pub data Step (pid : ℕ) : Run → Run → Type 0 where
  sends :
      (r : Run) (now : ℕ) (b : Bytes)
      → Step pid r (record r { game = broadcast now b r.game; log = r.log ++ b ∷ [] })
  pumps : (r : Run) (now : ℕ) → Step pid r (record r { game = pump_rejoin_catchup now r.game })
  reads :
      (r : Run) (k : ℕ)
      → Step pid r (record r {
        game = record r.game {
          players =
              with_pid r.game.players pid (with_queue λ l. record l { queue = drop k l.queue });
        };
        taken = r.taken ++ take k (queue_of (by_pid r.game.players pid));
      })
  closes :
      (r : Run)
      → Step pid r (record r {
        game = record r.game {
          players = with_pid r.game.players pid (with_queue λ l. record l { is_closed = true });
        };
      })

pub data Reach (pid : ℕ) (r : Run) : Run → Type 0 where
  here : Reach pid r r
  next : {s t : Run} → Reach pid r s → Step pid s t → Reach pid r t

-- The player of `pid` is in the table, as far as `Progress` says, and the game is running with the
-- history of what it broadcast.
record Tracked (cap pid : ℕ) (start : List Bytes) (r : Run) : Type 0 where
  runs : is_playing r.game.phase ≡ true
  keeps : r.game.full_history ≡ holding cap r.log
  player : Player
  seated : by_pid r.game.players pid ≡ some player
  progress : Progress start r.log player (r.taken ++ player.link.queue)

rewritten :
    (pid : ℕ) (r : Run) (f : PlayerLink → PlayerLink) (p : Player)
    → by_pid r.game.players pid ≡ some p
    → by_pid (with_pid r.game.players pid (with_queue f)) pid ≡ some (with_queue f p)
rewritten pid r f p seated =
    by_pid-with_pid r.game.players pid pid (with_queue f) (λ q. refl) ∙ ground (arith, seated)

Step-Tracked :
    {cap pid : ℕ} {start : List Bytes} {r s : Run}
    → 0 < cap
    → Step pid r s
    → (t : Tracked cap pid start r)
    → (t' : Tracked cap pid start s) × Ends start s.log t.player t'.player
        (s.taken ++ t'.player.link.queue)
      × DropsFor cap r.log t.player t'.player
Step-Tracked {cap} {pid} {start} h (sends r now b) t = (
  record {
    runs = unfold broadcast in t.runs;
    keeps = unfold broadcast in rw t.runs (ap (λ g. push g b) t.keeps ∙ push-holding cap r.log b h);
    player = offer now b t.player;
    seated =
        unfold broadcast in
        by_pid-map r.game.players pid (offer now b) (offer-pid now b)
        ∙ ap (Option.map (offer now b)) t.seated;
    progress = offer-Progress now start r.log r.taken t.player b t.progress;
  },
  inr (inl (ap is_some (offer-keeps_cursor now b t.player))),
  offer-drops now cap r.log b t.player,
)
Step-Tracked {cap} {pid} {start} h (pumps r now) t = (
  record {
    runs = unfold pump_rejoin_catchup in t.runs;
    keeps = unfold pump_rejoin_catchup in t.keeps;
    player = pump_player now (holding cap r.log) t.player;
    seated =
        unfold pump_rejoin_catchup in
        by_pid-map r.game.players pid (pump_player now r.game.full_history)
          (pump_player-pid now r.game.full_history)
        ∙ ap (Option.map (pump_player now r.game.full_history)) t.seated
        ∙ ap (λ g. some (pump_player now g t.player)) t.keeps;
    progress = pump_player-Progress now cap start r.log r.taken t.player t.progress;
  },
  pump_player-Ends now cap start r.log r.taken t.player t.progress,
  pump_player-drops now cap r.log t.player,
)
Step-Tracked {cap} {pid} {start} h (reads r k) t = (
  record {
    runs = t.runs;
    keeps = t.keeps;
    player = with_queue (λ l. record l { queue = drop k l.queue }) t.player;
    seated = rewritten pid r _ t.player t.seated;
    progress =
        subst
          (Progress start r.log (with_queue (λ l. record l { queue = drop k l.queue }) t.player))
          (sym (
            ap (λ o. (r.taken ++ take k (queue_of o)) ++ drop k t.player.link.queue) t.seated
            ∙ append_assoc r.taken (take k t.player.link.queue) (drop k t.player.link.queue)
            ∙ ap (λ l. r.taken ++ l) (take-append-drop k t.player.link.queue)))
          (Progress-same start r.log (r.taken ++ t.player.link.queue) t.player _ refl (λ g. g)
            t.progress);
  },
  inr (inl refl),
  inl refl,
)
Step-Tracked {cap} {pid} {start} h (closes r) t = (
  record {
    runs = t.runs;
    keeps = t.keeps;
    player = with_queue (λ l. record l { is_closed = true }) t.player;
    seated = rewritten pid r _ t.player t.seated;
    progress =
        Progress-same start r.log (r.taken ++ t.player.link.queue) t.player _ refl (λ g. g)
          t.progress;
  },
  inr (inl refl),
  inl refl,
)

Reach-Tracked :
    {cap pid : ℕ} {start : List Bytes} {r s : Run}
    → 0 < cap
    → Tracked cap pid start r
    → Reach pid r s
    → Tracked cap pid start s
Reach-Tracked h t here = t
Reach-Tracked h t (next before step) = (Step-Tracked h step (Reach-Tracked h t before)).0

-- A player who begins to catch up.
began-Tracked :
    (cap pid : ℕ) (r : Run) (p : Player)
    → 0 < cap
    → is_playing r.game.phase ≡ true
    → r.game.full_history ≡ push_all (new_with_cap cap) r.log
    → by_pid r.game.players pid ≡ some p
    → p.catchup_cursor ≡ some 0
    → Tracked cap pid (r.taken ++ p.link.queue) r
began-Tracked cap pid r p h running history seated cursor = record {
  runs = running;
  keeps = history ∙ ap (λ g. push_all g r.log) (new-holding cap) ∙ push_all-holding cap [] r.log h;
  player = p;
  seated = seated;
  progress = behind 0 cursor (omega arith) (sym (append-nil (r.taken ++ p.link.queue)));
}

-- A player begins to catch up in a running game, at packet 0 of a history with room for `cap` packets
-- at least one, that was filled by the log. Whatever the game then broadcasts, pumps and reads off the
-- link, and wherever the link is closed: the player is in the table, and is gone, or has been sent
-- the first packets of the log, each of them once and in order, up to its cursor; or has no cursor any
-- more, and was sent a first part of the log whole and after it nothing but later packets of the
-- log, none twice, in order.
pub catch_up_in_order :
    (cap pid : ℕ) (r s : Run) (p : Player)
    → 0 < cap
    → is_playing r.game.phase ≡ true
    → r.game.full_history ≡ push_all (new_with_cap cap) r.log
    → by_pid r.game.players pid ≡ some p
    → p.catchup_cursor ≡ some 0
    → Reach pid r s
    → (p' : Player) × (by_pid s.game.players pid ≡ some p')
      × Progress (r.taken ++ p.link.queue) s.log p' (s.taken ++ p'.link.queue)
catch_up_in_order cap pid r s p h running history seated cursor run =
    let t = Reach-Tracked h (began-Tracked cap pid r p h running history seated cursor) run in
    (t.player, t.seated, t.progress)

-- One more step behind such a run: how far the player is then, whether its catch-up ended there, and why it was dropped.
pub catch_up_onward :
    (cap pid : ℕ) (r s t : Run) (p : Player)
    → 0 < cap
    → is_playing r.game.phase ≡ true
    → r.game.full_history ≡ push_all (new_with_cap cap) r.log
    → by_pid r.game.players pid ≡ some p
    → p.catchup_cursor ≡ some 0
    → Reach pid r s
    → Step pid s t
    → let start = r.taken ++ p.link.queue in
      (q : Player) × (q' : Player) × (by_pid s.game.players pid ≡ some q)
      × (by_pid t.game.players pid ≡ some q')
      × Progress start s.log q (s.taken ++ q.link.queue)
      × Progress start t.log q' (t.taken ++ q'.link.queue)
      × Ends start t.log q q' (t.taken ++ q'.link.queue)
      × DropsFor cap s.log q q'
catch_up_onward cap pid r s t p h running history seated cursor run step =
    let a = Reach-Tracked h (began-Tracked cap pid r p h running history seated cursor) run in
    let (b, ends, drops) = Step-Tracked h step a in
    (a.player, b.player, a.seated, b.seated, a.progress, b.progress, ends, drops)
