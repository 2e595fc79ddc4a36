-- ===== src/Engine/Keeps/Votes.antt =====
-- The vote of a desync and the lag screen neither seat nor unseat anybody.
use ghostrs.Protocol.W3gs.Outgoing.{incoming_action, start_lag, stop_lag}
use ghostrs.Engine.Lag.{
  set_lagging, check_lag, refresh_screen, refresh_with, note_lag, raise_screen, tell_stopped,
  lag_player,
}
use ghostrs.Base.{
  if◌then◌else◌, text, not, ◌||◌, ◌-◌, length, leb, ltb, ◌&&◌, ◌==◌, Option, ℕ, zero, suc, ◌≡◌,
  refl, ◌∙◌, Bool, true, false, List, [], ◌∷◌, none, some, map, arith,
}
use ghostrs.Protocol.Error.{Result, ok, err}
use ghostrs.Protocol.Buffer.{Bytes}
use ghostrs.Protocol.W3gs.Incoming.{keepalive, run}
use ghostrs.Engine.Players.{Player, PlayerTable, with_pid}
use ghostrs.Engine.State.{is_playing, GameState}
use ghostrs.Engine.Keeps.{
  Keeps, Still, panics, goes, kept, same, and_then, behind, if_kept, if_Still, pids, pids-with_pid,
  pids-map, kick_player-Keeps, broadcast_ok-Keeps, broadcast_some-Keeps, send_chat_all-Still,
}
use ghostrs.Engine.Keeps.Handlers.{at_conn}
use ghostrs.Engine.Desync.{
  has_desync, participants, voters, in_flight, no_tally, min_turn, fill_bins, active_pids, tally,
  handle_keepalive, keep_alive, count_turn, check_desync, round, round_at, round_with, judge,
  on_said, popped, pop_front, Bin, clear_checksums, drop_minority, drop_pids, Vote, pop_all, Round,
  ended, again,
}

-- A round of the vote, with how it ends.
data Goes (st : GameState) : Round → Type 0 where
  ends : {o : Option GameState} → Still st o → Goes st (ended o)
  on : {st' : GameState} → Keeps st st' → Goes st (again st')

pop_all-pids :
    (votes : List Vote) (players : PlayerTable) → pids (pop_all votes players) ≡ pids players
unfolding pop_all
pop_all-pids [] players = refl
pop_all-pids (v ∷ votes) players =
    pop_all-pids votes (with_pid players v.pid pop_front)
    ∙ pids-with_pid v.pid pop_front players (λ p. refl)

popped-Keeps : (votes : List Vote) (st : GameState) → Keeps st (popped votes st)
popped-Keeps votes st = kept (pop_all-pids votes st.players) refl refl

drop_pids-Keeps : (dropped : List ℕ) (st : GameState) → Keeps st (drop_pids dropped st)
unfolding drop_pids
drop_pids-Keeps [] st = same
drop_pids-Keeps (pid ∷ dropped) st =
    and_then (kick_player-Keeps pid _ _ st) (drop_pids-Keeps dropped _)

drop_minority-Keeps :
    (largest_cs : ℕ) (bins : List Bin) (st : GameState)
    → Keeps st (drop_minority largest_cs bins st)
unfolding drop_minority
drop_minority-Keeps largest_cs [] st = same
drop_minority-Keeps largest_cs (b ∷ bins) st =
    and_then (if_kept (b.checksum == largest_cs) same (drop_pids-Keeps b.pids st))
      (drop_minority-Keeps largest_cs bins _)

clear_checksums-pid : (p : Player) → (clear_checksums p).pid ≡ p.pid
clear_checksums-pid p = ground arith

if_Goes :
    {st : GameState} {a b : Round} (test : Bool)
    → Goes st a
    → Goes st b
    → Goes st (if test then a else b)
if_Goes true h k = h
if_Goes false h k = k

on_said-Still :
    {st : GameState} {o : Option GameState} (f : GameState → GameState)
    → Still st o
    → ((st' : GameState) → Keeps st' (f st'))
    → Still st (on_said f o)
on_said-Still f panics k = panics
on_said-Still f (goes {st'} h) k = goes (and_then h (k st'))

module _ (order : List Bin → List Bin) (now : ℕ) where
  judge-Keeps : (votes : List Vote) (st : GameState) → Keeps st (judge order votes st)
  judge-Keeps votes st =
      let t = tally (order (fill_bins votes [])) no_tally in
      and_then
        (if_kept t.tied (drop_pids-Keeps (voters votes) st)
          (drop_minority-Keeps t.largest_cs (order (fill_bins votes [])) st))
        (popped-Keeps votes _)

  round_with-Goes : (votes : List Vote) (st : GameState) → Goes st (round_with order now votes st)
  round_with-Goes votes st =
      if_Goes (ltb (length votes) 2 || not (has_desync votes)) (on (popped-Keeps votes st)) (
        ends (
          on_said-Still (judge order votes) (send_chat_all-Still now (text "Desync detected!") st)
            (judge-Keeps votes)))

  cleared : (st : GameState) → Keeps st (record st { players = map clear_checksums st.players })
  cleared st = kept (pids-map clear_checksums st.players clear_checksums-pid) refl refl

  round_at-Goes :
      (ps : List ℕ) (o : Option ℕ) (st : GameState) → Goes st (round_at order now ps o st)
  round_at-Goes ps none st = ends (goes (if_kept (leb (length ps) 1) (cleared st) same))
  round_at-Goes ps (some target) st = if_Goes (leb (length ps) 1) (ends (goes (cleared st))) (
      if_Goes (in_flight target st.players ps) (ends (goes same))
        (round_with-Goes (participants target st.players ps) st))

  round-Goes : (st : GameState) → Goes st (round order now st)
  unfolding round
  round-Goes st = round_at-Goes (active_pids st.players) (min_turn none st.players) st

  pub check_desync-Still : (fuel : ℕ) (st : GameState) → Still st (check_desync order fuel now st)
  unfolding check_desync
  check_desync-Still zero st = panics
  check_desync-Still (suc fuel) st =
      after (round order now st) (round-Goes st) (λ st'. check_desync-Still fuel st')
    where
      after :
          (r : Round)
          → Goes st r
          → ((st' : GameState) → Still st' (check_desync order fuel now st'))
          → Still st (elim r [ ended o ↦ o | again st' ↦ check_desync order fuel now st' ])
      after r (ends h) k = h
      after r (on {st'} h) k = behind h (k st')

  count_turn-pid : (sc checksum : ℕ) (p : Player) → (count_turn order sc checksum p).pid ≡ p.pid
  count_turn-pid sc checksum p = ground arith

  keep_alive-Still :
      (fuel conn_id : ℕ) (r : Result ℕ) (st : GameState)
      → Still st (keep_alive order fuel now conn_id r st)
  keep_alive-Still fuel conn_id (err e) st = goes same
  keep_alive-Still fuel conn_id (ok checksum) st =
      behind (at_conn conn_id _ st (λ p. count_turn-pid st.sync_counter checksum p))
        (check_desync-Still fuel _)

  pub handle_keepalive-Still :
      (fuel conn_id : ℕ) (payload : Bytes) (st : GameState)
      → Still st (handle_keepalive order fuel now conn_id payload st)
  unfolding handle_keepalive
  handle_keepalive-Still fuel conn_id payload st =
      if_Still (is_playing st.phase) (keep_alive-Still fuel conn_id (run keepalive payload) st)
        (goes same)

lag_player-pid : (now limit sc : ℕ) (p : Player) → (lag_player now limit sc p).pid ≡ p.pid
unfolding lag_player
lag_player-pid now limit sc p = ground arith

tell_stopped-Keeps :
    (now : ℕ) (laggers : List (ℕ × ℕ)) (st : GameState) → Keeps st (tell_stopped now laggers st)
unfolding tell_stopped
tell_stopped-Keeps now [] st = same
tell_stopped-Keeps now ((pid, lag_ms) ∷ laggers) st =
    and_then (broadcast_some-Keeps now (stop_lag pid lag_ms) st) (tell_stopped-Keeps now laggers _)

raise_screen-Keeps :
    (now : ℕ) (was_lagging : Bool) (laggers : List (ℕ × ℕ)) (st : GameState)
    → Keeps st (raise_screen now was_lagging laggers st)
raise_screen-Keeps now was_lagging [] st = same
raise_screen-Keeps now was_lagging (l ∷ laggers) st =
    let k = broadcast_ok-Keeps now (start_lag (l ∷ laggers)) st in
    if_kept was_lagging k (kept k.seats k.slots k.queued)

note_lag-Keeps : (now : ℕ) (st : GameState) → Keeps st (note_lag now st)
note_lag-Keeps now st =
    let limit = st.cfg.sync_limit in
    and_then (kept (pids-map _ st.players (lag_player-pid now limit st.sync_counter)) refl refl)
      (and_then (tell_stopped-Keeps now _ _) (raise_screen-Keeps now st.lagging _ _))

refresh_with-Keeps :
    (crc32 : Bytes → ℕ) (now : ℕ) (laggers : List (ℕ × ℕ)) (st : GameState)
    → Keeps st (refresh_with crc32 now laggers st)
refresh_with-Keeps crc32 now [] st = same
refresh_with-Keeps crc32 now (l ∷ laggers) st =
    let k = and_then (tell_stopped-Keeps now (l ∷ laggers) st) (
      and_then (broadcast_ok-Keeps now (incoming_action crc32 [] 0) _)
        (broadcast_ok-Keeps now (start_lag (l ∷ laggers)) _)) in
    kept k.seats k.slots k.queued

refresh_screen-Keeps :
    (crc32 : Bytes → ℕ) (now : ℕ) (st : GameState) → Keeps st (refresh_screen crc32 now st)
refresh_screen-Keeps crc32 now st =
    if_kept (st.lagging && leb 60000 (now - st.last_lag_screen_reset))
      (refresh_with-Keeps crc32 now _ st) same

pub check_lag-Keeps :
    (crc32 : Bytes → ℕ) (now : ℕ) (st : GameState) → Keeps st (check_lag crc32 now st).1
unfolding check_lag
check_lag-Keeps crc32 now st =
    let k = note_lag-Keeps now st in
    and_then {b = set_lagging (note_lag now st)} (kept k.seats k.slots k.queued)
      (refresh_screen-Keeps crc32 now _)
