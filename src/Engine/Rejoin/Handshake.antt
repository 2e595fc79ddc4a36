-- ===== src/Engine/Rejoin/Handshake.antt =====
-- From the handshake of a rejoin into the catch-up.
use mathlib.Core.Option
use ghostrs.Base.{
  ℕ, ◌≤◌, ◌<◌, ◌≡◌, refl, sym, ap, ◌∙◌, true, false, List, [], ◌∷◌, ◌++◌, Option, none, some, arith,
  ltb, length,
}
use ghostrs.Protocol.Buffer.{Bytes}
use ghostrs.Protocol.W3gs.Outgoing.{game_loaded_others}
use ghostrs.Engine.History.{new_with_cap, push_all, push, first_seq}
use ghostrs.Engine.History.Log.{holding, new-holding, push_all-holding, push-holding}
use ghostrs.Engine.Players.{Player, PlayerTable, by_pid, with_pid, filter}
use ghostrs.Engine.Players.Table.{by_pid-with_pid, by_pid-map}
use ghostrs.Engine.State.{GameState, is_playing, is_rejoining}
use ghostrs.Engine.Broadcast.{broadcast, offer, deliver, send_to}
use ghostrs.Engine.Broadcast.Lost.{broadcast_all, offer-pid, deliver-pid}
use ghostrs.Engine.Announce.{broadcast_some}
use ghostrs.Engine.Catchup.Order.{Run, Step, Reach, catch_up_onward}
use ghostrs.Engine.Catchup.Drops.{DropsFor}
use ghostrs.Engine.Catchup.Ends.{Ends, offer-keeps_cursor}
use ghostrs.Engine.Catchup.Progress.{Progress}
use ghostrs.Engine.Announce.{send_some}
use ghostrs.Engine.Rejoin.{is_other, tell_loaded, start_catch_up, loaded_rejoin}

-- What a player in the handshake keeps while the game goes on.
abbrev Waits : Player → Player → Type 0
Waits p q = (q.link ≡ p.link) × (q.rejoin ≡ p.rejoin) × (q.left ≡ p.left)

offer-Waits :
    (now : ℕ) (b : Bytes) (p : Player) → is_rejoining p.rejoin ≡ true → Waits p (offer now b p)
unfolding offer
offer-Waits now b p stage = (ground (arith, stage), ground (arith, stage), ground (arith, stage))

-- A player who is in the handshake of a rejoin is sent none of what the game broadcasts meanwhile, and
-- keeps its stage; a running game records each of these packets in its history.
pub handshake_is_quiet :
    (now pid : ℕ) (bs : List Bytes) (st : GameState) (p : Player)
    → by_pid st.players pid ≡ some p
    → is_rejoining p.rejoin ≡ true
    → is_playing st.phase ≡ true
    → let st' = broadcast_all now bs st in
      ((q : Player) × (by_pid st'.players pid ≡ some q)
        × (q.link ≡ p.link)
        × (q.rejoin ≡ p.rejoin)
        × (q.left ≡ p.left))
      × (st'.full_history ≡ push_all st.full_history bs)
unfolding broadcast_all push_all
handshake_is_quiet now pid [] st p here stage playing = ((p, here, refl, refl, refl), refl)
handshake_is_quiet now pid (b ∷ bs) st p here stage playing =
    let (link, rejoin, left) = offer-Waits now b p stage in
    let ((q, found, link', rejoin', left'), recorded) =
      handshake_is_quiet now pid bs (broadcast now b st) (offer now b p)
        (unfold broadcast in
          (by_pid-map st.players pid (offer now b) (offer-pid now b)
            ∙ ap (Option.map (offer now b)) here))
        (ap is_rejoining rejoin ∙ stage) (unfold broadcast in playing) in
    (
      (q, found, link' ∙ link, rejoin' ∙ rejoin, left' ∙ left),
      recorded ∙ ap (λ h. push_all h bs) (unfold broadcast in rw playing refl),
    )

-- What the packets to one player leave of the game.
abbrev Hosts : ℕ → GameState → GameState → Type 0
Hosts pid st st' =
    ((q : Player) × (by_pid st'.players pid ≡ some q))
    × (st'.full_history ≡ st.full_history)
    × (st'.phase ≡ st.phase)

send_to-Hosts :
    (now pid : ℕ) (b : Bytes) (st : GameState) (p : Player)
    → by_pid st.players pid ≡ some p
    → Hosts pid st (send_to now pid b st)
unfolding send_to
send_to-Hosts now pid b st p here = (
  (
    deliver now b p,
    by_pid-with_pid st.players pid pid (deliver now b) (deliver-pid now b) ∙ ground (arith, here),
  ),
  refl,
  refl,
)

send_some-Hosts :
    (now pid : ℕ) (o : Option Bytes) (st : GameState) (p : Player)
    → by_pid st.players pid ≡ some p
    → Hosts pid st (send_some now pid o st)
send_some-Hosts now pid none st p here = ((p, here), refl, refl)
send_some-Hosts now pid (some b) st p here = send_to-Hosts now pid b st p here

tell_loaded-Hosts :
    (now pid : ℕ) (others : PlayerTable) (st : GameState) (p : Player)
    → by_pid st.players pid ≡ some p
    → Hosts pid st (tell_loaded now pid others st)
unfolding tell_loaded
tell_loaded-Hosts now pid [] st p here = ((p, here), refl, refl)
tell_loaded-Hosts now pid (o ∷ others) st p here =
    let ((q, found), history, phase) =
      send_some-Hosts now pid (game_loaded_others o.pid) st p here in
    let (found', history', phase') =
      tell_loaded-Hosts now pid others (send_some now pid (game_loaded_others o.pid) st) q found in
    (found', history' ∙ history, phase' ∙ phase)

filled : (cap : ℕ) (log : List Bytes) → 0 < cap → push_all (new_with_cap cap) log ≡ holding cap log
filled cap log room = ap (λ h. push_all h log) (new-holding cap) ∙ push_all-holding cap [] log room

-- The player who has loaded stands at packet 0, in a history that goes on.
loaded_rejoin_lem :
    (now cap pid : ℕ) (log : List Bytes) (st : GameState) (p : Player) (b : Bytes)
    → 0 < cap
    → by_pid st.players pid ≡ some p
    → is_playing st.phase ≡ true
    → st.full_history ≡ push_all (new_with_cap cap) log
    → length log ≤ cap
    → game_loaded_others pid ≡ some b
    → let st' = loaded_rejoin now pid st in
      ((q : Player) × (by_pid st'.players pid ≡ some q) × (q.catchup_cursor ≡ some 0))
      × (is_playing st'.phase ≡ true)
      × (st'.full_history ≡ push_all (new_with_cap cap) (log ++ b ∷ []))
unfolding loaded_rejoin
loaded_rejoin_lem now cap pid log st p b room here playing history fits packet =
    rw (whole, ap (λ o. broadcast_some now o ready) packet)
      (
        (
          offer now b (start_catch_up 0 q),
          unfold broadcast in
              (by_pid-map ready.players pid (offer now b) (offer-pid now b)
                ∙ ap (Option.map (offer now b)) caught),
          offer-keeps_cursor now b (start_catch_up 0 q),
        ),
        unfold broadcast in runs,
        unfold broadcast in
            rw runs (
              ap (λ h. push h b) (told.1 ∙ held)
              ∙ push-holding cap log b room
              ∙ sym (filled cap (log ++ b ∷ []) room)),
      )
  where
    held : st.full_history ≡ holding cap log
    held = history ∙ filled cap log room

    first : first_seq st.full_history ≡ 0
    first = ap first_seq held ∙ (unfold first_seq in omega arith)

    whole : ltb 0 (first_seq st.full_history) ≡ false
    whole = ground (arith, first)

    others : PlayerTable
    others = filter (is_other pid) st.players

    told : Hosts pid st (tell_loaded now pid others st)
    told = tell_loaded-Hosts now pid others st p here

    q : Player
    q = told.0.0

    ready : GameState
    ready =
        let st' = tell_loaded now pid others st in
        record st' {
          players = with_pid st'.players pid (start_catch_up (first_seq st.full_history));
        }

    caught : by_pid ready.players pid ≡ some (start_catch_up 0 q)
    caught =
        by_pid-with_pid (tell_loaded now pid others st).players pid pid
          (start_catch_up (first_seq st.full_history)) (λ r. refl)
        ∙ ground (arith, told.0.1, first)

    runs : is_playing ready.phase ≡ true
    runs = ap is_playing told.2 ∙ playing

-- A player who rejoins a running game has loaded, and the history, filled by the log, has lost
-- nothing. The game then goes on to `s`, with broadcasts, pumps, reads and the closing of the link, and
-- with one more of these to `t`; the log goes on with the notice that the player has loaded. At both,
-- the player is in the table, and is gone; or, behind what its queue held when it had loaded, was sent
-- the packets of the log from the very first, each once and in order, up to its cursor; or it has no
-- cursor any more, and was sent there a first part of the log whole and after it nothing but later
-- packets of the log, none twice, in order. The step to `t` ends the catch-up only where the player is
-- gone, or every packet of the log, as it is at `t`, was sent, each once and in order. And a player who
-- is not gone at `s` is gone at `t` only where its link is closed at `s`, the packet at its cursor was
-- evicted, or it is live and counts at least 99 failed sends on end.
pub rejoin_replays_game :
    (now cap pid : ℕ) (log : List Bytes) (st : GameState) (p : Player) (b : Bytes) (s t : Run)
    → 0 < cap
    → by_pid st.players pid ≡ some p
    → is_playing st.phase ≡ true
    → st.full_history ≡ push_all (new_with_cap cap) log
    → length log ≤ cap
    → game_loaded_others pid ≡ some b
    → Reach pid (record { game = loaded_rejoin now pid st; taken = []; log = log ++ b ∷ [] }) s
    → Step pid s t
    → (p0 : Player) × (q : Player) × (q' : Player) × (by_pid (loaded_rejoin now pid st).players pid
        ≡ some p0)
      × (by_pid s.game.players pid ≡ some q)
      × (by_pid t.game.players pid ≡ some q')
      × Progress p0.link.queue s.log q (s.taken ++ q.link.queue)
      × Progress p0.link.queue t.log q' (t.taken ++ q'.link.queue)
      × Ends p0.link.queue t.log q q' (t.taken ++ q'.link.queue)
      × DropsFor cap s.log q q'
rejoin_replays_game now cap pid log st p b s t room here playing history fits packet run step =
    let ((p0, found, cursor), runs, recorded) =
      loaded_rejoin_lem now cap pid log st p b room here playing history fits packet in
    let (q, q', here_s, here_t, at_s, at_t, ends, drops) =
      catch_up_onward cap pid _ s t p0 room runs recorded found cursor run step in
    (p0, q, q', found, here_s, here_t, at_s, at_t, ends, drops)
