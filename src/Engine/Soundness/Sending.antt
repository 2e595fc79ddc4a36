-- ===== src/Engine/Soundness/Sending.antt =====
-- `handle_action` and `send_all_actions` of crates/spectre-engine/src/actions.rs keep a game sound.
use ghostrs.Spectator.Body.{add_timeslot, add_timeslot2}
use ghostrs.Engine.Actions.{
  flush, interval_of, new_winner, max_action_payload, relay_block, begin_tick, block_len, tick_ok,
  more_ok, send_all_actions, announce, batch_loop, tell_tick, tell_more,
}
use mathlib.Core.Option
use ghostrs.Base.{
  if◌then◌else◌, Option, ℕ, none, some, List, [], ◌∷◌, refl, ◌&&◌, not, inl, inr, ltb, Bool-cases,
  length, ◌+◌, ◌++◌, ◌≡◌, text,
}
use ghostrs.Protocol.Buffer.{Bytes}
use ghostrs.Protocol.Error.{Result, ok, err}
use ghostrs.Protocol.W3gs.Outgoing.{ActionBlock, incoming_action2, encode_actions_raw, is_empty}
use ghostrs.Protocol.W3gs.Incoming.{OutgoingAction, decode_outgoing_action}
use ghostrs.Engine.Soundness.{Sound, SoundIf, Still-Sound, same_pids-Distinct}
use ghostrs.Engine.Keeps.{
  Keeps, Still, goes, same, kept, behind, and_then, if_kept, pids, map-Still, broadcast-Keeps,
  kick_player-Keeps, send_chat_all-Still,
}
use ghostrs.Engine.State.{GameState, is_in_game}
use ghostrs.Engine.Players.{by_conn, Player}
use ghostrs.Engine.Lobby.{handle_action, action_of, queue_action}
use ghostrs.Engine.Actions.Queue.{handle_action-AreSmall}

queue_action-pids :
    (pid : ℕ) (r : Result OutgoingAction) (st : GameState)
    → pids (queue_action pid r st).players ≡ pids st.players
queue_action-pids pid (err e) st = refl
queue_action-pids pid (ok a) st = elim (Bool-cases (ltb 1027 (length a.actions + 3))) [
  | inl big ↦ rw big ((kick_player-Keeps pid _ _ st).seats)
  | inr small ↦ rw small refl
]

action_of-pids :
    (o : Option Player) (payload : Bytes) (st : GameState)
    → pids (action_of o payload st).players ≡ pids st.players
action_of-pids none payload st = refl
action_of-pids (some p) payload st = elim (Bool-cases (is_in_game st.phase)) [
  | inl game ↦ rw game (queue_action-pids p.pid (decode_outgoing_action payload) st)
  | inr away ↦ rw away ((kick_player-Keeps p.pid _ _ st).seats)
]

pub handle_action-Sound :
    (conn_id : ℕ) (payload : Bytes) (st : GameState)
    → Sound st
    → Sound (handle_action conn_id payload st)
unfolding handle_action
handle_action-Sound conn_id payload st s = record {
  distinct =
      same_pids-Distinct st.players (action_of (by_conn st.players conn_id) payload st).players
        (action_of-pids (by_conn st.players conn_id) payload st) s.distinct;
  small = handle_action-AreSmall conn_id payload st s.small;
}

module _ (crc32 : Bytes → ℕ) (now : ℕ) where
  more_ok-Keeps :
      (batch : List ActionBlock) (r : Result Bytes) (st : GameState)
      → Keeps st (more_ok now batch r st)
  unfolding tell_more
  more_ok-Keeps batch (err e) st = same
  more_ok-Keeps batch (ok b) st =
      let st' = relay_block b st in
      let k = broadcast-Keeps now b (record st' {
        replay = Option.map (λ rep. add_timeslot2 rep (encode_actions_raw batch)) st.replay;
      }) in
      kept k.seats k.slots k.queued

  tick_ok-Keeps :
      (interval : ℕ) (batch : List ActionBlock) (r : Result Bytes) (st : GameState)
      → Keeps st (tick_ok now interval batch r st)
  unfolding tell_tick
  tick_ok-Keeps interval batch (err e) st = same
  tick_ok-Keeps interval batch (ok b) st =
      let st' = relay_block b st in
      let k = broadcast-Keeps now b (record st' {
        replay = Option.map (λ rep. add_timeslot rep interval (encode_actions_raw batch)) st.replay;
      }) in
      kept k.seats k.slots k.queued

  batch_loop-Keeps :
      (queued batch : List ActionBlock) (n : ℕ) (st : GameState)
      → Keeps st (batch_loop crc32 now queued batch n st).1
  unfolding batch_loop
  batch_loop-Keeps [] batch n st = same
  batch_loop-Keeps (a ∷ queued) batch n st =
      let len = block_len a in
      let is_full = ltb max_action_payload (n + len) && not (is_empty batch) in
      and_then (if_kept is_full (more_ok-Keeps batch (incoming_action2 crc32 batch) st) same) (
        batch_loop-Keeps queued (if is_full then a ∷ [] else batch ++ a ∷ [])
          (if is_full then len else n + len) (if is_full then flush crc32 now batch st else st))

  announce-Still :
      (winner : Option Bytes) (st : GameState) → Still st (announce crc32 now winner st)
  announce-Still none st = goes same
  announce-Still (some winner) st =
      map-Still _
        (send_chat_all-Still now
          (text "Game over detected! Winner: " ++ winner ++ text ". Game will close in 60s.") st)
        λ st'. kept refl refl refl

  pub send_all_actions-SoundIf :
      (winner : Option Bytes) (skipped : ℕ) (st : GameState)
      → Sound st
      → SoundIf (send_all_actions crc32 now winner skipped st)
  unfolding send_all_actions
  send_all_actions-SoundIf winner skipped st s =
      let begun = begin_tick skipped st in
      let looped = batch_loop crc32 now st.actions [] 0 begun in
      Still-Sound
        (behind (batch_loop-Keeps st.actions [] 0 begun) (
          map-Still _ (announce-Still (new_winner st winner) looped.1)
            (λ st'. tick_ok-Keeps (interval_of st skipped) looped.0 _ st')))
        (record { distinct = s.distinct; small = tt })
