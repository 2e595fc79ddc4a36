-- ===== src/Engine/Actions/Queue.antt =====
-- The queue of actions that `handle_action` fills.
use ghostrs.Base.{
  ℕ, ◌+◌, inl, inr, [], ◌∷◌, Option, none, some, arith, ltb, length, All, All-append, Bool-cases,
}
use ghostrs.Protocol.Error.{Result, ok, err}
use ghostrs.Protocol.Buffer.{Bytes}
use ghostrs.Protocol.W3gs.Incoming.{OutgoingAction, decode_outgoing_action}
use ghostrs.Engine.Players.{Player, by_conn}
use ghostrs.Engine.State.{GameState, kick_player, is_in_game}
use ghostrs.Engine.Lobby.{handle_action, action_of, queue_action}
use ghostrs.Engine.Actions.Batches.{IsSmall}

abbrev pub AreSmall : GameState → Type 0
AreSmall st = All IsSmall st.actions

queue_action-AreSmall :
    (pid : ℕ) (r : Result OutgoingAction) (st : GameState)
    → AreSmall st
    → AreSmall (queue_action pid r st)
unfolding kick_player
queue_action-AreSmall pid (err e) st smalls = smalls
queue_action-AreSmall pid (ok a) st smalls = elim (Bool-cases (ltb 1027 (length a.actions + 3))) [
  | inl big ↦ rw big smalls
  | inr small ↦ rw small (
      All-append IsSmall st.actions (record { pid = pid; actions = a.actions } ∷ []) smalls
        (ground (arith, small), tt))
]

action_of-AreSmall :
    (p : Option Player) (payload : Bytes) (st : GameState)
    → AreSmall st
    → AreSmall (action_of p payload st)
unfolding kick_player
action_of-AreSmall none payload st smalls = smalls
action_of-AreSmall (some p) payload st smalls = elim (Bool-cases (is_in_game st.phase)) [
  | inl game ↦ rw game (queue_action-AreSmall p.pid (decode_outgoing_action payload) st smalls)
  | inr away ↦ rw away smalls
]

-- `handle_action` queues no action that a tick cannot send: whatever a connection sends, an action in
-- the queue has at most 1027 bytes with its head, if those before the call had.
pub handle_action-AreSmall :
    (conn_id : ℕ) (payload : Bytes) (st : GameState)
    → AreSmall st
    → AreSmall (handle_action conn_id payload st)
unfolding handle_action
handle_action-AreSmall conn_id payload st smalls =
    action_of-AreSmall (by_conn st.players conn_id) payload st smalls
