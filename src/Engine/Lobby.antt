-- ===== src/Engine/Lobby.antt =====
-- `handle_action` (actions.rs), `handle_leave` and `handle_conn_closed` (lobby.rs) of
-- crates/spectre-engine/src. A reason is its text.
use ghostrs.Base.{
  ℕ, ◌+◌, List, [], ◌∷◌, ◌++◌, Option, none, some, ltb, ◌==◌, if◌then◌else◌, length, text,
}
use ghostrs.Protocol.Error.{Result, ok, err}
use ghostrs.Protocol.Buffer.{Bytes}
use ghostrs.Protocol.W3gs.Ids
use ghostrs.Protocol.W3gs.Incoming.{OutgoingAction, decode_outgoing_action}
use ghostrs.Engine.Players.{Player, by_conn, with_conn}
use ghostrs.Engine.State.{GameState, Pending, is_some, is_in_game, is_before_game, kick_player}
use ghostrs.Engine.Lag.{decimal}
use ghostrs.Engine.Rejoin.{without_token}

abbrev pub refuse_action : ℕ → GameState → GameState
refuse_action pid st = kick_player pid (text "Invalid action packet") Ids.playerleave_lost st

abbrev pub queue_action : ℕ → Result OutgoingAction → GameState → GameState
queue_action pid (err e) st = st
queue_action pid (ok a) st =
    if ltb 1027 (length a.actions + 3)
    then refuse_action pid st
    else record st { actions = st.actions ++ record { pid = pid; actions = a.actions } ∷ [] }

abbrev pub action_of : Option Player → Bytes → GameState → GameState
action_of none payload st = st
action_of (some p) payload st =
    if is_in_game st.phase
    then queue_action p.pid (decode_outgoing_action payload) st
    else refuse_action p.pid st

unfoldable pub handle_action : ℕ → Bytes → GameState → GameState
handle_action conn_id payload st = action_of (by_conn st.players conn_id) payload st

-- `pending.retain(|(id, _, _)| *id != conn_id)`.
unfoldable pub without_pending : ℕ → List Pending → List Pending
without_pending conn_id [] = []
without_pending conn_id (q ∷ pending) =
    let rest = without_pending conn_id pending in if q.conn_id == conn_id then rest else q ∷ rest

abbrev pub forget_pending : ℕ → GameState → GameState
forget_pending conn_id st = record st { pending = without_pending conn_id st.pending }

abbrev pub leaves_with : Bytes → ℕ → Player → Player
leaves_with reason left_code p = record p { left = some reason; left_code = left_code }

abbrev pub leave_of : Option Player → ℕ → ℕ → GameState → GameState
leave_of none conn_id reason_code st = forget_pending conn_id st
leave_of (some p) conn_id reason_code st = record st {
  players = with_conn st.players conn_id (
      leaves_with
        (text "left the game voluntarily (code "
          ++ decimal (reason_code + 1) reason_code
          ++ text ")")
        (if is_before_game st.phase then Ids.playerleave_lobby else Ids.playerleave_lost));
}

unfoldable pub handle_leave : ℕ → ℕ → GameState → GameState
handle_leave conn_id reason_code st = leave_of (by_conn st.players conn_id) conn_id reason_code st

abbrev pub hung_up : ℕ → Bytes → ℕ → Player → Player
hung_up now reason left_code p =
    if p.gproxy
    then (if is_some p.disconnected_since then p else record p { disconnected_since = some now })
    else if is_some p.left
    then p
    else leaves_with reason left_code p

abbrev pub close_of : Option Player → ℕ → ℕ → Bytes → GameState → GameState
close_of none now conn_id reason st = forget_pending conn_id st
close_of (some p) now conn_id reason st = record st {
  players = with_conn st.players conn_id (
      hung_up now reason
        (if is_before_game st.phase then Ids.playerleave_lobby else Ids.playerleave_disconnect));
}

unfoldable pub handle_conn_closed : ℕ → ℕ → Bytes → GameState → GameState
handle_conn_closed now conn_id reason st =
    close_of (by_conn st.players conn_id) now conn_id reason
      (record st { pending_full = without_token conn_id st.pending_full })
