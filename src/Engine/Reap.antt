-- ===== src/Engine/Reap.antt =====
-- `reap_left_players` of crates/spectre-engine/src/state.rs: the players who left are unseated and
-- announced. `none` is a panic, and `show_secs` the text of a loading time.
use ghostrs.Engine.Slots.{release}
use ghostrs.Engine.Announce.{send_all_slot_info, broadcast_some, send_chat_all}
use ghostrs.Engine.Players.{iter_humans, by_pid, PlayerTable, remove_pid, Player}
use ghostrs.Engine.Transfer.{digits}
use ghostrs.Spectator.Body.{add_leaver, add_leaver_loading, ReplayBody}
use mathlib.Core.Option.{Option}
use ghostrs.Protocol.Buffer.{Bytes}
use ghostrs.Base.{◌++◌, not, text, ◌∷◌, some, get_or, false, ◌&&◌, if◌then◌else◌, true, ℕ, Bool}
use mathlib.Core.Option
use ghostrs.Base.{none, some, [], ◌∷◌}
use ghostrs.Protocol.W3gs.Outgoing.{player_leave_others}
use ghostrs.Engine.Players.{filter}
use ghostrs.Engine.State.{
  is_some, is_in_lobby, GameState, GamePhase, lobby, loading, playing, over, countdown,
}
use ghostrs.Engine.Phases.{◌>>=◌, play_if, all_loaded}

abbrev pub is_loading : GamePhase → Bool
is_loading loading = true
is_loading lobby = false
is_loading playing = false
is_loading over = false
is_loading (countdown a b c) = false

abbrev pub note_leaver : ℕ → ℕ → GamePhase → ReplayBody → ReplayBody
note_leaver pid left_code phase rep =
    if is_loading phase
    then add_leaver_loading rep pid 1 left_code
    else add_leaver rep pid 1 left_code

-- The four bytes of an address as text.
abbrev pub dotted : Bytes → Bytes
dotted ip =
    digits (get_or ip 0 0)
    ++ text "."
    ++ digits (get_or ip 1 0)
    ++ text "."
    ++ digits (get_or ip 2 0)
    ++ text "."
    ++ digits (get_or ip 3 0)

abbrev pub remember : Option Player → GameState → GameState
remember none st = st
remember (some p) st = record st { last_player_left = some (p.name, dotted p.external_ip) }

abbrev pub unseat : ℕ → ℕ → GameState → GameState
unseat pid left_code st = record st {
  replay = Option.map (note_leaver pid left_code st.phase) st.replay;
  players = (remove_pid st.players pid).1;
  slots = (release st.slots pid).1;
}

module _ (show_secs : ℕ → Bytes) (now : ℕ) where
  abbrev pub tell_slots : GameState → GameState
  tell_slots st = if is_in_lobby st.phase then send_all_slot_info now st else st

  abbrev pub reap_one : Player → GameState → GameState
  reap_one p st = tell_slots (
      broadcast_some now (player_leave_others p.pid p.left_code)
        (unseat p.pid p.left_code (remember (by_pid st.players p.pid) st)))

  unfoldable pub reap_all : PlayerTable → GameState → GameState
  reap_all [] st = st
  reap_all (p ∷ gone) st = reap_all gone (reap_one p st)

  abbrev pub abort_countdown : GamePhase → GameState → Option GameState
  abort_countdown (countdown a b c) st =
      send_chat_all now (text "Countdown aborted.") (record st { phase = lobby })
  abort_countdown lobby st = some st
  abort_countdown loading st = some st
  abort_countdown playing st = some st
  abort_countdown over st = some st

  abbrev pub is_gone : Player → Bool
  is_gone p = not p.virtual_host && is_some p.left

  abbrev pub is_nobody : PlayerTable → Bool
  is_nobody [] = true
  is_nobody (p ∷ players) = false

  abbrev pub is_ready_after : GameState → Bool
  is_ready_after st =
      is_loading st.phase && (not (is_nobody st.players) && all_loaded (iter_humans st.players))

  abbrev pub reap_gone : PlayerTable → GameState → Option GameState
  reap_gone [] st = some st
  reap_gone (p ∷ gone) st = abort_countdown st.phase st >>= λ st1.
      let st2 = reap_all (p ∷ gone) (record st1 { last_player_left_time = some now }) in
      play_if show_secs now (is_ready_after st2) st2

  unfoldable pub reap_left_players : GameState → Option GameState
  reap_left_players st = reap_gone (filter is_gone st.players) st
