-- ===== src/Engine/Chat/Handle.antt =====
-- `handle_chat_to_host` of crates/spectre-engine/src/chat.rs: a chat packet of a connection, which is a
-- request for a slot, a command or a line for others. `none` is a panic.
use ghostrs.Engine.Chat.{ChatCommand}
use mathlib.Core.Option
use ghostrs.Base.{
  ℕ, Bool, true, false, not, ◌&&◌, ◌||◌, List, [], ◌∷◌, Option, none, some, leb, ◌==◌,
  if◌then◌else◌, text, length, get_or, from_le32,
}
use ghostrs.Protocol.Error.{Result, ok, err}
use ghostrs.Protocol.Buffer.{Bytes}
use ghostrs.Protocol.W3gs.Incoming.{run, ChatToHost, chat_to_host}
use ghostrs.Protocol.W3gs.Outgoing.{chat_from_host}
use ghostrs.Spectator.Body.{add_chat}
use ghostrs.Engine.Link.{PlayerLink}
use ghostrs.Engine.Phases.{◌>>=◌}
use ghostrs.Engine.Broadcast.{send_to, broadcast}
use ghostrs.Engine.Announce.{send_chat_to, pids_of}
use ghostrs.Engine.Players.{Player, PlayerTable, by_conn, by_pid, filter}
use ghostrs.Engine.Rejoin.{eq_ignore_ascii_case, is_other}
use ghostrs.Engine.State.{
  GameState, Hold, is_in_lobby, is_in_game, is_before_game, relay_send, viewer_chat,
}
use ghostrs.Engine.Chat.Words.{same_text, is_empty_text}
use ghostrs.Engine.Chat.Parse.{parse_command}
use ghostrs.Engine.Chat.SlotRequest.{apply_slot_request}
use ghostrs.Engine.Chat.Seats.{show_change}
use ghostrs.Engine.Chat.Run.{run_command}

abbrev pub trigger : ℕ
trigger = 33

-- The commands that everybody may give.
unfoldable pub is_public : ChatCommand → Bool
is_public ChatCommand.ping = true
is_public ChatCommand.vote_start = true
is_public ChatCommand.vote_cancel = true
is_public (ChatCommand.vote_kick name) = true
is_public ChatCommand.yes = true
is_public ChatCommand.draw = true
is_public (ChatCommand.stats name) = true
is_public (ChatCommand.stats_dota name) = true
is_public ChatCommand.version = true
is_public ChatCommand.check_me = true
is_public (ChatCommand.whisper user message) = true
is_public cmd = false

unfoldable pub is_owner : Bytes → GameState → Bool
is_owner name st =
    eq_ignore_ascii_case name st.cfg.owner
    || (eq_ignore_ascii_case st.cfg.owner (text "BOT") || is_empty_text st.cfg.owner)

abbrev pub extra_of : Bytes → ℕ
extra_of extra =
    if leb 4 (length extra)
    then from_le32 (get_or extra 0 0) (get_or extra 1 0) (get_or extra 2 0) (get_or extra 3 0)
    else 0

-- What the replay and the relay get of a line.
abbrev pub record_chat : Player → ChatToHost → GameState → GameState
record_chat p chat st =
    if is_in_game st.phase
    then record st {
      replay =
          Option.map (λ rep. add_chat rep p.pid chat.flag (extra_of chat.extra) chat.message)
            st.replay;
      relay = Option.map (λ r. relay_send r (viewer_chat p.name chat.message)) st.relay;
    }
    else st

abbrev pub is_real : Option Player → Bool
is_real none = false
is_real (some p) = not p.virtual_host

unfoldable pub real_pids : PlayerTable → Bytes → Bytes
real_pids players [] = []
real_pids players (to ∷ pids) =
    let rest = real_pids players pids in if is_real (by_pid players to) then to ∷ rest else rest

abbrev pub audience : ℕ → Bytes → PlayerTable → Bytes
audience pid [] players = pids_of (filter (is_other pid) players)
audience pid (to ∷ pids) players = real_pids players (to ∷ pids)

unfoldable pub send_each : ℕ → Bytes → Bytes → GameState → GameState
send_each now b [] st = st
send_each now b (to ∷ pids) st = send_each now b pids (send_to now to b st)

abbrev pub relay_line : ℕ → Bytes → Result Bytes → GameState → GameState
relay_line now to_pids (err e) st = st
relay_line now to_pids (ok b) st =
    if is_before_game st.phase then send_each now b to_pids st else broadcast now b st

abbrev pub pass_on : ℕ → Player → ChatToHost → GameState → GameState
pass_on now p chat st =
    let to_pids = audience p.pid chat.to_pids st.players in
    relay_line now to_pids (chat_from_host p.pid to_pids chat.flag chat.extra chat.message) st

abbrev pub chat_line : ℕ → Player → Bool → ChatToHost → GameState → GameState
chat_line now p owns chat st =
    let st' = record_chat p chat st in
    if (p.muted || st.muted_all) && not owns
    then st
    else if is_in_lobby st.phase && st.mute_lobby
    then st'
    else pass_on now p chat st'

abbrev pub is_slot_flag : ℕ → Bool
is_slot_flag flag = leb 0x11 flag && leb flag 0x14

module _ (words : Bytes → List Bytes) (lowercase : Bytes → Bytes) (random : ℕ → ℕ)
    (order : List Hold → List Hold) (dota : Option (Bytes → Option Bytes)) (fake_link : PlayerLink)
    (now : ℕ) where
  abbrev pub command_or_line :
      Player → ChatToHost → Option ChatCommand → GameState → Option GameState
  command_or_line p chat none st = some (chat_line now p (is_owner p.name st) chat st)
  command_or_line p chat (some cmd) st =
      if is_owner p.name st || is_public cmd
      then run_command words lowercase random order dota fake_link now p.pid p.name cmd st
      else send_chat_to now p.pid (text "You are not the owner of this game.") st

  abbrev pub slot_request : Player → ChatToHost → GameState → GameState
  slot_request p chat st =
      if is_in_lobby st.phase
      then show_change now (apply_slot_request st.cfg.map p.pid chat.flag chat.byte st.slots) st
      else st

  abbrev pub tell_trigger : Player → ChatToHost → GameState → Option GameState
  tell_trigger p chat st =
      if same_text chat.message (text "?trigger")
      then send_chat_to now p.pid (text "Command trigger: !") st
      else some st

  abbrev pub chat_of : Player → ChatToHost → GameState → Option GameState
  chat_of p chat st =
      if chat.from_pid == p.pid
      then (tell_trigger p chat st >>= λ st'.
          if is_slot_flag chat.flag
          then some (slot_request p chat st')
          else command_or_line p chat (parse_command words lowercase trigger chat.message) st')
      else some st

  abbrev pub chat_decoded : Player → Result ChatToHost → GameState → Option GameState
  chat_decoded p (err e) st = some st
  chat_decoded p (ok chat) st = chat_of p chat st

  abbrev pub chat_from : Option Player → Bytes → GameState → Option GameState
  chat_from none payload st = some st
  chat_from (some p) payload st = chat_decoded p (run chat_to_host payload) st

  unfoldable pub handle_chat_to_host : ℕ → Bytes → GameState → Option GameState
  handle_chat_to_host conn_id payload st = chat_from (by_conn st.players conn_id) payload st
