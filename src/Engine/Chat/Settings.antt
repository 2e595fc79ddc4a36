-- ===== src/Engine/Chat/Settings.antt =====
-- The commands of `run_command` (crates/spectre-engine/src/chat.rs) that set something of a game.
-- `none` is a panic, and `words` stands for `split_whitespace`.
use mathlib.Core.Option
use ghostrs.Base.{
  ℕ, ◌+◌, ◌*◌, Bool, true, false, not, ◌&&◌, List, [], ◌∷◌, ◌++◌, Option, none, some, if◌then◌else◌,
  text, length, max, min, as_u32,
}
use ghostrs.Protocol.Buffer.{Bytes}
use ghostrs.Protocol.W3gs.Outgoing.{ActionBlock}
use ghostrs.Engine.Announce.{send_chat_to, send_chat_all}
use ghostrs.Engine.Transfer.{digits}
use ghostrs.Engine.Tick.{set_period}
use ghostrs.Engine.Slots.{count_open}
use ghostrs.Engine.Players.{human_count}
use ghostrs.Engine.Rejoin.{eq_ignore_ascii_case}
use ghostrs.Engine.State.{GameState, LobbyStatus, post, is_in_lobby, is_playing}
use ghostrs.Engine.Chat.Words.{parse_u64, join_words, is_empty_text}

abbrev pub clamp : ℕ → ℕ → ℕ → ℕ
clamp low high n = min high (max low n)

abbrev pub set_sync_limit : ℕ → ℕ → Option ℕ → GameState → Option GameState
set_sync_limit now pid none st =
    send_chat_to now pid (text "Current sync limit is " ++ digits st.cfg.sync_limit ++ text ".") st
set_sync_limit now pid (some limit) st =
    let set_to = clamp 10 500 limit in
    send_chat_to now pid (text "Sync limit set to " ++ digits set_to ++ text ".")
      (record st { cfg = record st.cfg { sync_limit = set_to } })

-- The period of the ticks is in nanoseconds.
abbrev pub set_latency : ℕ → ℕ → Option ℕ → GameState → Option GameState
set_latency now pid none st =
    send_chat_to now pid (text "Current latency is " ++ digits st.cfg.latency ++ text " ms.") st
set_latency now pid (some lat) st =
    let clamped = clamp 10 500 lat in
    send_chat_to now pid (text "Latency set to " ++ digits clamped ++ text " ms.") (record st {
      tick = set_period st.tick (clamped * 1_000_000);
      cfg = record st.cfg { latency = clamped };
    })

abbrev pub announce_nothing : ℕ → ℕ → Bytes → GameState → Option GameState
announce_nothing now pid msg st =
    send_chat_to now pid msg (record st { announce_message = none; announce_interval = 0 })

abbrev pub announce_every : ℕ → Bytes → List Bytes → Option ℕ → GameState → Option GameState
announce_every now msg parts none st =
    send_chat_all now (text "Announcement: " ++ msg) (record st { announce_message = some msg })
announce_every now msg parts (some secs) st =
    send_chat_all now
      (text "Announcement (every " ++ digits secs ++ text "s): " ++ join_words parts)
      (record st {
        announce_interval = secs * 1000;
        announce_message = some (join_words parts);
        last_announce_time = some now;
      })

abbrev pub set_announcement : ℕ → ℕ → Bytes → List Bytes → GameState → Option GameState
set_announcement now pid msg [] st = announce_nothing now pid (text "Announcement cleared.") st
set_announcement now pid msg (first ∷ parts) st =
    if eq_ignore_ascii_case first (text "off")
    then announce_nothing now pid (text "Announcement disabled.") st
    else announce_every now msg parts (parse_u64 first) st

abbrev pub set_auto_start : ℕ → Option ℕ → GameState → Option GameState
set_auto_start now none st =
    send_chat_all now (text "Autostart disabled.") (record st { autostart_players = none })
set_auto_start now (some n) st =
    send_chat_all now (text "Autostart enabled when " ++ digits n ++ text " players join.")
      (record st { autostart_players = some n })

abbrev pub set_owner : ℕ → ℕ → Option Bytes → GameState → Option GameState
set_owner now pid none st =
    send_chat_to now pid (text "Current owner is [" ++ st.cfg.owner ++ text "].") st
set_owner now pid (some o) st =
    send_chat_all now (text "Game owner transferred to [" ++ o ++ text "].")
      (record st { cfg = record st.cfg { owner = o } })

abbrev pub set_messages : ℕ → ℕ → Option Bool → GameState → Option GameState
set_messages now pid none st =
    send_chat_to now pid
      (text "Local admin messages are "
        ++ (if st.local_admin_messages then text "enabled" else text "disabled")
        ++ text ".")
      st
set_messages now pid (some true) st =
    send_chat_to now pid (text "Local admin messages enabled.")
      (record st { local_admin_messages = true })
set_messages now pid (some false) st =
    send_chat_to now pid (text "Local admin messages disabled.")
      (record st { local_admin_messages = false })

abbrev pub bool_or : Bool → Option Bool → Bool
bool_or default none = default
bool_or default (some b) = b

abbrev pub set_mute_lobby : ℕ → Option Bool → GameState → Option GameState
set_mute_lobby now opt st =
    let new_state = bool_or (not st.mute_lobby) opt in
    send_chat_all now
      (if new_state then text "Lobby chat has been muted." else text "Lobby chat has been unmuted.")
      (record st { mute_lobby = new_state })

abbrev pub lobby_status : GameState → LobbyStatus
lobby_status st = record {
  host_counter = st.cfg.host_counter;
  slots_open = count_open st.slots;
  slots_total = length st.slots;
  human_players = human_count st.players;
}

abbrev pub tell_status : GameState → GameState
tell_status st = record st {
  cfg = record st.cfg { event_tx = Option.map (λ tx. post tx (lobby_status st)) st.cfg.event_tx };
}

abbrev pub renamed : Bytes → GameState → GameState
renamed name st = record st {
  last_game_name = st.cfg.name;
  cfg = record st.cfg { name = name; host_counter = as_u32 (st.cfg.host_counter + 1) };
  refresh_rehosted = true;
}

-- The commands `pub` and `priv`.
abbrev pub rehost : ℕ → Bytes → Bytes → GameState → Option GameState
rehost now how name st =
    if is_in_lobby st.phase && not (is_empty_text name)
    then Option.map (λ (st' : GameState). tell_status st')
        (send_chat_all now (text "Rehosted game as " ++ how ++ text " [" ++ name ++ text "].")
          (renamed name st))
    else some st

abbrev pub fake_action : Bytes → Option ℕ → GameState → Option ActionBlock
fake_action act none st = none
fake_action act (some fake_pid) st =
    if is_playing st.phase then some (record { pid = fake_pid; actions = act }) else none

-- The commands `fppause` and `fpresume`, of the action that is queued.
abbrev pub act_as_fake : ℕ → ℕ → Bytes → Option ActionBlock → GameState → Option GameState
act_as_fake now pid msg none st = some st
act_as_fake now pid msg (some act) st =
    send_chat_to now pid msg (record st { actions = st.actions ++ act ∷ [] })
