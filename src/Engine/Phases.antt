-- ===== src/Engine/Phases.antt =====
-- From the lobby into the game: `start_countdown` (actor.rs), `begin_loading`, `begin_playing` and
-- `handle_loaded` (actions.rs) of crates/spectre-engine/src. `none` is a panic. The two decimals of a
-- loading time are the standard library's: `show_secs` stands for `{:.2}` of a time in milliseconds.
use ghostrs.Engine.Rejoin.{loaded_rejoin}
use ghostrs.Protocol.W3gs.Outgoing.{encode_slots}
use ghostrs.Engine.Hcl.{encode_hcl_into_slots}
use ghostrs.Engine.Announce.{
  delete_virtual_host, send_chat_to, send_all_slot_info, send_chat_all, broadcast_some,
}
use ghostrs.Protocol.W3gs.Slot.{SlotInfo}
use ghostrs.Protocol.Buffer.Statstring.{encode_statstring}
use ghostrs.Engine.Slots.{SlotTable}
use ghostrs.Protocol.DotaTv.{PlayerInfo, GameStartSnapshot}
use ghostrs.Spectator.Body.{add_player, set_host, ReplayBody, set_start}
use ghostrs.Protocol.Buffer.{Bytes}
use ghostrs.Engine.Players.{
  with_pid, by_pid, human_count, by_conn, RejoinStage, iter_humans, PlayerTable, Player,
}
use ghostrs.Base.{
  ◌&&◌, le16, ◌==◌, ltb, text, false, all, le32, not, ◌∷◌, ◌-◌, [], ◌++◌, map, Bool, true,
  if◌then◌else◌, some, ℕ,
}
use mathlib.Core.Option.{none, Option}
use mathlib.Core.Option
use ghostrs.Engine.Players.{awaiting_loaded, awaiting_map_size, normal}
use ghostrs.Protocol.W3gs.Outgoing.{game_loaded_others, countdown_end, countdown_start}
use ghostrs.Engine.State.{
  game_start, host_pid, is_in_lobby, relay_send, RelayHandle, GameState, RelayCmd, playing, loading,
  countdown,
}

-- What follows a chat line.
infixl 5 ◌>>=◌
abbrev pub ◌>>=◌ : {A B : Type 0} → Option A → (A → Option B) → Option B
none >>= f = none
some a >>= f = f a

unfoldable pub start_countdown : ℕ → GameState → GameState
start_countdown now st =
    if is_in_lobby st.phase then record st { phase = countdown now 5000 11 } else st

abbrev pub ready : Player → Player
ready p = record p { loaded = true; sync_counter = 0; checksums = [] }

abbrev pub took : ℕ → Option ℕ → ℕ
took started none = 0
took started (some t) = t - started

abbrev pub load_time : ℕ → Player → ℕ
load_time started p = took started p.finished_loading_at

-- `best.is_none_or(|(_, t)| time < t)`, and the same for `>`.
abbrev pub is_better : (ℕ → ℕ → Bool) → ℕ → Option (Bytes × ℕ) → Bool
is_better beats time none = true
is_better beats time (some (name, best)) = beats time best

unfoldable pub best_load :
    (ℕ → ℕ → Bool) → ℕ → Option (Bytes × ℕ) → PlayerTable → Option (Bytes × ℕ)
best_load beats started best [] = best
best_load beats started best (p ∷ players) =
    let time = load_time started p in
    best_load beats started (if is_better beats time best then some (p.name, time) else best)
      players

abbrev pub name_or : Bytes → Option Player → Bytes
name_or default none = default
name_or default (some p) = p.name

abbrev pub host_name : GameState → Bytes
host_name st =
    if not (st.virtual_host_pid == 255) && host_pid st == st.virtual_host_pid
    then st.cfg.virtual_host_name
    else name_or st.cfg.virtual_host_name (by_pid st.players (host_pid st))

unfoldable pub add_players : PlayerTable → ReplayBody → ReplayBody
add_players [] rep = rep
add_players (p ∷ players) rep = add_players players (add_player rep p.pid p.name)

abbrev pub open_replay : GameState → GameState
open_replay st = record st {
  replay =
      Option.map
        (λ rep.
          (set_start
            (add_players (iter_humans st.players) (set_host rep (host_pid st) (host_name st)))
            (encode_slots st.slots) st.random_seed st.cfg.map.layout_style
            st.cfg.map.num_players).0)
        st.replay;
}

abbrev pub snapshot_of : GameState → GameStartSnapshot
snapshot_of st =
    let m = st.cfg.map in
    record {
      game_name = st.cfg.name;
      map_path = m.path;
      map_size = m.size;
      map_info_crc = m.info;
      map_crc = m.crc;
      map_sha1 = m.sha1;
      stat_string = encode_statstring (
          le32 m.flags
          ++ 0 ∷ le16 m.width
          ++ le16 m.height
          ++ le32 m.crc
          ++ m.path
          ++ 0 ∷ st.cfg.virtual_host_name
          ++ 0 ∷ 0 ∷ m.sha1);
      random_seed = st.random_seed;
      layout_style = m.layout_style;
      player_slots = m.num_players;
      war3_version = 26;
      is_tft = true;
      slots = st.slots;
    }

-- `slots.iter().find(|s| s.pid == pid)`.
unfoldable pub slot_of : ℕ → SlotTable → Option SlotInfo
slot_of pid [] = none
slot_of pid (s ∷ slots) = if s.pid == pid then some s else slot_of pid slots

abbrev pub info_of : Player → Option SlotInfo → PlayerInfo
info_of p none = record { pid = p.pid; name = p.name; colour = 0; team = 0; race = 0x20 }
info_of p (some s) = record {
  pid = p.pid;
  name = p.name;
  colour = s.colour;
  team = s.team;
  race = s.race;
}

unfoldable pub send_infos : SlotTable → PlayerTable → RelayHandle → RelayHandle
send_infos slots [] r = r
send_infos slots (p ∷ players) r =
    send_infos slots players (relay_send r (RelayCmd.player_info (info_of p (slot_of p.pid slots))))

abbrev pub open_relay : GameState → GameState
open_relay st = record st {
  relay =
      Option.map
        (λ r.
          send_infos st.slots (iter_humans st.players) (relay_send r (game_start (snapshot_of st))))
        st.relay;
}

-- The game as it goes live, before anything is said.
abbrev pub live : GameState → GameState
live st = record st {
  phase = playing;
  started_loading_at = none;
  players = map ready st.players;
  sync_counter = 0;
  game_ticks = 0;
}

abbrev pub all_loaded : PlayerTable → Bool
all_loaded players = all (λ p. p.loaded) players

abbrev pub is_awaiting_loaded : RejoinStage → Bool
is_awaiting_loaded awaiting_loaded = true
is_awaiting_loaded awaiting_map_size = false
is_awaiting_loaded normal = false

-- `by_pid(pid).map(|p| p.rejoin) == Some(stage)`.
abbrev pub awaits_loaded : Option Player → Bool
awaits_loaded none = false
awaits_loaded (some p) = is_awaiting_loaded p.rejoin

module _ (show_secs : ℕ → Bytes) (now : ℕ) where
  abbrev pub load_line : Bytes → Bytes × ℕ → Bytes
  load_line which (name, time) =
      which
      ++ text " load by player ["
      ++ name
      ++ text "] was "
      ++ show_secs time
      ++ text " seconds."

  abbrev pub say_loads : Option (Bytes × ℕ) → Option (Bytes × ℕ) → GameState → Option GameState
  say_loads none longest st = some st
  say_loads (some s) none st = some st
  say_loads (some s) (some l) st =
      send_chat_all now (load_line (text "Shortest") s) st
      >>= send_chat_all now (load_line (text "Longest") l)

  unfoldable pub tell_times : ℕ → PlayerTable → GameState → Option GameState
  tell_times started [] st = some st
  tell_times started (p ∷ players) st =
      send_chat_to now p.pid
        (text "Your loading time was " ++ show_secs (load_time started p) ++ text " seconds.") st
      >>= tell_times started players

  abbrev pub report_loads : Option ℕ → GameState → Option GameState
  report_loads none st = some st
  report_loads (some started) st =
      let humans = iter_humans st.players in
      say_loads (best_load (λ t best. ltb t best) started none humans)
        (best_load (λ t best. ltb best t) started none humans) st
      >>= tell_times started humans

  unfoldable pub begin_playing : GameState → Option GameState
  begin_playing st =
      Option.map (λ (st' : GameState). open_relay (open_replay st'))
        (report_loads st.started_loading_at (live st))

  abbrev pub play_if : Bool → GameState → Option GameState
  play_if test st = if test then begin_playing st else some st

  abbrev pub with_slots : Bool × SlotTable → GameState → GameState
  with_slots (encoded, slots) st =
      let st' = record st { slots = slots } in if encoded then send_all_slot_info now st' else st'

  abbrev pub encode_hcl : Option Bytes → GameState → GameState
  encode_hcl none st = st
  encode_hcl (some hcl) st = with_slots (encode_hcl_into_slots hcl st.slots) st

  abbrev pub load_fake : Option ℕ → GameState → GameState
  load_fake none st = st
  load_fake (some fpid) st =
      broadcast_some now (game_loaded_others fpid)
        (record st { players = with_pid st.players fpid (λ p. record p { loaded = true }) })

  abbrev pub into_loading : GameState → GameState
  into_loading st = record st {
    phase = loading;
    started_loading_at = some now;
    start_players = human_count st.players;
  }

  unfoldable pub begin_loading : GameState → Option GameState
  begin_loading st =
      let st' = load_fake st.fake_player_pid (
        broadcast_some now countdown_end (
          delete_virtual_host now
            (broadcast_some now countdown_start (encode_hcl st.hcl (into_loading st))))) in
      play_if (all_loaded st'.players) st'

  abbrev pub has_loaded : Player → Player
  has_loaded p = record p { loaded = true; finished_loading_at = some now }

  abbrev pub loads : ℕ → GameState → Option GameState
  loads pid st =
      let st' =
        broadcast_some now (game_loaded_others pid)
          (record st { players = with_pid st.players pid has_loaded }) in
      play_if (all_loaded st'.players) st'

  abbrev pub loaded_of : Option Player → GameState → Option GameState
  loaded_of none st = some st
  loaded_of (some p) st =
      if awaits_loaded (by_pid st.players p.pid)
      then some (loaded_rejoin now p.pid st)
      else loads p.pid st

  unfoldable pub handle_loaded : ℕ → GameState → Option GameState
  handle_loaded conn_id st = loaded_of (by_conn st.players conn_id) st
