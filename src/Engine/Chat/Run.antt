-- ===== src/Engine/Chat/Run.antt =====
-- `run_command` of crates/spectre-engine/src/chat.rs. `none` is a panic. `words` and `lowercase` stand
-- for `split_whitespace` and `to_lowercase`, `random` for what `rand` draws, `order` for how the map of
-- holds is read, `dota` for the statistics of the game and `fake_link` for the channel of a fake player.
use ghostrs.Engine.Chat.Words.{is_empty_text}
use ghostrs.Engine.Chat.{ChatCommand}
use ghostrs.Engine.Chat.Settings.{
  set_mute_lobby, rehost, set_messages, fake_action, act_as_fake, set_auto_start, set_announcement,
  set_owner, set_sync_limit, set_latency,
}
use ghostrs.Engine.Chat.Reports.{
  tell_origins, download_found, download_to, check_self, check_found, dota_of, target_or, stats_of,
  whisper_found, ping_line,
}
use ghostrs.Engine.Chat.Names.{by_name_partial}
use ghostrs.Engine.Chat.Votes.{
  vote_draw, count_start, ban_last_leaver, vote_yes, vote_kick_found, set_muted, tell_store,
  ban_found, kick_found,
}
use ghostrs.Engine.Chat.Seats.{comp_command, shuffle_all, put_hold, show_all, show_change}
use ghostrs.Engine.Chat.Start.{start_command}
use mathlib.Core.Option
use ghostrs.Base.{ℕ, true, false, List, [], ◌∷◌, ◌++◌, Option, none, some, if◌then◌else◌, text}
use ghostrs.Protocol.Buffer.{Bytes}
use ghostrs.Engine.Link.{PlayerLink}
use ghostrs.Engine.Announce.{send_chat_to, send_chat_all, send_all_slot_info}
use ghostrs.Engine.Transfer.{handle_drop_request, digits}
use ghostrs.Engine.Virtual.{toggle_fake_player}
use ghostrs.Engine.Slots.{open_slot, close_slot, open_all, close_all, swap_slots, add_computer}
use ghostrs.Engine.Map.{has_fixed_player_settings, has_custom_forces}
use ghostrs.Engine.Players.{by_pid, next_free_pid}
use ghostrs.Engine.Slots.{first_open}
use ghostrs.Engine.State.{
  add_ban, remove_ban, add_admin, remove_admin, GameState, GamePhase, Hold, lobby, loading, playing,
  over, countdown, is_in_lobby,
}

abbrev pub abort_at : ℕ → GamePhase → GameState → Option GameState
abort_at now (countdown a b c) st =
    send_chat_all now (text "Countdown aborted.") (record st { phase = lobby })
abort_at now lobby st = some st
abort_at now loading st = some st
abort_at now playing st = some st
abort_at now over st = some st

-- The text that `toggle_fake_player` returns, in a lobby.
abbrev pub fake_text : Option ℕ → Option ℕ → Option ℕ → Option Bytes
fake_text (some fpid) free slot = some (text "Fake player removed.")
fake_text none none slot = none
fake_text none (some fpid) none = none
fake_text none (some fpid) (some slot) = some (text "Fake player added.")

abbrev pub toggle_text : GameState → Option Bytes
toggle_text st =
    if is_in_lobby st.phase
    then fake_text st.fake_player_pid (next_free_pid st.players) (first_open st.slots)
    else none

abbrev pub tell_maybe : ℕ → ℕ → Option Bytes → GameState → Option GameState
tell_maybe now pid none st = some st
tell_maybe now pid (some msg) st = send_chat_to now pid msg st

abbrev pub lan_port : Option ℕ → ℕ
lan_port none = 6112
lan_port (some p) = p

abbrev pub end_game : ℕ → GameState → Option GameState
end_game now st =
    Option.map (λ (st' : GameState). record st' { phase = over; finished = true })
      (send_chat_all now (text "Game ended by host.") st)

module _ (words : Bytes → List Bytes) (lowercase : Bytes → Bytes) (random : ℕ → ℕ)
    (order : List Hold → List Hold) (dota : Option (Bytes → Option Bytes)) (fake_link : PlayerLink)
    (now pid : ℕ) (caller : Bytes) where
  unfoldable pub run_command : ChatCommand → GameState → Option GameState
  run_command (ChatCommand.start force) st = start_command now pid force st
  run_command ChatCommand.abort st = abort_at now st.phase st
  run_command (ChatCommand.open_slot sid) st = some (show_change now (open_slot st.slots sid) st)
  run_command (ChatCommand.close_slot sid) st = some (show_change now (close_slot st.slots sid) st)
  run_command ChatCommand.open_all st =
      show_all now (text "Opened all closed slots.") (open_all st.slots) st
  run_command ChatCommand.close_all st =
      show_all now (text "Closed all open slots.") (close_all st.slots) st
  run_command (ChatCommand.swap a b) st =
      let m = st.cfg.map in
      some (
        show_change now
          (swap_slots st.slots a b (has_fixed_player_settings m.options)
            (has_custom_forces m.options))
          st)
  run_command (ChatCommand.hold name slot) st =
      send_chat_all now (text "Slot reserved for [" ++ name ++ text "].")
        (put_hold order name slot st)
  run_command ChatCommand.clear_hold st =
      send_chat_all now (text "Held slots cleared.") (record st { holds = [] })
  run_command (ChatCommand.kick name) st =
      kick_found now pid name (by_name_partial lowercase name st.players) st
  run_command (ChatCommand.ban name reason) st =
      Option.map
        (λ (st' : GameState). ban_found reason (by_name_partial lowercase name st'.players) st')
        (send_chat_all now (text "Banned [" ++ name ++ text "]: " ++ reason ++ text ".")
          (tell_store (add_ban name [] caller reason) st))
  run_command (ChatCommand.unban name) st =
      send_chat_to now pid (text "Unbanned [" ++ name ++ text "].")
        (tell_store (remove_ban name) st)
  run_command (ChatCommand.check_ban name) st =
      send_chat_to now pid (text "Checking ban for [" ++ name ++ text "]...") st
  run_command (ChatCommand.ban_last reason) st =
      ban_last_leaver now pid caller reason st.last_player_left st
  run_command (ChatCommand.check_admin name) st =
      send_chat_to now pid (text "Checking admin status for [" ++ name ++ text "]...") st
  run_command (ChatCommand.add_admin name) st =
      send_chat_to now pid (text "Added admin [" ++ name ++ text "].")
        (tell_store (add_admin name []) st)
  run_command (ChatCommand.del_admin name) st =
      send_chat_to now pid (text "Removed admin [" ++ name ++ text "].")
        (tell_store (remove_admin name) st)
  run_command ChatCommand.ping st = send_chat_to now pid (ping_line st) st
  run_command (ChatCommand.mute name) st =
      set_muted now true (text "muted") (by_name_partial lowercase name st.players) st
  run_command (ChatCommand.unmute name) st =
      set_muted now false (text "unmuted") (by_name_partial lowercase name st.players) st
  run_command ChatCommand.mute_all st =
      send_chat_all now (text "Global chat mute enabled.") (record st { muted_all = true })
  run_command ChatCommand.unmute_all st =
      send_chat_all now (text "Global chat mute disabled.") (record st { muted_all = false })
  run_command ChatCommand.vote_start st = count_start now pid st
  run_command ChatCommand.vote_cancel st =
      send_chat_all now (text "Active votes cancelled.")
        (record st { start_votes = []; votekick_target = none; votekick_votes = [] })
  run_command (ChatCommand.vote_kick name) st =
      if st.cfg.votekick_allowed
      then vote_kick_found now pid name (by_name_partial lowercase name st.players) st
      else send_chat_to now pid (text "Votekick is disabled.") st
  run_command ChatCommand.yes st = vote_yes now pid st.votekick_target st
  run_command (ChatCommand.sync_limit limit) st = set_sync_limit now pid limit st
  run_command (ChatCommand.latency lat) st = set_latency now pid lat st
  run_command ChatCommand.shuffle_players st = shuffle_all random now st
  run_command ChatCommand.version st =
      send_chat_to now pid (text "Spectre v0.2.0 (High-Performance Async Warcraft III Hostbot)") st
  run_command (ChatCommand.say msg) st = send_chat_all now msg st
  run_command (ChatCommand.whisper user message) st =
      whisper_found now pid caller user message (by_name_partial lowercase user st.players) st
  run_command (ChatCommand.stats name) st =
      stats_of now pid (target_or caller name) (by_pid st.players pid) st
  run_command (ChatCommand.stats_dota name) st =
      dota_of now pid (target_or caller name) dota (by_pid st.players pid) st
  run_command ChatCommand.drop st = some (handle_drop_request st)
  run_command ChatCommand.draw st = vote_draw now pid st
  run_command (ChatCommand.hcl mode) st =
      send_chat_all now (text "HCL set to [" ++ mode ++ text "].") (record st { hcl = some mode })
  run_command ChatCommand.clear_hcl st =
      send_chat_all now (text "HCL settings cleared.") (record st { hcl = none })
  run_command (ChatCommand.owner o) st = set_owner now pid o st
  run_command ChatCommand.unhost st =
      some (if is_in_lobby st.phase then record st { finished = true } else st)
  run_command ChatCommand.end st = end_game now st
  run_command ChatCommand.lock st =
      send_chat_all now (text "Game locked.") (record st { locked = true })
  run_command ChatCommand.unlock st =
      send_chat_all now (text "Game unlocked.") (record st { locked = false })
  run_command (ChatCommand.check name) st =
      check_found now pid name (by_name_partial lowercase name st.players) st
  run_command ChatCommand.check_me st = check_self now pid (by_pid st.players pid) st
  run_command (ChatCommand.announce msg) st = set_announcement now pid msg (words msg) st
  run_command (ChatCommand.auto_start num) st = set_auto_start now num st
  run_command ChatCommand.refresh st =
      send_chat_to now pid (text "Refreshed slot info.") (send_all_slot_info now st)
  run_command (ChatCommand.virtual_host vname) st =
      send_chat_all now (text "Virtual host name set to [" ++ vname ++ text "].")
        (record st { cfg = record st.cfg { virtual_host_name = vname } })
  run_command (ChatCommand.comp slot team colour race computer_type handicap) st =
      some (show_change now (add_computer st.slots slot team colour race computer_type handicap) st)
  run_command (ChatCommand.comp_colour slot v) st =
      some (comp_command now slot (λ s. record s { colour = v }) st)
  run_command (ChatCommand.comp_race slot v) st =
      some (comp_command now slot (λ s. record s { race = v }) st)
  run_command (ChatCommand.comp_handicap slot v) st =
      some (comp_command now slot (λ s. record s { handicap = v }) st)
  run_command (ChatCommand.comp_team slot v) st =
      some (comp_command now slot (λ s. record s { team = v }) st)
  run_command (ChatCommand.download name) st =
      if is_empty_text name
      then download_to now pid pid st
      else download_found now pid name (by_name_partial lowercase name st.players) st
  run_command ChatCommand.db_status st = send_chat_to now pid (text "DB STATUS --- OK") st
  run_command ChatCommand.fake_player st =
      tell_maybe now pid (toggle_text st) (toggle_fake_player now fake_link st)
  run_command ChatCommand.fp_pause st =
      act_as_fake now pid (text "Game paused by fake player.")
        (fake_action (0x01 ∷ []) st.fake_player_pid st) st
  run_command ChatCommand.fp_resume st =
      act_as_fake now pid (text "Game resumed by fake player.")
        (fake_action (0x02 ∷ []) st.fake_player_pid st) st
  run_command ChatCommand.from st = tell_origins now pid st
  run_command (ChatCommand.messages opt) st = set_messages now pid opt st
  run_command (ChatCommand.send_lan ip port) st =
      send_chat_to now pid
        (text "Sending LAN broadcast to [" ++ ip ++ text ":" ++ digits (lan_port port) ++ text "].")
        st
  run_command (ChatCommand.pub_game name) st = rehost now (text "public") name st
  run_command (ChatCommand.priv_game name) st = rehost now (text "private") name st
  run_command (ChatCommand.mute_lobby opt) st = set_mute_lobby now opt st
  run_command (ChatCommand.unknown v) st =
      send_chat_to now pid (text "Unknown command [" ++ v ++ text "].") st
