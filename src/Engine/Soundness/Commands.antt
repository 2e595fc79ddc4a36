-- ===== src/Engine/Soundness/Commands.antt =====
-- `run_command` of crates/spectre-engine/src/chat.rs keeps a game sound.
use ghostrs.Engine.Soundness.Replies.{
  tell_lines-SoundIf, tell_maybe-SoundIf, download_found-SoundIf, download_to-SoundIf,
  check_self-SoundIf, check_found-SoundIf, dota_of-SoundIf, stats_of-SoundIf, whisper_found-SoundIf,
  abort_at-SoundIf,
}
use ghostrs.Engine.Keeps.Handlers.{handle_drop_request-Keeps}
use ghostrs.Engine.Chat.Words.{is_empty_text}
use ghostrs.Engine.Soundness.Chats.{
  rehost-SoundIf, set_messages-SoundIf, fake_action-SoundIf, set_auto_start-SoundIf,
  set_announcement-SoundIf, set_owner-SoundIf, vote_draw-SoundIf, set_latency-SoundIf,
  set_sync_limit-SoundIf, vote_yes-SoundIf, vote_kick_found-SoundIf, count_start-SoundIf,
  set_muted-SoundIf, ban_last-SoundIf, ban_found-Sound, tell_store-Sound, kick_found-SoundIf,
  show_all-SoundIf, show_change-Sound, said, start_command-SoundIf, told,
}
use ghostrs.Engine.Chat.Seats.{put_hold}
use ghostrs.Engine.Chat.Run.{toggle_text, run_command}
use ghostrs.Base.{Option, ℕ, true, false, none, some, List, [], refl, text}
use ghostrs.Protocol.Buffer.{Bytes}
use ghostrs.Engine.Link.{PlayerLink}
use ghostrs.Engine.Soundness.{
  beside, Sound, SoundIf, is_sound, Keeps-Sound, map_sound, if_sound, if_Sound_state,
  toggle_fake_player-Sound,
}
use ghostrs.Engine.Keeps.{send_all_slot_info-Keeps}
use ghostrs.Engine.State.{add_ban, is_in_lobby, GameState, Hold}
use ghostrs.Engine.Players.{by_pid}
use ghostrs.Engine.Chat.{ChatCommand}

put_hold-Sound :
    (order : List Hold → List Hold) (name : Bytes) (o : Option ℕ) (st : GameState)
    → Sound st
    → Sound (put_hold order name o st)
put_hold-Sound order name none st s = s
put_hold-Sound order name (some sid) st s = beside s refl refl

module _ (words : Bytes → List Bytes) (lowercase : Bytes → Bytes) (random : ℕ → ℕ)
    (order : List Hold → List Hold) (dota : Option (Bytes → Option Bytes)) (fake_link : PlayerLink)
    (now pid : ℕ) (caller : Bytes) where
  pub run_command-SoundIf :
      (cmd : ChatCommand) (st : GameState)
      → Sound st
      → SoundIf (run_command words lowercase random order dota fake_link now pid caller cmd st)
  unfolding run_command
  run_command-SoundIf (ChatCommand.start force) st s = start_command-SoundIf now pid force st s
  run_command-SoundIf ChatCommand.abort st s = abort_at-SoundIf now st.phase st s
  run_command-SoundIf (ChatCommand.open_slot sid) st s = is_sound (show_change-Sound now _ st s)
  run_command-SoundIf (ChatCommand.close_slot sid) st s = is_sound (show_change-Sound now _ st s)
  run_command-SoundIf ChatCommand.open_all st s = show_all-SoundIf now _ _ st s
  run_command-SoundIf ChatCommand.close_all st s = show_all-SoundIf now _ _ st s
  run_command-SoundIf (ChatCommand.swap a b) st s = is_sound (show_change-Sound now _ st s)
  run_command-SoundIf (ChatCommand.hold name slot) st s =
      said now _ _ (put_hold-Sound order name slot st s)
  run_command-SoundIf ChatCommand.clear_hold st s = said now _ _ (beside s refl refl)
  run_command-SoundIf (ChatCommand.kick name) st s = kick_found-SoundIf now pid name _ st s
  run_command-SoundIf (ChatCommand.ban name reason) st s =
      map_sound _ (said now _ _ (tell_store-Sound now (add_ban name [] caller reason) st s))
        (λ st' s'. ban_found-Sound now reason _ st' s')
  run_command-SoundIf (ChatCommand.unban name) st s = told now pid _ _ (tell_store-Sound now _ st s)
  run_command-SoundIf (ChatCommand.check_ban name) st s = told now pid _ st s
  run_command-SoundIf (ChatCommand.ban_last reason) st s =
      ban_last-SoundIf now pid caller reason st.last_player_left st s
  run_command-SoundIf (ChatCommand.check_admin name) st s = told now pid _ st s
  run_command-SoundIf (ChatCommand.add_admin name) st s =
      told now pid _ _ (tell_store-Sound now _ st s)
  run_command-SoundIf (ChatCommand.del_admin name) st s =
      told now pid _ _ (tell_store-Sound now _ st s)
  run_command-SoundIf ChatCommand.ping st s = told now pid _ st s
  run_command-SoundIf (ChatCommand.mute name) st s = set_muted-SoundIf now true _ _ st s
  run_command-SoundIf (ChatCommand.unmute name) st s = set_muted-SoundIf now false _ _ st s
  run_command-SoundIf ChatCommand.mute_all st s = said now _ _ (beside s refl refl)
  run_command-SoundIf ChatCommand.unmute_all st s = said now _ _ (beside s refl refl)
  run_command-SoundIf ChatCommand.vote_start st s = count_start-SoundIf now pid st s
  run_command-SoundIf ChatCommand.vote_cancel st s = said now _ _ (beside s refl refl)
  run_command-SoundIf (ChatCommand.vote_kick name) st s =
      if_sound st.cfg.votekick_allowed (vote_kick_found-SoundIf now pid name _ st s)
        (told now pid _ st s)
  run_command-SoundIf ChatCommand.yes st s = vote_yes-SoundIf now pid st.votekick_target st s
  run_command-SoundIf (ChatCommand.sync_limit limit) st s =
      set_sync_limit-SoundIf now pid limit st s
  run_command-SoundIf (ChatCommand.latency lat) st s = set_latency-SoundIf now pid lat st s
  run_command-SoundIf ChatCommand.shuffle_players st s =
      if_sound (is_in_lobby st.phase) (show_all-SoundIf now _ _ st s) (is_sound s)
  run_command-SoundIf ChatCommand.version st s = told now pid _ st s
  run_command-SoundIf (ChatCommand.say msg) st s = said now msg st s
  run_command-SoundIf (ChatCommand.whisper user message) st s =
      whisper_found-SoundIf now pid caller user message _ st s
  run_command-SoundIf (ChatCommand.stats name) st s =
      stats_of-SoundIf now pid _ (by_pid st.players pid) st s
  run_command-SoundIf (ChatCommand.stats_dota name) st s =
      dota_of-SoundIf now pid _ dota (by_pid st.players pid) st s
  run_command-SoundIf ChatCommand.drop st s =
      is_sound (Keeps-Sound (handle_drop_request-Keeps st) s)
  run_command-SoundIf ChatCommand.draw st s = vote_draw-SoundIf now pid st s
  run_command-SoundIf (ChatCommand.hcl mode) st s = said now _ _ (beside s refl refl)
  run_command-SoundIf ChatCommand.clear_hcl st s = said now _ _ (beside s refl refl)
  run_command-SoundIf (ChatCommand.owner o) st s = set_owner-SoundIf now pid o st s
  run_command-SoundIf ChatCommand.unhost st s =
      is_sound (if_Sound_state (is_in_lobby st.phase) (beside s refl refl) s)
  run_command-SoundIf ChatCommand.end st s =
      map_sound _ (said now _ st s) (λ st' s'. beside s' refl refl)
  run_command-SoundIf ChatCommand.lock st s = said now _ _ (beside s refl refl)
  run_command-SoundIf ChatCommand.unlock st s = said now _ _ (beside s refl refl)
  run_command-SoundIf (ChatCommand.check name) st s = check_found-SoundIf now pid name _ st s
  run_command-SoundIf ChatCommand.check_me st s =
      check_self-SoundIf now pid (by_pid st.players pid) st s
  run_command-SoundIf (ChatCommand.announce msg) st s =
      set_announcement-SoundIf now pid msg (words msg) st s
  run_command-SoundIf (ChatCommand.auto_start num) st s = set_auto_start-SoundIf now num st s
  run_command-SoundIf ChatCommand.refresh st s =
      told now pid _ _ (Keeps-Sound (send_all_slot_info-Keeps now st) s)
  run_command-SoundIf (ChatCommand.virtual_host vname) st s = said now _ _ (beside s refl refl)
  run_command-SoundIf (ChatCommand.comp slot team colour race computer_type handicap) st s =
      is_sound (show_change-Sound now _ st s)
  run_command-SoundIf (ChatCommand.comp_colour slot v) st s =
      is_sound (show_change-Sound now _ st s)
  run_command-SoundIf (ChatCommand.comp_race slot v) st s = is_sound (show_change-Sound now _ st s)
  run_command-SoundIf (ChatCommand.comp_handicap slot v) st s =
      is_sound (show_change-Sound now _ st s)
  run_command-SoundIf (ChatCommand.comp_team slot v) st s = is_sound (show_change-Sound now _ st s)
  run_command-SoundIf (ChatCommand.download name) st s =
      if_sound (is_empty_text name) (download_to-SoundIf now pid pid st s)
        (download_found-SoundIf now pid name _ st s)
  run_command-SoundIf ChatCommand.db_status st s = told now pid _ st s
  run_command-SoundIf ChatCommand.fake_player st s =
      tell_maybe-SoundIf now pid (toggle_text st) _ (toggle_fake_player-Sound now fake_link st s)
  run_command-SoundIf ChatCommand.fp_pause st s =
      fake_action-SoundIf now pid _ 1 st.fake_player_pid st s
  run_command-SoundIf ChatCommand.fp_resume st s =
      fake_action-SoundIf now pid _ 2 st.fake_player_pid st s
  run_command-SoundIf ChatCommand.from st s = tell_lines-SoundIf now pid _ st s
  run_command-SoundIf (ChatCommand.messages opt) st s = set_messages-SoundIf now pid opt st s
  run_command-SoundIf (ChatCommand.send_lan ip port) st s = told now pid _ st s
  run_command-SoundIf (ChatCommand.pub_game name) st s =
      rehost-SoundIf now (text "public") name st s
  run_command-SoundIf (ChatCommand.priv_game name) st s =
      rehost-SoundIf now (text "private") name st s
  run_command-SoundIf (ChatCommand.mute_lobby opt) st s = said now _ _ (beside s refl refl)
  run_command-SoundIf (ChatCommand.unknown v) st s = told now pid _ st s
