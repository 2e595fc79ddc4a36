-- ===== src/Engine/Soundness/Lines.antt =====
-- `handle_chat_to_host` of crates/spectre-engine/src/chat.rs keeps a game sound.
use ghostrs.Engine.Soundness.Commands.{run_command-SoundIf}
use ghostrs.Engine.Broadcast.{send_to}
use ghostrs.Protocol.W3gs.Outgoing.{chat_from_host}
use ghostrs.Engine.Chat.Words.{same_text}
use ghostrs.Engine.Chat.Parse.{parse_command}
use ghostrs.Engine.Soundness.Chats.{show_change-Sound, told}
use ghostrs.Engine.Chat.Handle.{
  trigger, is_slot_flag, is_public, is_owner, audience, handle_chat_to_host, chat_from,
  chat_decoded, command_or_line, record_chat, relay_line, send_each,
}
use ghostrs.Base.{Option, ℕ, Bool, none, some, List, [], ◌∷◌, refl, ◌&&◌, ◌||◌, not, text, ◌==◌}
use ghostrs.Protocol.Buffer.{Bytes}
use ghostrs.Protocol.Error.{Result, ok, err}
use ghostrs.Protocol.W3gs.Incoming.{run, ChatToHost, chat_to_host}
use ghostrs.Engine.Link.{PlayerLink}
use ghostrs.Engine.Soundness.{
  Sound, SoundIf, is_sound, Keeps-Sound, bind_sound, if_sound, if_Sound_state,
}
use ghostrs.Engine.Keeps.{broadcast-Keeps, send_to-Keeps, Keeps, same, kept, and_then, if_kept}
use ghostrs.Engine.State.{is_in_lobby, is_in_game, is_before_game, GameState, Hold}
use ghostrs.Engine.Players.{by_conn, Player}
use ghostrs.Engine.Chat.Handle.{chat_line}
use ghostrs.Engine.Chat.{ChatCommand}

-- A line for others.
send_each-Keeps :
    (now : ℕ) (b to_pids : Bytes) (st : GameState) → Keeps st (send_each now b to_pids st)
unfolding send_each
send_each-Keeps now b [] st = same
send_each-Keeps now b (to ∷ pids) st =
    and_then (send_to-Keeps now to b st) (send_each-Keeps now b pids (send_to now to b st))

relay_line-Keeps :
    (now : ℕ) (to_pids : Bytes) (r : Result Bytes) (st : GameState)
    → Keeps st (relay_line now to_pids r st)
relay_line-Keeps now to_pids (err e) st = same
relay_line-Keeps now to_pids (ok b) st =
    if_kept (is_before_game st.phase) (send_each-Keeps now b to_pids st) (broadcast-Keeps now b st)

record_chat-Keeps :
    (p : Player) (chat : ChatToHost) (st : GameState) → Keeps st (record_chat p chat st)
record_chat-Keeps p chat st = if_kept (is_in_game st.phase) (kept refl refl refl) same

chat_line-Keeps :
    (now : ℕ) (p : Player) (owns : Bool) (chat : ChatToHost) (st : GameState)
    → Keeps st (chat_line now p owns chat st)
chat_line-Keeps now p owns chat st =
    let st' = record_chat p chat st in
    let k = record_chat-Keeps p chat st in
    let to_pids = audience p.pid chat.to_pids st'.players in
    if_kept ((p.muted || st.muted_all) && not owns) same (
      if_kept (is_in_lobby st.phase && st.mute_lobby) k (
        and_then k (
          relay_line-Keeps now to_pids
            (chat_from_host p.pid to_pids chat.flag chat.extra chat.message) st')))

module _ (words : Bytes → List Bytes) (lowercase : Bytes → Bytes) (random : ℕ → ℕ)
    (order : List Hold → List Hold) (dota : Option (Bytes → Option Bytes)) (fake_link : PlayerLink)
    (now : ℕ) where
  command_or_line-SoundIf :
      (p : Player) (chat : ChatToHost) (o : Option ChatCommand) (st : GameState)
      → Sound st
      → SoundIf (command_or_line words lowercase random order dota fake_link now p chat o st)
  command_or_line-SoundIf p chat none st s =
      is_sound (Keeps-Sound (chat_line-Keeps now p (is_owner p.name st) chat st) s)
  command_or_line-SoundIf p chat (some cmd) st s =
      if_sound (is_owner p.name st || is_public cmd)
        (run_command-SoundIf words lowercase random order dota fake_link now p.pid p.name cmd st s)
        (told now p.pid _ st s)

  chat_decoded-SoundIf :
      (p : Player) (r : Result ChatToHost) (st : GameState)
      → Sound st
      → SoundIf (chat_decoded words lowercase random order dota fake_link now p r st)
  chat_decoded-SoundIf p (err e) st s = is_sound s
  chat_decoded-SoundIf p (ok chat) st s =
      if_sound (chat.from_pid == p.pid)
        (bind_sound _
          (if_sound (same_text chat.message (text "?trigger")) (told now p.pid _ st s) (is_sound s))
          (λ st' s'.
            if_sound (is_slot_flag chat.flag)
              (is_sound
                (if_Sound_state (is_in_lobby st'.phase) (show_change-Sound now _ st' s') s'))
              (command_or_line-SoundIf p chat (parse_command words lowercase trigger chat.message)
                st' s')))
        (is_sound s)

  chat_from-SoundIf :
      (o : Option Player) (payload : Bytes) (st : GameState)
      → Sound st
      → SoundIf (chat_from words lowercase random order dota fake_link now o payload st)
  chat_from-SoundIf none payload st s = is_sound s
  chat_from-SoundIf (some p) payload st s = chat_decoded-SoundIf p (run chat_to_host payload) st s

  pub handle_chat_to_host-SoundIf :
      (conn_id : ℕ) (payload : Bytes) (st : GameState)
      → Sound st
      → SoundIf
          (handle_chat_to_host words lowercase random order dota fake_link now conn_id payload st)
  unfolding handle_chat_to_host
  handle_chat_to_host-SoundIf conn_id payload st s =
      chat_from-SoundIf (by_conn st.players conn_id) payload st s
