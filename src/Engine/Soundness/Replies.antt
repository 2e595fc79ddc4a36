-- ===== src/Engine/Soundness/Replies.antt =====
-- The commands of crates/spectre-engine/src/chat.rs that answer keep a game sound.
use ghostrs.Protocol.W3gs.Outgoing.{start_download}
use ghostrs.Engine.Keeps.Handlers.{at_pid}
use ghostrs.Engine.Soundness.Chats.{said, told}
use ghostrs.Engine.Chat.Run.{abort_at, tell_maybe}
use ghostrs.Engine.Chat.Reports.{
  asked_lately, stats_of, whisper_found, tell_lines, dota_of, download_found, download_to,
  allow_download, check_self, check_found,
}
use ghostrs.Base.{Option, ℕ, true, none, some, List, [], ◌∷◌, refl}
use ghostrs.Protocol.Buffer.{Bytes}
use ghostrs.Engine.Soundness.{
  beside, Sound, SoundIf, is_sound, Keeps-Sound, bind_sound, map_sound, if_sound,
}
use ghostrs.Engine.Keeps.{send_some-Keeps}
use ghostrs.Engine.State.{host_pid, GameState, GamePhase, lobby, loading, playing, over, countdown}
use ghostrs.Engine.Players.{Player, by_pid}
use ghostrs.Engine.Chat.Names.{NameResult, found, missed}

module _ (now : ℕ) where
  pub check_found-SoundIf :
      (pid : ℕ) (name : Bytes) (r : NameResult) (st : GameState)
      → Sound st
      → SoundIf (check_found now pid name r st)
  check_found-SoundIf pid name (found p) st s = told now pid _ st s
  check_found-SoundIf pid name (missed m) st s = told now pid _ st s

  pub check_self-SoundIf :
      (pid : ℕ) (o : Option Player) (st : GameState) → Sound st → SoundIf (check_self now pid o st)
  check_self-SoundIf pid none st s = is_sound s
  check_self-SoundIf pid (some p) st s = told now pid _ st s

  allow_download-SoundIf :
      (pid target : ℕ) (o : Option Player) (st : GameState)
      → Sound st
      → SoundIf (allow_download now pid target o st)
  allow_download-SoundIf pid target none st s = is_sound s
  allow_download-SoundIf pid target (some p) st s =
      told now pid _ _
        (Keeps-Sound (at_pid target (λ q. record q { download_allowed = true }) st (λ q. refl)) s)

  pub download_to-SoundIf :
      (pid target : ℕ) (st : GameState) → Sound st → SoundIf (download_to now pid target st)
  download_to-SoundIf pid target st s =
      map_sound _ (allow_download-SoundIf pid target (by_pid st.players target) st s)
        (λ st' s'. Keeps-Sound (send_some-Keeps now target (start_download (host_pid st')) st') s')

  pub download_found-SoundIf :
      (pid : ℕ) (name : Bytes) (r : NameResult) (st : GameState)
      → Sound st
      → SoundIf (download_found now pid name r st)
  download_found-SoundIf pid name (found p) st s = download_to-SoundIf pid p.pid st s
  download_found-SoundIf pid name (missed m) st s = told now pid _ st s

  pub stats_of-SoundIf :
      (pid : ℕ) (target : Bytes) (o : Option Player) (st : GameState)
      → Sound st
      → SoundIf (stats_of now pid target o st)
  stats_of-SoundIf pid target none st s = told now pid _ st s
  stats_of-SoundIf pid target (some p) st s =
      if_sound (asked_lately now p.stats_sent_time) (is_sound s) (
        told now pid _ _ (
          Keeps-Sound (at_pid pid (λ q. record q { stats_sent_time = some now }) st (λ q. refl)) s))

  pub dota_of-SoundIf :
      (pid : ℕ) (target : Bytes) (dota : Option (Bytes → Option Bytes)) (o : Option Player)
      (st : GameState)
      → Sound st
      → SoundIf (dota_of now pid target dota o st)
  dota_of-SoundIf pid target dota none st s = told now pid _ st s
  dota_of-SoundIf pid target dota (some p) st s =
      if_sound (asked_lately now p.stats_dota_sent_time) (is_sound s) (
        told now pid _ _ (
          Keeps-Sound
            (at_pid pid (λ q. record q { stats_dota_sent_time = some now }) st (λ q. refl)) s))

  pub tell_lines-SoundIf :
      (pid : ℕ) (lines : List Bytes) (st : GameState)
      → Sound st
      → SoundIf (tell_lines now pid lines st)
  unfolding tell_lines
  tell_lines-SoundIf pid [] st s = is_sound s
  tell_lines-SoundIf pid (line ∷ lines) st s =
      bind_sound _ (told now pid line st s) (λ st' s'. tell_lines-SoundIf pid lines st' s')

  pub whisper_found-SoundIf :
      (pid : ℕ) (caller user message : Bytes) (r : NameResult) (st : GameState)
      → Sound st
      → SoundIf (whisper_found now pid caller user message r st)
  whisper_found-SoundIf pid caller user message (missed m) st s = told now pid _ st s
  whisper_found-SoundIf pid caller user message (found p) st s =
      bind_sound _ (told now p.pid _ st s) (λ st' s'. told now pid _ st' s')

  pub abort_at-SoundIf :
      (phase : GamePhase) (st : GameState) → Sound st → SoundIf (abort_at now phase st)
  abort_at-SoundIf (countdown a b c) st s = said now _ _ (beside s refl refl)
  abort_at-SoundIf lobby st s = is_sound s
  abort_at-SoundIf loading st s = is_sound s
  abort_at-SoundIf playing st s = is_sound s
  abort_at-SoundIf over st s = is_sound s

  pub tell_maybe-SoundIf :
      (pid : ℕ) (o : Option Bytes) (st : GameState) → Sound st → SoundIf (tell_maybe now pid o st)
  tell_maybe-SoundIf pid none st s = is_sound s
  tell_maybe-SoundIf pid (some msg) st s = told now pid msg st s
