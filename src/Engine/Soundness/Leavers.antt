-- ===== src/Engine/Soundness/Leavers.antt =====
-- `reap_left_players` of crates/spectre-engine/src/state.rs keeps a game sound, whoever leaves.
use ghostrs.Engine.Keeps.Starts.{play_if-Still}
use ghostrs.Engine.Reap.{
  is_ready_after, unseat, is_gone, reap_left_players, reap_gone, abort_countdown, reap_all,
  reap_one, remember,
}
use ghostrs.Base.{Option, ℕ, none, some, [], ◌∷◌, refl, text}
use ghostrs.Protocol.Buffer.{Bytes}
use ghostrs.Engine.Soundness.{
  beside, Sound, SoundIf, is_sound, Still-Sound, Keeps-Sound, bind_sound, remove-Sound,
}
use ghostrs.Engine.Announce.{broadcast_some}
use ghostrs.Protocol.W3gs.Outgoing.{player_leave_others}
use ghostrs.Engine.Keeps.{
  send_chat_all-Still, send_all_slot_info-Keeps, broadcast_some-Keeps, Keeps, Still, goes, same,
  kept, behind, and_then, if_kept,
}
use ghostrs.Engine.State.{
  is_in_lobby, GameState, GamePhase, lobby, loading, playing, over, countdown,
}
use ghostrs.Engine.Players.{by_pid, Player, PlayerTable, filter}

remember-Keeps : (o : Option Player) (st : GameState) → Keeps st (remember o st)
remember-Keeps none st = same
remember-Keeps (some p) st = kept refl refl refl

module _ (show_secs : ℕ → Bytes) (now : ℕ) where
  reap_one-Sound : (p : Player) (st : GameState) → Sound st → Sound (reap_one show_secs now p st)
  reap_one-Sound p st s =
      let noted = remember (by_pid st.players p.pid) st in
      let gone = unseat p.pid p.left_code noted in
      let told = broadcast_some now (player_leave_others p.pid p.left_code) gone in
      let s' = Keeps-Sound (remember-Keeps (by_pid st.players p.pid) st) s in
      Keeps-Sound
        (and_then (broadcast_some-Keeps now (player_leave_others p.pid p.left_code) gone)
          (if_kept (is_in_lobby told.phase) (send_all_slot_info-Keeps now told) same))
        (record { distinct = remove-Sound noted p.pid s'; small = s'.small })

  reap_all-Sound :
      (gone : PlayerTable) (st : GameState) → Sound st → Sound (reap_all show_secs now gone st)
  unfolding reap_all
  reap_all-Sound [] st s = s
  reap_all-Sound (p ∷ gone) st s =
      reap_all-Sound gone (reap_one show_secs now p st) (reap_one-Sound p st s)

  abort_countdown-Still :
      (phase : GamePhase) (st : GameState) → Still st (abort_countdown show_secs now phase st)
  abort_countdown-Still (countdown a b c) st =
      let back : GameState = record st { phase = lobby } in
      behind {st = st} {st' = back} (kept refl refl refl)
        (send_chat_all-Still now (text "Countdown aborted.") back)
  abort_countdown-Still lobby st = goes same
  abort_countdown-Still loading st = goes same
  abort_countdown-Still playing st = goes same
  abort_countdown-Still over st = goes same

  reap_gone-SoundIf :
      (gone : PlayerTable) (st : GameState) → Sound st → SoundIf (reap_gone show_secs now gone st)
  reap_gone-SoundIf [] st s = is_sound s
  reap_gone-SoundIf (p ∷ gone) st s =
      bind_sound _ (Still-Sound (abort_countdown-Still st.phase st) s) (λ st1 s1.
        let noted : GameState = record st1 { last_player_left_time = some now } in
        let st2 = reap_all show_secs now (p ∷ gone) noted in
        Still-Sound (play_if-Still show_secs now (is_ready_after show_secs now st2) st2)
          (reap_all-Sound (p ∷ gone) noted (beside s1 refl refl)))

  pub reap_left_players-SoundIf :
      (st : GameState) → Sound st → SoundIf (reap_left_players show_secs now st)
  unfolding reap_left_players
  reap_left_players-SoundIf st s =
      reap_gone-SoundIf (filter (is_gone show_secs now) st.players) st s
