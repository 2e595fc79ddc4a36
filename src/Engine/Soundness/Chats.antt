-- ===== src/Engine/Soundness/Chats.antt =====
-- The chat commands of crates/spectre-engine/src/chat.rs keep a game sound.
use ghostrs.Engine.Chat.Words.{is_empty_text, parse_u64}
use ghostrs.Engine.Rejoin.{eq_ignore_ascii_case}
use ghostrs.Engine.Keeps.Handlers.{at_pid}
use ghostrs.Engine.Chat.Settings.{
  fake_action, act_as_fake, rehost, set_messages, set_owner, set_auto_start, set_announcement,
  announce_every, set_latency, set_sync_limit,
}
use ghostrs.Engine.Chat.Votes.{
  left_code_of, has_voted, vote_draw, vote_yes, count_kick, vote_kick_found, count_start, set_muted,
  ban_last_leaver, tell_store, ban_found, kick_found,
}
use ghostrs.Engine.Chat.Start.{start_refusal, start_unless, start_command}
use ghostrs.Engine.Chat.Seats.{show_all, show_change}
use ghostrs.Engine.Announce.{send_all_slot_info, send_chat_to, send_chat_all}
use ghostrs.Base.{
  inr, arith, inl, length, ◌/◌, Bool-cases, if◌then◌else◌, Option, ℕ, Bool, true, false, none, some,
  List, [], ◌∷◌, refl, ◌&&◌, not, leb, ◌++◌, text, ◌+◌, All-append,
}
use ghostrs.Protocol.Buffer.{Bytes}
use ghostrs.Protocol.W3gs.Outgoing.{ActionBlock}
use ghostrs.Engine.Actions.Batches.{IsSmall}
use ghostrs.Engine.Soundness.{
  beside, start_countdown-Sound, Sound, SoundIf, is_sound, Still-Sound, Keeps-Sound, bind_sound,
  map_sound, if_sound, if_Sound_state,
}
use ghostrs.Engine.Keeps.{
  kick_player-Keeps, send_all_slot_info-Keeps, send_chat_all-Still, send_chat_to-Still,
}
use ghostrs.Engine.State.{is_playing, is_in_lobby, add_ban, GameState, StoreCmd}
use ghostrs.Engine.Slots.{SlotTable}
use ghostrs.Engine.Players.{human_count, no_match, ambiguous}
use ghostrs.Engine.Chat.Names.{NameResult, found, missed}

module _ (now : ℕ) where
  pub said : (msg : Bytes) (st : GameState) → Sound st → SoundIf (send_chat_all now msg st)
  said msg st s = Still-Sound (send_chat_all-Still now msg st) s

  pub told :
      (pid : ℕ) (msg : Bytes) (st : GameState) → Sound st → SoundIf (send_chat_to now pid msg st)
  told pid msg st s = Still-Sound (send_chat_to-Still now pid msg st) s

  pub show_change-Sound :
      (r : Bool × SlotTable) (st : GameState) → Sound st → Sound (show_change now r st)
  show_change-Sound (changed, slots) st s =
      let st' : GameState = record st { slots = slots } in
      let s' : Sound st' = beside s refl refl in
      if_Sound_state changed (Keeps-Sound (send_all_slot_info-Keeps now st') s') s'

  pub show_all-SoundIf :
      (msg : Bytes) (slots : SlotTable) (st : GameState)
      → Sound st
      → SoundIf (show_all now msg slots st)
  show_all-SoundIf msg slots st s =
      let st' : GameState = record st { slots = slots } in
      said msg (send_all_slot_info now st')
        (Keeps-Sound (send_all_slot_info-Keeps now st') (beside s refl refl))

  pub start_command-SoundIf :
      (pid : ℕ) (force : Bool) (st : GameState)
      → Sound st
      → SoundIf (start_command now pid force st)
  unfolding start_command
  start_command-SoundIf pid force st s = started (if force then none else start_refusal now st)
    where
      started : (o : Option Bytes) → SoundIf (start_unless now pid o st)
      started none = is_sound (start_countdown-Sound now st s)
      started (some msg) = told pid msg st s

  pub kick_found-SoundIf :
      (pid : ℕ) (name : Bytes) (r : NameResult) (st : GameState)
      → Sound st
      → SoundIf (kick_found now pid name r st)
  kick_found-SoundIf pid name (found p) st s =
      is_sound (Keeps-Sound (kick_player-Keeps p.pid _ _ st) s)
  kick_found-SoundIf pid name (missed no_match) st s = told pid _ st s
  kick_found-SoundIf pid name (missed (ambiguous n)) st s = told pid _ st s

  pub ban_found-Sound :
      (reason : Bytes) (r : NameResult) (st : GameState) → Sound st → Sound (ban_found reason r st)
  ban_found-Sound reason (found p) st s = Keeps-Sound (kick_player-Keeps p.pid _ _ st) s
  ban_found-Sound reason (missed m) st s = s

  pub tell_store-Sound : (cmd : StoreCmd) (st : GameState) → Sound st → Sound (tell_store cmd st)
  unfolding tell_store
  tell_store-Sound cmd st s = beside s refl refl

  pub ban_last-SoundIf :
      (pid : ℕ) (caller reason : Bytes) (o : Option (Bytes × Bytes)) (st : GameState)
      → Sound st
      → SoundIf (ban_last_leaver now pid caller reason o st)
  ban_last-SoundIf pid caller reason none st s = told pid _ st s
  ban_last-SoundIf pid caller reason (some (name, ip)) st s =
      said _ _ (tell_store-Sound (add_ban name ip caller reason) st s)

  pub set_muted-SoundIf :
      (muted : Bool) (how : Bytes) (r : NameResult) (st : GameState)
      → Sound st
      → SoundIf (set_muted now muted how r st)
  set_muted-SoundIf muted how (missed m) st s = is_sound s
  set_muted-SoundIf muted how (found p) st s =
      said _ _ (Keeps-Sound (at_pid p.pid (λ q. record q { muted = muted }) st (λ q. refl)) s)

  pub count_start-SoundIf : (pid : ℕ) (st : GameState) → Sound st → SoundIf (count_start now pid st)
  count_start-SoundIf pid st s = if_sound (has_voted pid st.start_votes) (is_sound s) (
      bind_sound _ (said _ _ (beside s refl refl)) (λ st' s'. is_sound (
        if_Sound_state (leb (human_count st.players / 2 + 1) (length (st.start_votes ++ pid ∷ [])))
          (start_countdown-Sound now st' s') s')))

  pub vote_kick_found-SoundIf :
      (pid : ℕ) (name : Bytes) (r : NameResult) (st : GameState)
      → Sound st
      → SoundIf (vote_kick_found now pid name r st)
  vote_kick_found-SoundIf pid name (missed m) st s = told pid _ st s
  vote_kick_found-SoundIf pid name (found p) st s = said _ _ (beside s refl refl)

  count_kick-Sound :
      (target votes needed : ℕ) (st : GameState)
      → Sound st
      → Sound (count_kick target votes needed st)
  count_kick-Sound target votes needed st s =
      let s' = Keeps-Sound (kick_player-Keeps target (text "voted out") (left_code_of st) st) s in
      if_Sound_state (leb needed votes) (beside s' refl refl) s

  pub vote_yes-SoundIf :
      (pid : ℕ) (o : Option ℕ) (st : GameState) → Sound st → SoundIf (vote_yes now pid o st)
  vote_yes-SoundIf pid none st s = is_sound s
  vote_yes-SoundIf pid (some target) st s =
      if_sound (has_voted pid st.votekick_votes) (is_sound s)
        (map_sound _ (said _ _ (beside s refl refl)) (λ st' s'. count_kick-Sound target _ _ st' s'))

  pub vote_draw-SoundIf : (pid : ℕ) (st : GameState) → Sound st → SoundIf (vote_draw now pid st)
  vote_draw-SoundIf pid st s = if_sound (has_voted pid st.draw_votes) (is_sound s) (
      bind_sound _ (said _ _ (beside s refl refl)) (λ st' s'.
        if_sound (leb (human_count st.players) (length (st.draw_votes ++ pid ∷ [])))
          (map_sound _ (said _ st' s') (λ st2 s2. beside s2 refl refl)) (is_sound s')))

  pub set_sync_limit-SoundIf :
      (pid : ℕ) (o : Option ℕ) (st : GameState) → Sound st → SoundIf (set_sync_limit now pid o st)
  set_sync_limit-SoundIf pid none st s = told pid _ st s
  set_sync_limit-SoundIf pid (some n) st s = told pid _ _ (beside s refl refl)

  pub set_latency-SoundIf :
      (pid : ℕ) (o : Option ℕ) (st : GameState) → Sound st → SoundIf (set_latency now pid o st)
  set_latency-SoundIf pid none st s = told pid _ st s
  set_latency-SoundIf pid (some n) st s = told pid _ _ (beside s refl refl)

  announce_every-SoundIf :
      (msg : Bytes) (parts : List Bytes) (o : Option ℕ) (st : GameState)
      → Sound st
      → SoundIf (announce_every now msg parts o st)
  announce_every-SoundIf msg parts none st s = said _ _ (beside s refl refl)
  announce_every-SoundIf msg parts (some n) st s = said _ _ (beside s refl refl)

  pub set_announcement-SoundIf :
      (pid : ℕ) (msg : Bytes) (parts : List Bytes) (st : GameState)
      → Sound st
      → SoundIf (set_announcement now pid msg parts st)
  set_announcement-SoundIf pid msg [] st s = told pid _ _ (beside s refl refl)
  set_announcement-SoundIf pid msg (first ∷ parts) st s =
      if_sound (eq_ignore_ascii_case first (text "off")) (told pid _ _ (beside s refl refl))
        (announce_every-SoundIf msg parts (parse_u64 first) st s)

  pub set_auto_start-SoundIf :
      (o : Option ℕ) (st : GameState) → Sound st → SoundIf (set_auto_start now o st)
  set_auto_start-SoundIf none st s = said _ _ (beside s refl refl)
  set_auto_start-SoundIf (some n) st s = said _ _ (beside s refl refl)

  pub set_owner-SoundIf :
      (pid : ℕ) (o : Option Bytes) (st : GameState) → Sound st → SoundIf (set_owner now pid o st)
  set_owner-SoundIf pid none st s = told pid _ st s
  set_owner-SoundIf pid (some o) st s = said _ _ (beside s refl refl)

  pub set_messages-SoundIf :
      (pid : ℕ) (o : Option Bool) (st : GameState) → Sound st → SoundIf (set_messages now pid o st)
  set_messages-SoundIf pid none st s = told pid _ st s
  set_messages-SoundIf pid (some true) st s = told pid _ _ (beside s refl refl)
  set_messages-SoundIf pid (some false) st s = told pid _ _ (beside s refl refl)

  pub rehost-SoundIf :
      (how name : Bytes) (st : GameState) → Sound st → SoundIf (rehost now how name st)
  rehost-SoundIf how name st s =
      if_sound (is_in_lobby st.phase && not (is_empty_text name))
        (map_sound _ (said _ _ (beside s refl refl)) (λ st' s'. beside s' refl refl)) (is_sound s)

  act_as_fake-SoundIf :
      (pid : ℕ) (msg : Bytes) (act : ActionBlock) (st : GameState)
      → IsSmall act
      → Sound st
      → SoundIf (act_as_fake now pid msg (some act) st)
  act_as_fake-SoundIf pid msg act st small s = told pid msg _ (record {
    distinct = s.distinct;
    small = All-append IsSmall st.actions (act ∷ []) s.small (small, tt);
  })

  -- The byte that pauses a game, or resumes it.
  pub fake_action-SoundIf :
      (pid : ℕ) (msg : Bytes) (byte : ℕ) (o : Option ℕ) (st : GameState)
      → Sound st
      → SoundIf (act_as_fake now pid msg (fake_action (byte ∷ []) o st) st)
  fake_action-SoundIf pid msg byte none st s = is_sound s
  fake_action-SoundIf pid msg byte (some fpid) st s = elim (Bool-cases (is_playing st.phase)) [
    | inl live ↦ rw live (
        act_as_fake-SoundIf pid msg (record { pid = fpid; actions = byte ∷ [] }) st (omega arith) s)
    | inr not_live ↦ rw not_live (is_sound s)
  ]
