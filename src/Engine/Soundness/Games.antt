-- ===== src/Engine/Soundness/Games.antt =====
-- The rounds of `run` (crates/spectre-engine/src/actor.rs), and the games that they reach.
use ghostrs.Engine.Actions.{send_all_actions, begin_tick, interval_of, new_winner}
use ghostrs.Engine.Actions.Batches.{send_all_actions-IsTick, IsTick}
use ghostrs.Engine.Desync.Rounds.{check_desync_ends, waiting}
use ghostrs.Engine.Keeps.{send_chat_all-Still}
use ghostrs.Engine.Keeps.Starts.{handle_loaded-Still}
use ghostrs.Engine.Keeps.Votes.{handle_keepalive-Still}
use ghostrs.Engine.Keeps.Handlers.{
  handle_drop_request-Keeps, handle_map_part_not_ok-Keeps, handle_map_part_ok-Keeps,
  handle_pong-Keeps, handle_conn_closed-Keeps, reconnect_in-Keeps, on_iccup_gps_frame-Keeps,
  on_gps_frame-Keeps, handle_leave-Keeps,
}
use ghostrs.Base.{refl, ◌<◌, Option, ℕ, some, List, ◌≡◌, ◌==◌, subst}
use ghostrs.Protocol.Buffer.{Bytes}
use ghostrs.Protocol.Frame.{Frame}
use ghostrs.Protocol.W3gs.Ids
use ghostrs.Net.Conn.{AnyFrame, w3gs, gps, iccup_gps, dota_tv}
use ghostrs.Engine.Link.{PlayerLink}
use ghostrs.Engine.Soundness.{
  beside, Sound, SoundIf, is_sound, Still-Sound, Keeps-Sound, bind_sound, if_sound, if_Sound_state,
  toggle_fake_player-Sound, create_virtual_host-Sound, start_countdown-Sound,
}
use ghostrs.Engine.State.{is_in_lobby, add_conn, GameState, Hold}
use ghostrs.Engine.Desync.{check_desync, Bin}
use ghostrs.Engine.Actor.{
  serve_tick, serve_cmd, handle_cmd, on_frame, on_w3gs_frame, GameCmd, new_conn, adopt_reconnect,
  conn_frame, conn_closed, start, chat_line, unhost, toggle_fake, make_virtual_host, shutdown,
}
use ghostrs.Engine.Soundness.Joins.{handle_req_join-Sound}
use ghostrs.Engine.Soundness.Sending.{handle_action-Sound}
use ghostrs.Engine.Soundness.Loading.{handle_map_size-SoundIf}
use ghostrs.Engine.Soundness.Lines.{handle_chat_to_host-SoundIf}
use ghostrs.Engine.Soundness.Rounds.{on_tick-SoundIf}
use ghostrs.Engine.Soundness.Leavers.{reap_left_players-SoundIf}

module _ (show_secs : ℕ → Bytes) (crc32 : Bytes → ℕ) (order : List Bin → List Bin)
    (words : Bytes → List Bytes) (lowercase : Bytes → Bytes) (random : ℕ → ℕ)
    (order_holds : List Hold → List Hold) (dota : Option (Bytes → Option Bytes)) (key : ℕ)
    (fake_link : PlayerLink) (fuel now : ℕ) where
  on_w3gs_frame-SoundIf :
      (conn_id : ℕ) (frame : Frame) (st : GameState)
      → Sound st
      → SoundIf (
          on_w3gs_frame show_secs crc32 order words lowercase random order_holds dota key fake_link
            fuel now conn_id frame st)
  unfolding on_w3gs_frame
  on_w3gs_frame-SoundIf conn_id frame st s =
      if_sound (frame.id == Ids.req_join)
        (is_sound (handle_req_join-Sound now key conn_id frame.payload st s))
        (if_sound (frame.id == Ids.leave_game)
          (is_sound (Keeps-Sound (handle_leave-Keeps conn_id _ st) s))
          (if_sound (frame.id == Ids.outgoing_action)
            (is_sound (handle_action-Sound conn_id frame.payload st s))
            (if_sound (frame.id == Ids.outgoing_keepalive)
              (Still-Sound (handle_keepalive-Still order now fuel conn_id frame.payload st) s)
              (if_sound (frame.id == Ids.chat_to_host)
                (handle_chat_to_host-SoundIf words lowercase random order_holds dota fake_link now
                  conn_id frame.payload st s)
                (if_sound (frame.id == Ids.game_loaded_self)
                  (Still-Sound (handle_loaded-Still show_secs now conn_id st) s)
                  (if_sound (frame.id == Ids.pong_to_host)
                    (is_sound (Keeps-Sound (handle_pong-Keeps now conn_id frame.payload st) s))
                    (if_sound (frame.id == Ids.map_size)
                      (handle_map_size-SoundIf show_secs now conn_id frame.payload st s)
                      (if_sound (frame.id == Ids.map_part_ok)
                        (is_sound
                          (Keeps-Sound (handle_map_part_ok-Keeps conn_id frame.payload st) s))
                        (if_sound (frame.id == Ids.map_part_not_ok)
                          (is_sound
                            (Keeps-Sound (handle_map_part_not_ok-Keeps conn_id frame.payload st) s))
                          (if_sound (frame.id == Ids.drop_req)
                            (is_sound (Keeps-Sound (handle_drop_request-Keeps st) s))
                            (is_sound s)))))))))))

  on_frame-SoundIf :
      (conn_id : ℕ) (frame : AnyFrame) (st : GameState)
      → Sound st
      → SoundIf (
          on_frame show_secs crc32 order words lowercase random order_holds dota key fake_link fuel
            now conn_id frame st)
  unfolding on_frame
  on_frame-SoundIf conn_id (w3gs f) st s = on_w3gs_frame-SoundIf conn_id f st s
  on_frame-SoundIf conn_id (gps f) st s = is_sound (Keeps-Sound (on_gps_frame-Keeps conn_id f st) s)
  on_frame-SoundIf conn_id (iccup_gps f) st s =
      is_sound (Keeps-Sound (on_iccup_gps_frame-Keeps conn_id f st) s)
  on_frame-SoundIf conn_id (dota_tv f) st s = is_sound s

  handle_cmd-SoundIf :
      (cmd : GameCmd) (st : GameState)
      → Sound st
      → SoundIf (
          handle_cmd show_secs crc32 order words lowercase random order_holds dota key fake_link
            fuel now cmd st)
  unfolding handle_cmd add_conn
  handle_cmd-SoundIf (new_conn conn_id link external_ip) st s = is_sound (beside s refl refl)
  handle_cmd-SoundIf (adopt_reconnect conn_id req link) st s =
      is_sound (Keeps-Sound (reconnect_in-Keeps conn_id req link st) s)
  handle_cmd-SoundIf (conn_frame conn_id frame) st s = on_frame-SoundIf conn_id frame st s
  handle_cmd-SoundIf (conn_closed conn_id reason) st s =
      is_sound (Keeps-Sound (handle_conn_closed-Keeps now conn_id reason st) s)
  handle_cmd-SoundIf start st s = is_sound (start_countdown-Sound now st s)
  handle_cmd-SoundIf (chat_line msg) st s = Still-Sound (send_chat_all-Still now msg st) s
  handle_cmd-SoundIf unhost st s =
      is_sound (if_Sound_state (is_in_lobby st.phase) (beside s refl refl) s)
  handle_cmd-SoundIf toggle_fake st s = is_sound (toggle_fake_player-Sound now fake_link st s)
  handle_cmd-SoundIf make_virtual_host st s = is_sound (create_virtual_host-Sound now st s)
  handle_cmd-SoundIf shutdown st s = is_sound (beside s refl refl)

  serve_cmd-SoundIf :
      (cmd : GameCmd) (st : GameState)
      → Sound st
      → SoundIf (
          serve_cmd show_secs crc32 order words lowercase random order_holds dota key fake_link fuel
            now cmd st)
  unfolding serve_cmd
  serve_cmd-SoundIf cmd st s =
      bind_sound _ (handle_cmd-SoundIf cmd st s)
        (λ st' s'. reap_left_players-SoundIf show_secs now st' s')

  serve_tick-SoundIf :
      (winner : Option Bytes) (skipped : ℕ) (st : GameState)
      → Sound st
      → SoundIf (
          serve_tick show_secs crc32 order words lowercase random order_holds dota key fake_link
            fuel now winner skipped st)
  unfolding serve_tick
  serve_tick-SoundIf winner skipped st s =
      bind_sound _ (on_tick-SoundIf show_secs crc32 order fuel now winner skipped st s)
        (λ st' s'. reap_left_players-SoundIf show_secs now st' s')

Sound-some : (o : Option GameState) (st : GameState) → SoundIf o → o ≡ some st → Sound st
Sound-some o st h e = out (subst SoundIf e h)
  where
    out : SoundIf (some st) → Sound st
    out (is_sound s) = s

-- A round of the loop, with a command or with a tick, whatever the environment answers.
pub data Serves (st : GameState) : GameState → Type 0 where
  serves_cmd :
      (show_secs : ℕ → Bytes) (crc32 : Bytes → ℕ) (order : List Bin → List Bin)
      (words : Bytes → List Bytes) (lowercase : Bytes → Bytes) (random : ℕ → ℕ)
      (order_holds : List Hold → List Hold) (dota : Option (Bytes → Option Bytes)) (key : ℕ)
      (fake_link : PlayerLink) (fuel now : ℕ) (cmd : GameCmd) {st' : GameState}
      → serve_cmd show_secs crc32 order words lowercase random order_holds dota key fake_link fuel
          now cmd st
        ≡ some st'
      → Serves st st'
  serves_tick :
      (show_secs : ℕ → Bytes) (crc32 : Bytes → ℕ) (order : List Bin → List Bin)
      (words : Bytes → List Bytes) (lowercase : Bytes → Bytes) (random : ℕ → ℕ)
      (order_holds : List Hold → List Hold) (dota : Option (Bytes → Option Bytes)) (key : ℕ)
      (fake_link : PlayerLink) (fuel now : ℕ) (winner : Option Bytes) (skipped : ℕ)
      {st' : GameState}
      → serve_tick show_secs crc32 order words lowercase random order_holds dota key fake_link fuel
          now winner skipped st
        ≡ some st'
      → Serves st st'

Serves-Sound : {st st' : GameState} → Serves st st' → Sound st → Sound st'
Serves-Sound {st} (serves_cmd ss crc ord ws low ran oh dota key fl fuel now cmd {st'} e) s =
    Sound-some _ st' (serve_cmd-SoundIf ss crc ord ws low ran oh dota key fl fuel now cmd st s) e
Serves-Sound {st} (serves_tick ss crc ord ws low ran oh dota key fl fuel now winner skipped {st'} e)
      s =
    Sound-some _ st'
      (serve_tick-SoundIf ss crc ord ws low ran oh dota key fl fuel now winner skipped st s) e

pub data Reaches (st : GameState) : GameState → Type 0 where
  at_once : Reaches st st
  after : {st' st2 : GameState} → Reaches st st' → Serves st' st2 → Reaches st st2

-- In every game that the rounds of the loop reach, with whatever commands, frames, chat lines and ticks,
-- from a game whose players have distinct ids between 1 and 254 and whose actions that wait are at most
-- 1027 bytes each with their heads, the same holds: the ids of the players are distinct and between
-- 1 and 254, and each action that waits is as small.
pub reached-Sound : (st st' : GameState) → Reaches st st' → Sound st → Sound st'
reached-Sound st st' at_once s = s
reached-Sound st st' (after {st' = mid} r step) s = Serves-Sound step (reached-Sound st mid r s)

-- In every game that the rounds reach from a sound one, a vote over the checksums ends, and without a
-- panic, in fewer rounds than one and the checksums that wait, in whatever order the bins are read.
pub reached_vote_ends :
    (st st' : GameState)
    → Reaches st st'
    → Sound st
    → (order : List Bin → List Bin) (fuel now : ℕ) → waiting st'.players < fuel
    → (st2 : GameState) × (check_desync order fuel now st' ≡ some st2)
reached_vote_ends st st' r s order fuel now enough =
    check_desync_ends order fuel now st' (reached-Sound st st' r s).distinct enough

-- In every game that the rounds reach from a sound one, the actions of a tick are sent as `IsTick`
-- says, whatever players have sent: each action once and in order, in batches of at most 1452 bytes,
-- of which no packet is refused.
pub reached-IsTick :
    (st st' : GameState)
    → Reaches st st'
    → Sound st
    → (crc32 : Bytes → ℕ) (now : ℕ) (winner : Option Bytes) (skipped : ℕ)
    → IsTick crc32 now
        (new_winner st' winner)
        (interval_of st' skipped)
        st'.actions
        (begin_tick skipped st')
        (send_all_actions crc32 now winner skipped st')
reached-IsTick st st' r s crc32 now winner skipped =
    send_all_actions-IsTick crc32 now winner skipped st' (reached-Sound st st' r s).small
