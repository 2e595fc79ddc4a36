-- ===== src/Engine/Soundness/Rounds.antt =====
-- `on_tick` (actions.rs), `handle_cmd` and the rounds of `run` (actor.rs) of crates/spectre-engine/src
-- keep a game sound.
use ghostrs.Engine.Transfer.{digits}
use ghostrs.Engine.Soundness.Leavers.{reap_left_players-SoundIf}
use ghostrs.Engine.Keeps.Votes.{check_desync-Still, check_lag-Keeps}
use ghostrs.Engine.Soundness.Sending.{send_all_actions-SoundIf}
use ghostrs.Engine.Soundness.Loading.{begin_loading-SoundIf}
use ghostrs.Engine.Catchup.{pump_rejoin_catchup}
use ghostrs.Engine.Lag.{check_lag}
use ghostrs.Engine.Keeps.Ticks.{
  settle_end-Keeps, sync_fake-Keeps, pump_rejoin_catchup-Keeps, ping_all-Keeps, end_game-Keeps,
  one_left-Keeps, reap_timeouts-Still, pump_downloads-Still, lobby_tick-Still,
  drop_lagging_players-Keeps,
}
use ghostrs.Engine.OnTick.{
  finish_tick, one_left, ping_all, sync_fake, timed_out_loading, step_at, on_tick, phase_tick,
  playing_tick, lag_tick, loading_tick, countdown_tick, drop_unready,
}
use mathlib.Core.Option
use ghostrs.Engine.Phases.{◌>>=◌}
use ghostrs.Base.{
  inr, inl, map, Bool-cases, Option, ℕ, Bool, true, false, none, some, List, refl, ◌&&◌, not, ltb,
  leb, ◌++◌, ◌≡◌, text, ◌-◌,
}
use ghostrs.Protocol.Buffer.{Bytes}
use ghostrs.Engine.Soundness.{
  beside, Sound, SoundIf, panicked, is_sound, Still-Sound, Keeps-Sound, bind_sound, if_sound,
}
use ghostrs.Engine.Keeps.{send_chat_all-Still, kept, and_then, pids-map}
use ghostrs.Engine.State.{is_some, GameState, GamePhase, lobby, loading, playing, over, countdown}
use ghostrs.Engine.Desync.{check_desync, Bin}
use ghostrs.Engine.Players.{Player}

drop_unready-pid : (p : Player) → (drop_unready p).pid ≡ p.pid
drop_unready-pid p =
    elim (Bool-cases (not p.loaded && (not (is_some p.left) && not p.virtual_host))) [
      | inl late ↦ rw late refl
      | inr ready ↦ rw ready refl
    ]

-- A tick that may stop before its end.
data Ticked : Option (Bool × GameState) → Type 0 where
  stuck : Ticked none
  ticked : {stops : Bool} {st : GameState} → Sound st → Ticked (some (stops, st))

goes_on-Ticked :
    {o : Option GameState} (f : GameState → Bool × GameState)
    → SoundIf o
    → ((st : GameState) → Sound st → Sound (f st).1)
    → Ticked (Option.map f o)
goes_on-Ticked f panicked k = stuck
goes_on-Ticked f (is_sound {st} s) k = ticked {stops = (f st).0} (k st s)

module _ (show_secs : ℕ → Bytes) (crc32 : Bytes → ℕ) (order : List Bin → List Bin)
    (fuel now : ℕ) where
  countdown_tick-SoundIf :
      (started_at total last : ℕ) (st : GameState)
      → Sound st
      → SoundIf (countdown_tick show_secs crc32 order fuel now started_at total last st)
  countdown_tick-SoundIf started_at total last st s =
      let elapsed = now - started_at in
      let step = step_at elapsed in
      let counting : GameState = record st { phase = countdown started_at total step } in
      if_sound (leb total elapsed) (begin_loading-SoundIf show_secs now st s) (
        if_sound (ltb step last && leb 1 step)
          (Still-Sound (send_chat_all-Still now (digits step ++ text ". . .") counting)
            (beside s refl refl))
          (is_sound s))

  loading_tick-SoundIf :
      (st : GameState) → Sound st → SoundIf (loading_tick show_secs crc32 order fuel now st)
  loading_tick-SoundIf st s =
      let dropped : GameState = record st { players = map drop_unready st.players } in
      if_sound (timed_out_loading now st.started_loading_at)
        (reap_left_players-SoundIf show_secs now dropped (
          Keeps-Sound {st = st} (kept (pids-map drop_unready st.players drop_unready-pid) refl refl)
            s))
        (is_sound s)

  lag_tick-Ticked :
      (winner : Option Bytes) (skipped : ℕ) (r : Bool × GameState)
      → Sound r.1
      → Ticked (lag_tick show_secs crc32 order fuel now winner skipped r)
  lag_tick-Ticked winner skipped (true, st) s =
      ticked (Keeps-Sound (drop_lagging_players-Keeps now 60000 st) s)
  lag_tick-Ticked winner skipped (false, st) s =
      goes_on-Ticked _ (send_all_actions-SoundIf crc32 now winner skipped st s) (λ st' s'.
        Keeps-Sound (and_then (one_left-Keeps now st') (end_game-Keeps now (one_left now st'))) s')

  voted-Ticked :
      (winner : Option Bytes) (skipped : ℕ) (o : Option GameState)
      → SoundIf o
      → Ticked (
          o >>= λ st2.
          lag_tick show_secs crc32 order fuel now winner skipped (check_lag crc32 now st2))
  voted-Ticked winner skipped none panicked = stuck
  voted-Ticked winner skipped (some st2) (is_sound s) =
      lag_tick-Ticked winner skipped (check_lag crc32 now st2)
        (Keeps-Sound (check_lag-Keeps crc32 now st2) s)

  playing_tick-Ticked :
      (winner : Option Bytes) (skipped : ℕ) (st : GameState)
      → Sound st
      → Ticked (playing_tick show_secs crc32 order fuel now winner skipped st)
  playing_tick-Ticked winner skipped st s =
      let st' = pump_rejoin_catchup now st in
      let st2 = sync_fake st'.fake_player_pid st' in
      voted-Ticked winner skipped (check_desync order fuel now st2) (
        Still-Sound (check_desync-Still order now fuel st2) (
          Keeps-Sound
            (and_then (pump_rejoin_catchup-Keeps now st) (sync_fake-Keeps st'.fake_player_pid st'))
            s))

  phase_tick-Ticked :
      (winner : Option Bytes) (skipped : ℕ) (phase : GamePhase) (st : GameState)
      → Sound st
      → Ticked (phase_tick show_secs crc32 order fuel now winner skipped phase st)
  phase_tick-Ticked winner skipped lobby st s =
      goes_on-Ticked _ (Still-Sound (lobby_tick-Still now st) s) (λ st' s'. s')
  phase_tick-Ticked winner skipped (countdown a b c) st s =
      goes_on-Ticked _ (countdown_tick-SoundIf a b c st s) (λ st' s'. s')
  phase_tick-Ticked winner skipped loading st s =
      goes_on-Ticked _ (loading_tick-SoundIf st s) (λ st' s'. s')
  phase_tick-Ticked winner skipped playing st s = playing_tick-Ticked winner skipped st s
  phase_tick-Ticked winner skipped over st s = ticked (beside s refl refl)

  finish_tick-Sound :
      (stops : Bool) (st : GameState)
      → Sound st
      → Sound (finish_tick show_secs crc32 order fuel now (stops, st))
  finish_tick-Sound true st s = s
  finish_tick-Sound false st s = Keeps-Sound (settle_end-Keeps now st) s

  finish_tick-SoundIf :
      {o : Option (Bool × GameState)}
      → Ticked o
      → SoundIf (Option.map (finish_tick show_secs crc32 order fuel now) o)
  finish_tick-SoundIf stuck = panicked
  finish_tick-SoundIf (ticked {stops = stops} {st = st} s) = is_sound (finish_tick-Sound stops st s)

  pub on_tick-SoundIf :
      (winner : Option Bytes) (skipped : ℕ) (st : GameState)
      → Sound st
      → SoundIf (on_tick show_secs crc32 order fuel now winner skipped st)
  unfolding on_tick
  on_tick-SoundIf winner skipped st s =
      bind_sound _ (Still-Sound (pump_downloads-Still crc32 fuel now st) s) λ st1 s1.
        bind_sound _ (Still-Sound (reap_timeouts-Still now st1.cfg.reconnect_wait st1) s1) λ st2 s2.
          let st3 = ping_all now st2 in
          finish_tick-SoundIf (
            phase_tick-Ticked winner skipped st3.phase st3
              (Keeps-Sound (ping_all-Keeps now st2) s2))
