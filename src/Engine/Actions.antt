-- ===== src/Engine/Actions.antt =====
-- `send_all_actions` of crates/spectre-engine/src/actions.rs: the queued actions of a tick, in packets
-- to the players, the relay and the replay. `crc32` stands for `crc32fast::hash`, and `winner` for the
-- winner that the statistics of the game read from these actions, if any.
pub mod Batches
pub mod Queue
use mathlib.Core.Option
use ghostrs.Base.{
  ℕ, ◌+◌, ◌-◌, ◌*◌, ◌/◌, ◌^◌, Bool, ◌&&◌, not, List, [], ◌∷◌, ◌++◌, Option, none, some, ltb,
  if◌then◌else◌, length, min, as_u16, as_u32, text,
}
use ghostrs.Protocol.Error.{Result, ok, err}
use ghostrs.Protocol.Buffer.{Bytes}
use ghostrs.Protocol.W3gs.Outgoing.{ActionBlock, encode_actions_raw, is_empty, incoming_action}
use ghostrs.Protocol.W3gs.Outgoing.{incoming_action2}
use ghostrs.Spectator.Body.{add_timeslot, add_timeslot2}
use ghostrs.Engine.State.{GameState, is_some, relay_send, game_block}
use ghostrs.Engine.Broadcast.{broadcast}
use ghostrs.Engine.Announce.{send_chat_all}

abbrev pub max_action_payload : ℕ
max_action_payload = 1452

abbrev pub block_len : ActionBlock → ℕ
block_len a = length a.actions + 3

-- `saturating_mul` of the period in milliseconds.
abbrev pub elapsed_of : GameState → ℕ → ℕ
elapsed_of st skipped =
    min (as_u32 (st.tick.period / 1_000_000) * as_u32 (skipped + 1)) (2 ^ 32 - 1)

abbrev pub interval_of : GameState → ℕ → ℕ
interval_of st skipped = as_u16 (min (elapsed_of st skipped) 65535)

-- The counters of the tick, with the queue taken.
abbrev pub begin_tick : ℕ → GameState → GameState
begin_tick skipped st = record st {
  game_ticks = as_u32 (st.game_ticks + elapsed_of st skipped);
  sync_counter = as_u32 (st.sync_counter + 1);
  actions = [];
}

abbrev pub relay_block : Bytes → GameState → GameState
relay_block b st = record st { relay = Option.map (λ r. relay_send r (game_block b)) st.relay }

-- The winner is announced once: not where `game_over_time` is set.
abbrev pub new_winner : GameState → Option Bytes → Option Bytes
new_winner st winner = if is_some st.game_over_time then none else winner

-- A packet that overflows the tick.
unfoldable pub tell_more : ℕ → List ActionBlock → Bytes → GameState → GameState
tell_more now batch b st =
    let st' = relay_block b st in
    broadcast now b (record st' {
      replay = Option.map (λ rep. add_timeslot2 rep (encode_actions_raw batch)) st.replay;
    })

-- The packet that ends the tick.
unfoldable pub tell_tick : ℕ → ℕ → List ActionBlock → Bytes → GameState → GameState
tell_tick now interval batch b st =
    let st' = relay_block b st in
    broadcast now b (record st' {
      replay = Option.map (λ rep. add_timeslot rep interval (encode_actions_raw batch)) st.replay;
    })

abbrev pub more_ok : ℕ → List ActionBlock → Result Bytes → GameState → GameState
more_ok now batch (ok b) st = tell_more now batch b st
more_ok now batch (err e) st = st

abbrev pub tick_ok : ℕ → ℕ → List ActionBlock → Result Bytes → GameState → GameState
tick_ok now interval batch (ok b) st = tell_tick now interval batch b st
tick_ok now interval batch (err e) st = st

module _ (crc32 : Bytes → ℕ) (now : ℕ) where
  abbrev pub flush : List ActionBlock → GameState → GameState
  flush batch st = more_ok now batch (incoming_action2 crc32 batch) st

  -- `for action in queued`, with the batch, its length and the game.
  unfoldable pub batch_loop :
      List ActionBlock → List ActionBlock → ℕ → GameState → List ActionBlock × GameState
  batch_loop [] batch batch_len st = (batch, st)
  batch_loop (a ∷ queued) batch batch_len st =
      let len = block_len a in
      let is_full = ltb max_action_payload (batch_len + len) && not (is_empty batch) in
      batch_loop queued (if is_full then a ∷ [] else batch ++ a ∷ [])
        (if is_full then len else batch_len + len) (if is_full then flush batch st else st)

  -- `none` where the chat line panics.
  abbrev pub announce : Option Bytes → GameState → Option GameState
  announce none st = some st
  announce (some winner) st =
      Option.map (λ (st' : GameState). record st' { game_over_time = some now })
        (send_chat_all now
          (text "Game over detected! Winner: " ++ winner ++ text ". Game will close in 60s.") st)

  abbrev pub end_tick : ℕ → Option Bytes → List ActionBlock × GameState → Option GameState
  end_tick interval winner (batch, st) =
      Option.map (tick_ok now interval batch (incoming_action crc32 batch interval))
        (announce winner st)

  unfoldable pub send_all_actions : Option Bytes → ℕ → GameState → Option GameState
  send_all_actions winner skipped st =
      end_tick (interval_of st skipped) (new_winner st winner)
        (batch_loop st.actions [] 0 (begin_tick skipped st))
