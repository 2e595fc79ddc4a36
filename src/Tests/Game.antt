-- ===== src/Tests/Game.antt =====
-- A game through rounds of its loop: crates/spectre-engine/src/actor.rs.
use ghostrs.Engine.Chat.SlotRequest.{apply_slot_request}
use ghostrs.Engine.Chat.SlotRequest.Seats.{request_moves_nobody, seats_of}
use ghostrs.Engine.Actions.{send_all_actions, begin_tick, interval_of, new_winner}
use ghostrs.Engine.Desync.{check_desync}
use ghostrs.Engine.Actions.Batches.{IsTick}
use ghostrs.Engine.Desync.Rounds.{waiting}
use ghostrs.Engine.Phases.{start_countdown}
use ghostrs.Engine.Reap.{reap_left_players}
use ghostrs.Engine.Players.{filter, new_player}
use ghostrs.Base.{ℕ, [], ◌∷◌, ◌++◌, Option, none, some, ◌≡◌, ◌≢◌, refl, text, length, arith, length}
use ghostrs.Protocol.Buffer.{Bytes}
use ghostrs.Protocol.W3gs.Slot.{SlotInfo}
use ghostrs.Engine.Map.{has_custom_forces}
use ghostrs.Engine.State.{GameState, countdown, add_conn}
use ghostrs.Engine.Actor.{handle_cmd, serve_cmd, start, new_conn}
use ghostrs.Engine.Chat.{ChatCommand}
use ghostrs.Engine.Chat.Parse.{parse_command, dispatch}
use ghostrs.Engine.Chat.Arms.{first_arms, last_arms}
use ghostrs.Engine.Chat.Parse.Yes.{parse_command-ne_yes}
use ghostrs.Engine.Soundness.{Sound}
use ghostrs.Engine.Soundness.Games.{
  Reaches, at_once, after, serves_cmd, reached-Sound, reached_vote_ends, reached-IsTick,
}
use ghostrs.Tests.Transfer.{waiting_room, open_link}

abbrev secs : ℕ → Bytes
secs n = text "1.00"

abbrev no_dota : Option (Bytes → Option Bytes)
no_dota = none

abbrev met_room : GameState
met_room = record waiting_room {
  pending = record { conn_id = 12; link = open_link; external_ip = 10 ∷ 0 ∷ 0 ∷ 2 ∷ [] } ∷ [];
}

abbrev counting_room : GameState
counting_room = record met_room { phase = countdown 6 5000 11 }

waiting_room-Sound : Sound waiting_room
unfolding new_player
waiting_room-Sound = record { distinct = (refl, omega arith, omega arith, tt); small = tt }

-- A client connects, and the countdown starts.
counting_room-Reached : Reaches waiting_room counting_room
unfolding serve_cmd handle_cmd add_conn start_countdown reap_left_players filter new_player
counting_room-Reached =
    after {st' = met_room}
      (after {st' = waiting_room} at_once (
        serves_cmd secs length (λ bins. bins) (λ s. s ∷ []) (λ s. s) (λ i. i) (λ holds. holds)
          no_dota 7 open_link 9 5 (new_conn 12 open_link (10 ∷ 0 ∷ 0 ∷ 2 ∷ [])) refl))
      (serves_cmd secs length (λ bins. bins) (λ s. s ∷ []) (λ s. s) (λ i. i) (λ holds. holds)
        no_dota 7 open_link 9 6 start refl)

reached-Sound_example : Sound counting_room
reached-Sound_example =
    reached-Sound waiting_room counting_room counting_room-Reached waiting_room-Sound

reached_vote_ends_example :
    (st2 : GameState) × (check_desync (λ bins. bins) 1 7 counting_room ≡ some st2)
unfolding new_player waiting
reached_vote_ends_example =
    reached_vote_ends waiting_room counting_room counting_room-Reached waiting_room-Sound
      (λ bins. bins) 1 7 (omega arith)

reached-IsTick_example :
    IsTick length 7
      (new_winner counting_room none)
      (interval_of counting_room 0)
      counting_room.actions
      (begin_tick 0 counting_room)
      (send_all_actions length 7 none 0 counting_room)
reached-IsTick_example =
    reached-IsTick waiting_room counting_room counting_room-Reached waiting_room-Sound length 7 none
      0

-- The line "!yes".
parse_command-ne_yes_example :
    (parse_command (λ s. s ∷ []) (λ s. s) 33 (text "!yes") ≢ some ChatCommand.yes)
    × (dispatch (first_arms ++ last_arms) (text "yes") (text "please" ∷ [])
        ≡ some (ChatCommand.unknown (text "yes")))
parse_command-ne_yes_example =
    parse_command-ne_yes (λ s. s ∷ []) (λ s. s) 33 (text "!yes") (text "please" ∷ [])

abbrev seat : SlotInfo
seat = record {
  pid = 1;
  download_status = 100;
  slot_status = 2;
  computer = 0;
  team = 0;
  colour = 0;
  race = 0x20;
  computer_type = 1;
  handicap = 100;
}

abbrev vacancy : SlotInfo
vacancy = record seat { pid = 0; slot_status = 0; colour = 3 }

-- The player asks for the colour of the slot beside it.
request_moves_nobody_example :
    seats_of (apply_slot_request waiting_room.cfg.map 1 0x12 3 (seat ∷ vacancy ∷ [])).1
    ≡ seats_of (seat ∷ vacancy ∷ [])
unfolding has_custom_forces
request_moves_nobody_example =
    request_moves_nobody waiting_room.cfg.map 1 0x12 3 (seat ∷ vacancy ∷ []) refl
