-- ===== src/Engine/Chat/Start.antt =====
-- The command `start` of `run_command` (crates/spectre-engine/src/chat.rs): the checks before a
-- countdown, unless it is forced. `none` is a panic.

use ghostrs.Base.{
  ℕ, ◌-◌, Bool, false, not, ◌&&◌, List, [], ◌∷◌, ◌++◌, Option, none, some, ltb, if◌then◌else◌, text,
  length,
}
use ghostrs.Protocol.Buffer.{Bytes}
use ghostrs.Engine.Announce.{send_chat_to}
use ghostrs.Engine.Transfer.{digits}
use ghostrs.Engine.Phases.{start_countdown}
use ghostrs.Engine.State.{GameState, Download}
use ghostrs.Engine.Players.{Player, PlayerTable, human_count, by_pid, filter}
use ghostrs.Engine.Chat.Names.{names_of, join_commas}

abbrev pub is_too_long : Option Bytes → ℕ → Bool
is_too_long none slots = false
is_too_long (some hcl) slots = ltb slots (length hcl)

abbrev pub name_before : Option Player → List Bytes → List Bytes
name_before none names = names
name_before (some p) names = p.name ∷ names

unfoldable pub downloading_names : PlayerTable → ℕ → List Download → List Bytes
downloading_names players size [] = []
downloading_names players size (d ∷ downloads) =
    let rest = downloading_names players size downloads in
    if ltb d.sent_upto size then name_before (by_pid players d.pid) rest else rest

abbrev pub is_unverified : Player → Bool
is_unverified p = not p.virtual_host && not p.spoofed

abbrev pub is_unpinged : Player → Bool
is_unpinged p = not p.virtual_host && (not p.reserved && ltb (length p.ping_history) 3)

abbrev pub left_lately : ℕ → Option ℕ → Bool
left_lately now none = false
left_lately now (some t) = ltb (now - t) 2000

abbrev pub refusal : Bytes → List Bytes → Option Bytes
refusal why [] = none
refusal why (name ∷ names) = some (
    text "Unable to start: "
    ++ why
    ++ text ": "
    ++ join_commas (name ∷ names)
    ++ text ". Use !start force to bypass.")

abbrev pub first_of : Option Bytes → Option Bytes → Option Bytes
first_of none o = o
first_of (some a) o = some a

-- The text of the first check that fails.
unfoldable pub start_refusal : ℕ → GameState → Option Bytes
start_refusal now st =
    if ltb (human_count st.players) 1
    then some (
        text "Unable to start: only "
        ++ digits (human_count st.players)
        ++ text " player(s) in the lobby.")
    else if is_too_long st.hcl (length st.slots)
    then some
        (text "Unable to start: HCL string is too long for map slots. Use !start force to bypass.")
    else first_of
        (refusal (text "players still downloading map")
          (downloading_names st.players st.cfg.map.size st.downloads))
        (first_of
          (if st.cfg.require_spoof_checks
            then refusal (text "unverified spoofcheck") (names_of (filter is_unverified st.players))
            else none)
          (first_of
            (refusal (text "players ping not checked") (names_of (filter is_unpinged st.players)))
            (if left_lately now st.last_player_left_time
              then some (
                  text
                    "Unable to start: a player left within the last 2 seconds. Use !start force to bypass.")
              else none)))

abbrev pub start_unless : ℕ → ℕ → Option Bytes → GameState → Option GameState
start_unless now pid none st = some (start_countdown now st)
start_unless now pid (some msg) st = send_chat_to now pid msg st

unfoldable pub start_command : ℕ → ℕ → Bool → GameState → Option GameState
start_command now pid force st =
    start_unless now pid (if force then none else start_refusal now st) st
