-- ===== src/Engine/Chat/Reports.antt =====
-- The commands of `run_command` (crates/spectre-engine/src/chat.rs) that answer. `none` is a panic,
-- and `dota` what the statistics of a DotA game, if it is one, print of a player.
use mathlib.Core.Option
use ghostrs.Base.{
  ℕ, ◌-◌, Bool, true, false, List, [], ◌∷◌, ◌++◌, map, Option, none, some, ltb, if◌then◌else◌, text,
}
use ghostrs.Protocol.Buffer.{Bytes}
use ghostrs.Protocol.W3gs.Outgoing.{start_download}
use ghostrs.Engine.Announce.{send_chat_to, send_some}
use ghostrs.Engine.Transfer.{digits}
use ghostrs.Engine.Phases.{◌>>=◌}
use ghostrs.Engine.Reap.{dotted}
use ghostrs.Engine.OnTick.{is_here}
use ghostrs.Engine.State.{GameState, host_pid}
use ghostrs.Engine.Players.{Player, by_pid, with_pid, average_ping, iter_humans, filter}
use ghostrs.Engine.Chat.Words.{is_empty_text}
use ghostrs.Engine.Chat.Names.{NameResult, found, missed, join_commas}
use ghostrs.Engine.Chat.Votes.{no_player}

abbrev pub ping_text : Option ℕ → Bytes
ping_text none = text "N/A"
ping_text (some ms) = digits ms ++ text "ms"

abbrev pub ping_line : GameState → Bytes
ping_line st =
    text "Pings: "
    ++ join_commas
        (map (λ p. p.name ++ text ": " ++ ping_text (average_ping p)) (iter_humans st.players))

abbrev pub number_or_zero : Option ℕ → ℕ
number_or_zero none = 0
number_or_zero (some n) = n

abbrev pub realm_of : Bytes → Bytes
realm_of realm = if is_empty_text realm then text "LAN" else realm

abbrev pub describe : Bytes → Player → Bytes
describe who p =
    who
    ++ text " ["
    ++ p.name
    ++ text "]: Ping: "
    ++ digits (number_or_zero (average_ping p))
    ++ text "ms, Spoofed: "
    ++ (if p.spoofed then text "Yes" else text "No")
    ++ text ", Realm: ["
    ++ realm_of p.joined_realm
    ++ text "]"

abbrev pub check_found : ℕ → ℕ → Bytes → NameResult → GameState → Option GameState
check_found now pid name (found p) st = send_chat_to now pid (describe (text "Player") p) st
check_found now pid name (missed m) st = send_chat_to now pid (no_player name) st

abbrev pub check_self : ℕ → ℕ → Option Player → GameState → Option GameState
check_self now pid none st = some st
check_self now pid (some p) st = send_chat_to now pid (describe (text "You") p) st

abbrev pub allow_download : ℕ → ℕ → ℕ → Option Player → GameState → Option GameState
allow_download now pid target none st = some st
allow_download now pid target (some p) st =
    send_chat_to now pid (text "Map download allowed for player [" ++ p.name ++ text "].")
      (record st {
        players = with_pid st.players target (λ q. record q { download_allowed = true });
      })

abbrev pub download_to : ℕ → ℕ → ℕ → GameState → Option GameState
download_to now pid target st =
    Option.map (λ (st' : GameState). send_some now target (start_download (host_pid st')) st')
      (allow_download now pid target (by_pid st.players target) st)

abbrev pub download_found : ℕ → ℕ → Bytes → NameResult → GameState → Option GameState
download_found now pid name (found p) st = download_to now pid p.pid st
download_found now pid name (missed m) st = send_chat_to now pid (no_player name) st

abbrev pub asked_lately : ℕ → Option ℕ → Bool
asked_lately now none = false
asked_lately now (some t) = ltb (now - t) 5000

abbrev pub target_or : Bytes → Bytes → Bytes
target_or caller name = if is_empty_text name then caller else name

abbrev pub stats_reply : ℕ → ℕ → Bytes → GameState → Option GameState
stats_reply now pid target st =
    send_chat_to now pid (text "Querying stats for [" ++ target ++ text "]...") st

abbrev pub stats_of : ℕ → ℕ → Bytes → Option Player → GameState → Option GameState
stats_of now pid target none st = stats_reply now pid target st
stats_of now pid target (some p) st =
    if asked_lately now p.stats_sent_time
    then some st
    else stats_reply now pid target (record st {
      players = with_pid st.players pid (λ q. record q { stats_sent_time = some now });
    })

abbrev pub dota_line : Bytes → Option (Bytes → Option Bytes) → Bytes
dota_line target none = text "Not a DotA map."
dota_line target (some summary) = found_or (summary target)
  where
    found_or : Option Bytes → Bytes
    found_or none = text "No DotA stats found for [" ++ target ++ text "]."
    found_or (some line) = line

abbrev pub dota_of :
    ℕ → ℕ → Bytes → Option (Bytes → Option Bytes) → Option Player → GameState → Option GameState
dota_of now pid target dota none st = send_chat_to now pid (dota_line target dota) st
dota_of now pid target dota (some p) st =
    if asked_lately now p.stats_dota_sent_time
    then some st
    else send_chat_to now pid (dota_line target dota) (record st {
      players = with_pid st.players pid (λ q. record q { stats_dota_sent_time = some now });
    })

abbrev pub origin : Player → Bytes
origin p = if is_empty_text p.joined_realm then dotted p.external_ip else p.joined_realm

abbrev pub origin_line : Player → Bytes
origin_line p = text "Player [" ++ p.name ++ text "] is from [" ++ origin p ++ text "]"

unfoldable pub tell_lines : ℕ → ℕ → List Bytes → GameState → Option GameState
tell_lines now pid [] st = some st
tell_lines now pid (line ∷ lines) st = send_chat_to now pid line st >>= tell_lines now pid lines

abbrev pub tell_origins : ℕ → ℕ → GameState → Option GameState
tell_origins now pid st = tell_lines now pid (map origin_line (filter is_here st.players)) st

abbrev pub whisper_found : ℕ → ℕ → Bytes → Bytes → Bytes → NameResult → GameState → Option GameState
whisper_found now pid caller user message (missed m) st = send_chat_to now pid (no_player user) st
whisper_found now pid caller user message (found p) st =
    send_chat_to now p.pid (text "[Whisper from " ++ caller ++ text "]: " ++ message) st
    >>= send_chat_to now pid (text "[Whisper to " ++ p.name ++ text "]: " ++ message)
