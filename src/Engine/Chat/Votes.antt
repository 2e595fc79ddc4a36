-- ===== src/Engine/Chat/Votes.antt =====
-- The commands of `run_command` (crates/spectre-engine/src/chat.rs) against players, and the votes.
-- `none` is a panic. `lowercase` stands for `to_lowercase`.
use mathlib.Core.Option
use ghostrs.Base.{
  ℕ, ◌+◌, ◌*◌, ◌/◌, Bool, true, List, [], ◌∷◌, ◌++◌, Option, none, some, leb, ◌==◌, if◌then◌else◌,
  text, length, any, max, min,
}
use ghostrs.Protocol.Buffer.{Bytes}
use ghostrs.Protocol.W3gs.Ids
use ghostrs.Engine.Announce.{send_chat_to, send_chat_all}
use ghostrs.Engine.Transfer.{digits}
use ghostrs.Engine.Phases.{start_countdown, ◌>>=◌}
use ghostrs.Engine.State.{GameState, StoreCmd, post, kick_player, is_before_game, add_ban}
use ghostrs.Engine.Players.{no_match, ambiguous, human_count, with_pid}
use ghostrs.Engine.Chat.Names.{NameResult, found, missed}

abbrev pub left_code_of : GameState → ℕ
left_code_of st = if is_before_game st.phase then Ids.playerleave_lobby else Ids.playerleave_lost

abbrev pub no_player : Bytes → Bytes
no_player name = text "No player matching [" ++ name ++ text "]."

-- `if let Some(store) = &self.store`.
unfoldable pub tell_store : StoreCmd → GameState → GameState
tell_store cmd st = record st { store = Option.map (λ tx. post tx cmd) st.store }

abbrev pub kick_found : ℕ → ℕ → Bytes → NameResult → GameState → Option GameState
kick_found now pid name (found p) st =
    some (kick_player p.pid (text "was kicked") (left_code_of st) st)
kick_found now pid name (missed no_match) st = send_chat_to now pid (no_player name) st
kick_found now pid name (missed (ambiguous n)) st =
    send_chat_to now pid
      (text "[" ++ name ++ text "] matches " ++ digits n ++ text " players, be more specific.") st

abbrev pub ban_found : Bytes → NameResult → GameState → GameState
ban_found reason (found p) st = kick_player p.pid (text "banned: " ++ reason) (left_code_of st) st
ban_found reason (missed m) st = st

abbrev pub set_muted : ℕ → Bool → Bytes → NameResult → GameState → Option GameState
set_muted now muted how (missed m) st = some st
set_muted now muted how (found p) st =
    send_chat_all now (text "[" ++ p.name ++ text "] has been " ++ how ++ text ".")
      (record st { players = with_pid st.players p.pid (λ q. record q { muted = muted }) })

abbrev pub ban_last_leaver :
    ℕ → ℕ → Bytes → Bytes → Option (Bytes × Bytes) → GameState → Option GameState
ban_last_leaver now pid caller reason none st =
    send_chat_to now pid (text "No player has left the game yet.") st
ban_last_leaver now pid caller reason (some (name, ip)) st =
    send_chat_all now (text "Banned last leaver [" ++ name ++ text "]: " ++ reason ++ text ".")
      (tell_store (add_ban name ip caller reason) st)

abbrev pub has_voted : ℕ → List ℕ → Bool
has_voted pid votes = any (λ v. v == pid) votes

abbrev pub count_start : ℕ → ℕ → GameState → Option GameState
count_start now pid st =
    let votes = st.start_votes ++ pid ∷ [] in
    let needed = human_count st.players / 2 + 1 in
    if has_voted pid st.start_votes
    then some st
    else send_chat_all now
        (text "Vote start: "
          ++ digits (length votes)
          ++ text "/"
          ++ digits needed
          ++ text " votes.")
        (record st { start_votes = votes })
      >>= λ st'. some (if leb needed (length votes) then start_countdown now st' else st')

-- `(total as u32 * pct).div_ceil(100).max(1)`; the product fits, as there are at most 254 players.
unfoldable pub votes_needed : GameState → ℕ
votes_needed st =
    let pct = max 1 (min st.cfg.votekick_percentage 100) in
    max ((human_count st.players * pct + 99) / 100) 1

abbrev pub vote_kick_found : ℕ → ℕ → Bytes → NameResult → GameState → Option GameState
vote_kick_found now pid name (missed m) st = send_chat_to now pid (no_player name) st
vote_kick_found now pid name (found p) st =
    send_chat_all now
      (text "Votekick started against ["
        ++ p.name
        ++ text "] (1/"
        ++ digits (votes_needed st)
        ++ text " votes). Type !yes to vote.")
      (record st { votekick_target = some p.pid; votekick_votes = pid ∷ [] })

abbrev pub count_kick : ℕ → ℕ → ℕ → GameState → GameState
count_kick target votes needed st =
    if leb needed votes
    then record (kick_player target (text "voted out") (left_code_of st) st) {
      votekick_target = none;
      votekick_votes = [];
    }
    else st

abbrev pub vote_yes : ℕ → ℕ → Option ℕ → GameState → Option GameState
vote_yes now pid none st = some st
vote_yes now pid (some target) st =
    let votes = st.votekick_votes ++ pid ∷ [] in
    if has_voted pid st.votekick_votes
    then some st
    else Option.map (count_kick target (length votes) (votes_needed st)) (
        send_chat_all now
          (text "Votekick: "
            ++ digits (length votes)
            ++ text "/"
            ++ digits (votes_needed st)
            ++ text " votes.")
          (record st { votekick_votes = votes }))

abbrev pub end_in_draw : ℕ → Bool → GameState → Option GameState
end_in_draw now agreed st =
    if agreed
    then Option.map (λ (st' : GameState). record st' { finished = true })
        (send_chat_all now (text "Game ended in a draw.") st)
    else some st

abbrev pub vote_draw : ℕ → ℕ → GameState → Option GameState
vote_draw now pid st =
    let votes = st.draw_votes ++ pid ∷ [] in
    if has_voted pid st.draw_votes
    then some st
    else send_chat_all now
        (text "Draw vote: "
          ++ digits (length votes)
          ++ text "/"
          ++ digits (human_count st.players)
          ++ text " players agreed.")
        (record st { draw_votes = votes })
      >>= end_in_draw now (leb (human_count st.players) (length votes))
