-- ===== src/Engine/Desync.antt =====
-- The keepalives of a running game and `check_desync` (crates/spectre-engine/src/actions.rs).
pub mod Verdict
pub mod Rounds
pub mod Honest
use ghostrs.Base.{
  ℕ, zero, suc, ◌+◌, ◌-◌, ◌^◌, Bool, true, false, ◌&&◌, ◌||◌, not, List, [], ◌∷◌, ◌++◌, Option,
  none, some, leb, ltb, ◌==◌, if◌then◌else◌, length, drop, any, map, min, text,
}
use ghostrs.Protocol.Error.{Result, ok, err}
use ghostrs.Protocol.Buffer.{Bytes}
use ghostrs.Protocol.W3gs.Ids
use ghostrs.Protocol.W3gs.Incoming.{keepalive, run}
use ghostrs.Engine.Players.{
  ChecksumEntry, Player, PlayerTable, by_pid, by_conn, with_pid, with_conn,
}
use ghostrs.Engine.State.{GameState, is_playing, is_some, kick_player}
use ghostrs.Engine.Announce.{send_chat_all}

abbrev pub is_active : Player → Bool
is_active p = not (is_some p.left) && (not p.virtual_host && (p.loaded && not p.catching_up))

unfoldable pub active_pids : PlayerTable → List ℕ
active_pids [] = []
active_pids (p ∷ players) =
    let rest = active_pids players in if is_active p then p.pid ∷ rest else rest

-- `checksums.front()`, and what it does to `min_turn`.
abbrev pub lowered : Option ℕ → List ChecksumEntry → Option ℕ
lowered acc [] = acc
lowered none (e ∷ es) = some e.turn
lowered (some m) (e ∷ es) = some (min m e.turn)

unfoldable pub min_turn : Option ℕ → PlayerTable → Option ℕ
min_turn acc [] = acc
min_turn acc (p ∷ players) = min_turn (if is_active p then lowered acc p.checksums else acc) players

abbrev pub is_behind : ℕ → Option Player → Bool
is_behind target none = false
is_behind target (some p) = ltb p.sync_counter target

unfoldable pub in_flight : ℕ → PlayerTable → List ℕ → Bool
in_flight target players pids = any (λ pid. is_behind target (by_pid players pid)) pids

-- A participant with the checksum at the front of its queue.
pub record Vote : Type 0 where
  pub pid : ℕ
  pub checksum : ℕ

abbrev pub vote : ℕ → ℕ → List ChecksumEntry → List Vote
vote target pid [] = []
vote target pid (e ∷ es) =
    if e.turn == target then record { pid = pid; checksum = e.checksum } ∷ [] else []

abbrev pub vote_of : ℕ → ℕ → Option Player → List Vote
vote_of target pid none = []
vote_of target pid (some p) = vote target pid p.checksums

unfoldable pub participants : ℕ → PlayerTable → List ℕ → List Vote
participants target players [] = []
participants target players (pid ∷ pids) =
    vote_of target pid (by_pid players pid) ++ participants target players pids

abbrev pub has_desync : List Vote → Bool
has_desync [] = false
has_desync (first ∷ votes) = any (λ v. not (v.checksum == first.checksum)) votes

abbrev pub pop_front : Player → Player
pop_front p = record p { checksums = drop 1 p.checksums }

unfoldable pub pop_all : List Vote → PlayerTable → PlayerTable
pop_all [] players = players
pop_all (v ∷ votes) players = pop_all votes (with_pid players v.pid pop_front)

-- An entry of `bins`: a checksum with the players who reported it.
pub record Bin : Type 0 where
  pub checksum : ℕ
  pub pids : List ℕ

-- `bins.entry(checksum).or_default().push(pid)`.
unfoldable pub add_to_bin : Vote → List Bin → List Bin
add_to_bin v [] = record { checksum = v.checksum; pids = v.pid ∷ [] } ∷ []
add_to_bin v (b ∷ bins) =
    if b.checksum == v.checksum
    then record b { pids = b.pids ++ v.pid ∷ [] } ∷ bins
    else b ∷ add_to_bin v bins

unfoldable pub fill_bins : List Vote → List Bin → List Bin
fill_bins [] bins = bins
fill_bins (v ∷ votes) bins = fill_bins votes (add_to_bin v bins)

-- `max_count`, `tied` and `largest_cs`.
pub record Tally : Type 0 where
  pub max_count : ℕ
  pub tied : Bool
  pub largest_cs : ℕ

abbrev pub no_tally : Tally
no_tally = record { max_count = 0; tied = false; largest_cs = 0 }

unfoldable pub tally : List Bin → Tally → Tally
tally [] t = t
tally (b ∷ bins) t = tally bins (
    if ltb t.max_count (length b.pids)
    then record { max_count = length b.pids; tied = false; largest_cs = b.checksum }
    else if length b.pids == t.max_count
    then record t { tied = true }
    else t)

abbrev pub drop_for_desync : ℕ → GameState → GameState
drop_for_desync pid st = kick_player pid (text "was dropped due to desync") Ids.playerleave_lost st

unfoldable pub drop_pids : List ℕ → GameState → GameState
drop_pids [] st = st
drop_pids (pid ∷ pids) st = drop_pids pids (drop_for_desync pid st)

unfoldable pub voters : List Vote → List ℕ
voters [] = []
voters (v ∷ votes) = v.pid ∷ voters votes

unfoldable pub drop_minority : ℕ → List Bin → GameState → GameState
drop_minority largest_cs [] st = st
drop_minority largest_cs (b ∷ bins) st =
    drop_minority largest_cs bins (if b.checksum == largest_cs then st else drop_pids b.pids st)

-- What ends the loop, and what goes round again.
pub data Round : Type 0 where
  ended : Option GameState → Round
  again : GameState → Round

abbrev pub popped : List Vote → GameState → GameState
popped votes st = record st { players = pop_all votes st.players }

abbrev pub clear_checksums : Player → Player
clear_checksums p = if is_active p then record p { checksums = [] } else p

abbrev pub on_said : (GameState → GameState) → Option GameState → Option GameState
on_said f none = none
on_said f (some st) = some (f st)

-- `order` is the order in which the `HashMap` of the bins is read.
module _ (order : List Bin → List Bin) where
  abbrev pub judge : List Vote → GameState → GameState
  judge votes st =
      let bins = order (fill_bins votes []) in
      let t = tally bins no_tally in
      popped votes
        (if t.tied then drop_pids (voters votes) st else drop_minority t.largest_cs bins st)

  abbrev pub round_with : ℕ → List Vote → GameState → Round
  round_with now votes st =
      if ltb (length votes) 2 || not (has_desync votes)
      then again (popped votes st)
      else ended (on_said (judge votes) (send_chat_all now (text "Desync detected!") st))

  abbrev pub round_at : ℕ → List ℕ → Option ℕ → GameState → Round
  round_at now pids none st = ended (
      some (
        if leb (length pids) 1 then record st { players = map clear_checksums st.players } else st))
  round_at now pids (some target) st =
      if leb (length pids) 1
      then ended (some (record st { players = map clear_checksums st.players }))
      else if in_flight target st.players pids
      then ended (some st)
      else round_with now (participants target st.players pids) st

  unfoldable pub round : ℕ → GameState → Round
  round now st = round_at now (active_pids st.players) (min_turn none st.players) st

  -- `none` where the fuel ran out.
  unfoldable pub check_desync : ℕ → ℕ → GameState → Option GameState
  check_desync zero now st = none
  check_desync (suc fuel) now st = elim (round now st) [
    | ended r ↦ r
    | again st' ↦ check_desync fuel now st'
  ]

  -- The player of a keepalive; `sc` is the game's counter.
  abbrev pub count_turn : ℕ → ℕ → Player → Player
  count_turn sc checksum p =
      let turn = min (p.sync_counter + 1) (2 ^ 32 - 1) in
      if p.catching_up
      then record p { sync_counter = turn; catching_up = not (leb sc turn) }
      else record p {
        sync_counter = turn;
        checksums =
            (if leb 512 (length p.checksums) then drop 1 p.checksums else p.checksums)
            ++ record { turn = turn; checksum = checksum } ∷ [];
      }

  abbrev pub keep_alive : ℕ → ℕ → ℕ → Result ℕ → GameState → Option GameState
  keep_alive fuel now conn_id (err e) st = some st
  keep_alive fuel now conn_id (ok checksum) st =
      check_desync fuel now
        (record st { players = with_conn st.players conn_id (count_turn st.sync_counter checksum) })

  unfoldable pub handle_keepalive : ℕ → ℕ → ℕ → Bytes → GameState → Option GameState
  handle_keepalive fuel now conn_id payload st =
      if is_playing st.phase
      then keep_alive fuel now conn_id (run keepalive payload) st
      else some st
