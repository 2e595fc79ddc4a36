-- ===== src/Engine/Chat/Names.antt =====
-- `by_name_partial` of crates/spectre-engine/src/players.rs, and the lists of names that chat commands
-- print. `lowercase` stands for `to_lowercase`.

use ghostrs.Base.{
  Bool, true, false, ◌&&◌, List, [], ◌∷◌, ◌++◌, map, Option, none, some, ◌==◌, text, length,
}
use ghostrs.Protocol.Buffer.{Bytes}
use ghostrs.Engine.Players.{Player, PlayerTable, NameMatch, no_match, ambiguous, find, filter}
use ghostrs.Engine.Chat.Words.{same_text}

-- `Result<&Player, NameMatch>`.
pub data NameResult : Type 0 where
  found : Player → NameResult
  missed : NameMatch → NameResult

unfoldable pub starts_with : Bytes → Bytes → Bool
starts_with [] s = true
starts_with (x ∷ xs) [] = false
starts_with (x ∷ xs) (y ∷ ys) = (x == y) && starts_with xs ys

abbrev pub hits_of : PlayerTable → NameResult
hits_of [] = missed no_match
hits_of (p ∷ []) = found p
hits_of (p ∷ q ∷ players) = missed (ambiguous (length (p ∷ q ∷ players)))

abbrev pub exact_or : Option Player → PlayerTable → NameResult
exact_or none hits = hits_of hits
exact_or (some p) hits = found p

unfoldable pub by_name_partial : (Bytes → Bytes) → Bytes → PlayerTable → NameResult
by_name_partial lowercase needle players =
    exact_or (find (λ p. same_text p.name needle) players)
      (filter (λ p. starts_with (lowercase needle) (lowercase p.name)) players)

unfoldable pub names_of : PlayerTable → List Bytes
names_of players = map (λ p. p.name) players

-- `join(", ")`.
unfoldable pub join_commas : List Bytes → Bytes
join_commas [] = []
join_commas (w ∷ []) = w
join_commas (w ∷ v ∷ ws) = w ++ text ", " ++ join_commas (v ∷ ws)
