-- ===== src/Engine/Chat/Parse.antt =====
-- `parse_command` of crates/spectre-engine/src/chat.rs. `words` stands for `split_whitespace` and
-- `lowercase` for `to_lowercase`, which read the tables of Unicode.
pub mod Yes
use ghostrs.Engine.Chat.Words.{same_text}
use ghostrs.Engine.Chat.Arms.{last_arms, first_arms, Arm}
use mathlib.Core.Option
use ghostrs.Base.{
  ◌^◌, ℕ, ◌+◌, ◌-◌, ◌*◌, Bool, true, false, ◌&&◌, ◌||◌, List, [], ◌∷◌, ◌++◌, Option, none, some,
  ltb, leb, ◌==◌, if◌then◌else◌, text, any, get_elem?, drop,
}
use ghostrs.Protocol.Buffer.{Bytes}
use ghostrs.Engine.Rejoin.{eq_ignore_ascii_case}
use ghostrs.Engine.Phases.{◌>>=◌}
use ghostrs.Engine.Chat.{ChatCommand}

-- The first arm that has the verb.
unfoldable pub dispatch : List Arm → Bytes → List Bytes → Option ChatCommand
dispatch [] verb args = some (ChatCommand.unknown verb)
dispatch ((verbs, f) ∷ arms) verb args =
    let rest = dispatch arms verb args in if any (same_text verb) verbs then f args else rest

abbrev pub split_verb : (Bytes → Bytes) → List Bytes → Option ChatCommand
split_verb lowercase [] = none
split_verb lowercase (verb ∷ args) = dispatch (first_arms ++ last_arms) (lowercase verb) args

-- `msg.strip_prefix(trigger)`.
abbrev pub strip_trigger : ℕ → Bytes → Option Bytes
strip_trigger trigger [] = none
strip_trigger trigger (c ∷ rest) = if c == trigger then some rest else none

unfoldable pub parse_command :
    (Bytes → List Bytes) → (Bytes → Bytes) → ℕ → Bytes → Option ChatCommand
parse_command words lowercase trigger msg =
    strip_trigger trigger msg >>= λ rest. split_verb lowercase (words rest)
