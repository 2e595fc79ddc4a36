-- ===== src/Engine/Chat/Words.antt =====
-- The words of a chat line, as `slot_arg` and `parse_command` of crates/spectre-engine/src/chat.rs
-- read them.

use ghostrs.Base.{
  ◌^◌, ℕ, ◌+◌, ◌-◌, ◌*◌, Bool, true, false, ◌&&◌, ◌||◌, List, [], ◌∷◌, ◌++◌, Option, none, some,
  ltb, leb, ◌==◌, if◌then◌else◌, text, drop,
}
use ghostrs.Protocol.Buffer.{Bytes}
use ghostrs.Engine.Rejoin.{eq_ignore_ascii_case}
use ghostrs.Engine.Phases.{◌>>=◌}

unfoldable pub same_text : Bytes → Bytes → Bool
same_text [] [] = true
same_text [] (y ∷ ys) = false
same_text (x ∷ xs) [] = false
same_text (x ∷ xs) (y ∷ ys) = (x == y) && same_text xs ys

-- The digits behind the sign of `str::parse`, with the value so far; `limit` is the first number that
-- the type does not have.
unfoldable pub parse_digits : ℕ → ℕ → Bytes → Option ℕ
parse_digits limit value [] = some value
parse_digits limit value (c ∷ rest) =
    let value' = value * 10 + (c - 48) in
    let tail = parse_digits limit value' rest in
    if leb 48 c && (leb c 57 && ltb value' limit) then tail else none

abbrev pub parse_unsigned : ℕ → Bytes → Option ℕ
parse_unsigned limit [] = none
parse_unsigned limit (c ∷ []) = if c == 43 then none else parse_digits limit 0 (c ∷ [])
parse_unsigned limit (c ∷ d ∷ rest) =
    if c == 43 then parse_digits limit 0 (d ∷ rest) else parse_digits limit 0 (c ∷ d ∷ rest)

abbrev pub parse_u8 : Bytes → Option ℕ
parse_u8 s = parse_unsigned (2 ^ 8) s

abbrev pub parse_u32 : Bytes → Option ℕ
parse_u32 s = parse_unsigned (2 ^ 32) s

abbrev pub parse_u64 : Bytes → Option ℕ
parse_u64 s = parse_unsigned (2 ^ 64) s

-- `n.checked_sub(1)`.
abbrev pub checked_pred : ℕ → Option ℕ
checked_pred n = if n == 0 then none else some (n - 1)

unfoldable pub slot_arg : Bytes → Option ℕ
slot_arg s = parse_u8 s >>= checked_pred

-- `args.join(" ")`.
unfoldable pub join_words : List Bytes → Bytes
join_words [] = []
join_words (w ∷ []) = w
join_words (w ∷ v ∷ ws) = w ++ text " " ++ join_words (v ∷ ws)

abbrev pub arg_or : Bytes → Option Bytes → Bytes
arg_or default none = default
arg_or default (some s) = s

-- `and_then(|s| s.parse().ok()).unwrap_or(default)`.
abbrev pub parsed_or : ℕ → Option ℕ → ℕ
parsed_or default none = default
parsed_or default (some n) = n

-- `args.get(1..).map(|r| r.join(" "))`, where there is a first argument.
abbrev pub text_behind : List Bytes → Bytes
text_behind args = join_words (drop 1 args)

abbrev pub on_or_off : Bytes → Option Bool
on_or_off s =
    if eq_ignore_ascii_case s (text "on") || eq_ignore_ascii_case s (text "1")
    then some true
    else if eq_ignore_ascii_case s (text "off") || eq_ignore_ascii_case s (text "0")
    then some false
    else none

abbrev pub is_force : Option Bytes → Bool
is_force none = false
is_force (some s) = eq_ignore_ascii_case s (text "force") || eq_ignore_ascii_case s (text "f")

abbrev pub is_empty_text : Bytes → Bool
is_empty_text [] = true
is_empty_text (c ∷ s) = false
