-- ===== src/Protocol/Utf8.antt =====
-- `String::from_utf8_lossy` of Rust's standard library, as a machine over the bytes: each maximal
-- ill-formed part becomes U+FFFD, whose UTF-8 bytes are EF BF BD.
use ghostrs.Base.{
  ℕ, zero, suc, ◌<◌, ◌≡◌, refl, ◌&&◌, List, [], ◌∷◌, ◌++◌, arith, ltb, leb, ◌==◌, if◌then◌else◌,
  All,
}

-- Inside a sequence: the bytes so far, how many are due, and the range of the next one.
pub data State : Type 0 where
  start : State
  more : List ℕ → ℕ → ℕ → ℕ → State

abbrev pub replacement : List ℕ
replacement = 0xEF ∷ 0xBF ∷ 0xBD ∷ []

-- What a byte does where a character begins: the next state, and the bytes put out.
pub begin : ℕ → State × List ℕ
begin b =
    if ltb b 0x80
    then (start, b ∷ [])
    else if ltb b 0xC2
    then (start, replacement)
    else if ltb b 0xE0
    then (more (b ∷ []) 1 0x80 0xBF, [])
    else if b == 0xE0
    then (more (b ∷ []) 2 0xA0 0xBF, [])
    else if b == 0xED
    then (more (b ∷ []) 2 0x80 0x9F, [])
    else if ltb b 0xF0
    then (more (b ∷ []) 2 0x80 0xBF, [])
    else if b == 0xF0
    then (more (b ∷ []) 3 0x90 0xBF, [])
    else if ltb b 0xF4
    then (more (b ∷ []) 3 0x80 0xBF, [])
    else if b == 0xF4
    then (more (b ∷ []) 3 0x80 0x8F, [])
    else (start, replacement)

-- `due` is at least 1 in every state that `begin` and `step` make.
pub step : State → ℕ → State × List ℕ
step start b = begin b
step (more seen due lo hi) b =
    if leb lo b && leb b hi
    then (if leb due 1
        then (start, seen ++ b ∷ [])
        else (more (seen ++ b ∷ []) (due_less due) 0x80 0xBF, []))
    else (let (s, out) = begin b in (s, replacement ++ out))
  where
    due_less : ℕ → ℕ
    due_less zero = zero
    due_less (suc n) = n

pub lossy_from : State → List ℕ → List ℕ
lossy_from start [] = []
lossy_from (more seen due lo hi) [] = replacement
lossy_from s (b ∷ bs) = let (s', out) = step s b in out ++ lossy_from s' bs

pub from_utf8_lossy : List ℕ → List ℕ
from_utf8_lossy bs = lossy_from start bs

-- A Rust `String` holds UTF-8, which the conversion leaves alone.
abbrev pub IsUtf8 : List ℕ → Type 0
IsUtf8 bs = from_utf8_lossy bs ≡ bs

-- ASCII text is UTF-8.
pub ascii-IsUtf8 : (bs : List ℕ) → All (λ b. b < 0x80) bs → IsUtf8 bs
unfolding from_utf8_lossy lossy_from step begin
ascii-IsUtf8 [] h = refl
ascii-IsUtf8 (b ∷ bs) h = ground (arith, ascii-IsUtf8 bs h.1)
