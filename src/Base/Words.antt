-- ===== src/Base/Words.antt =====
-- Text as its bytes, and Rust's machine integers as native numbers, and their little-endian bytes.
use Prim.Native.Nat.{ℕ, ◌+◌, ◌*◌, ◌/◌, ◌%◌, ◌^◌, ◌<◌}
use mathlib.Core.Path.{◌≡◌}
use mathlib.Core.List.{List, [], ◌∷◌}
use Prim.Native.Char.{code}
use Prim.Native.String.{String}
use native.Mathlib.Omega.{arith}

-- The bytes of an ASCII literal.
abbrev pub text : String → List ℕ
text String.[] = []
text (String.◌∷◌ c s) = code c ∷ text s

abbrev pub IsU8 : ℕ → Type 0
IsU8 x = x < 256

abbrev pub IsU16 : ℕ → Type 0
IsU16 x = x < 2 ^ 16

abbrev pub IsU32 : ℕ → Type 0
IsU32 x = x < 2 ^ 32

-- `x as u8`, `x as u16`, `x as u32`.
abbrev pub as_u8 : ℕ → ℕ
as_u8 x = x % 256

abbrev pub as_u16 : ℕ → ℕ
as_u16 x = x % 2 ^ 16

abbrev pub as_u32 : ℕ → ℕ
as_u32 x = x % 2 ^ 32

-- `to_le_bytes` and `from_le_bytes` of u16 and u32.
abbrev pub le16 : ℕ → List ℕ
le16 x = x % 256 ∷ x / 256 % 256 ∷ []

abbrev pub le32 : ℕ → List ℕ
le32 x = x % 256 ∷ x / 256 % 256 ∷ x / 65536 % 256 ∷ x / 16777216 % 256 ∷ []

abbrev pub from_le16 : ℕ → ℕ → ℕ
from_le16 a b = a + 256 * b

abbrev pub from_le32 : ℕ → ℕ → ℕ → ℕ → ℕ
from_le32 a b c d = a + 256 * b + 65536 * c + 16777216 * d

pub from_le16-le16 : (x : ℕ) → IsU16 x → from_le16 (x % 256) (x / 256 % 256) ≡ x
from_le16-le16 x h = omega arith

pub from_le32-le32 :
    (x : ℕ)
    → IsU32 x
    → from_le32 (x % 256) (x / 256 % 256) (x / 65536 % 256) (x / 16777216 % 256) ≡ x
from_le32-le32 x h = omega arith
