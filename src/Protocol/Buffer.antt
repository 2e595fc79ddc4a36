-- ===== src/Protocol/Buffer.antt =====
-- crates/spectre-protocol/src/bytes_ext.rs: reads from a cursor that fail on a short buffer. The
-- buffers of the `bytes` crate (`Bytes`, `BytesMut`, `impl Buf`) are the lists of their bytes.
pub mod Reads
pub mod Local
pub mod Statstring
use ghostrs.Base.{
  ℕ, ◌+◌, ◌<◌, ◌≡◌, refl, List, [], ◌∷◌, ◌++◌, arith, ltb, ◌==◌, if◌then◌else◌, length, get_or,
  take, drop, from_le16, from_le32,
}
use ghostrs.Protocol.Error.{ProtoError, truncated, unterminated_string, Result, ok, err}
use ghostrs.Protocol.Utf8.{from_utf8_lossy}

abbrev pub Bytes : Type 0
Bytes = List ℕ

-- A read takes the buffer, and leaves it advanced, after an error too.
abbrev pub Read : Type 0 → Type 0
Read A = Bytes → Result A × Bytes

abbrev continue : {A B : Type 0} → (A → Read B) → Result A × Bytes → Result B × Bytes
continue f (ok a, b) = f a b
continue f (err e, b) = (err e, b)

-- The `?` operator.
infixl 5 ◌>>=◌ ◌>>◌
abbrev pub ◌>>=◌ : {A B : Type 0} → Read A → (A → Read B) → Read B
◌>>=◌ m f b = continue f (m b)

abbrev pub ◌>>◌ : {A B : Type 0} → Read A → Read B → Read B
m >> k = m >>= λ _. k

abbrev pub return : {A : Type 0} → A → Read A
return a b = (ok a, b)

abbrev pub fail : {A : Type 0} → ProtoError → Read A
fail e b = (err e, b)

-- The guard that the fixed-size reads share: `n` bytes, or the error and an untouched buffer.
abbrev pub reading : {A : Type 0} → ℕ → (Bytes → A) → Read A
reading n get b =
    if ltb (length b) n then (err (truncated n (length b)), b) else (ok (get b), drop n b)

unfoldable pub try_get_u8 : Read ℕ
try_get_u8 = reading 1 (λ b. get_or b 0 0)

unfoldable pub try_get_u16_le : Read ℕ
try_get_u16_le = reading 2 (λ b. from_le16 (get_or b 0 0) (get_or b 1 0))

unfoldable pub try_get_u32_le : Read ℕ
try_get_u32_le =
    reading 4 (λ b. from_le32 (get_or b 0 0) (get_or b 1 0) (get_or b 2 0) (get_or b 3 0))

unfoldable pub try_get_bytes : ℕ → Read Bytes
try_get_bytes n = reading n (take n)

-- The loop of `try_get_cstring`, with the bytes that it has pushed on `out`.
cstring_loop : Bytes → Read Bytes
cstring_loop out [] = (err unterminated_string, [])
cstring_loop out (b ∷ rest) =
    if b == 0 then (ok (from_utf8_lossy out), rest) else cstring_loop (out ++ b ∷ []) rest

unfoldable pub try_get_cstring : Read Bytes
unfolding cstring_loop
try_get_cstring = cstring_loop []

-- `put_cstring(buf, s)` appends this.
abbrev pub cstring : Bytes → Bytes
cstring s = s ++ 0 ∷ []
