-- ===== src/Protocol/Buffer/Reads.antt =====
-- What a read of bytes_ext.rs gives back of what was written, and what it does on a short buffer.
use ghostrs.Base.{
  ℕ, ◌<◌, ◌≡◌, ◌≢◌, refl, [], ◌∷◌, ◌++◌, arith, length, All, IsU16, IsU32, le16, le32, append_assoc,
  append-nil, take-append, drop-append, length-append, from_le16-le16, from_le32-le32,
}
use ghostrs.Protocol.Error.{ok, err, truncated, unterminated_string}
use ghostrs.Protocol.Utf8.{IsUtf8, from_utf8_lossy}
use ghostrs.Protocol.Buffer.{
  Bytes, try_get_u8, try_get_u16_le, try_get_u32_le, try_get_bytes, try_get_cstring, cstring_loop,
  cstring,
}

abbrev pub NulFree : Bytes → Type 0
NulFree = All (λ b. b ≢ 0)

pub get_u8 : (x : ℕ) (rest : Bytes) → try_get_u8 (x ∷ rest) ≡ (ok x, rest)
unfolding try_get_u8
get_u8 x rest = ground arith

pub get_u16 : (x : ℕ) (rest : Bytes) → IsU16 x → try_get_u16_le (le16 x ++ rest) ≡ (ok x, rest)
unfolding try_get_u16_le
get_u16 x rest h = ground (arith, from_le16-le16 x h)

pub get_u32 : (x : ℕ) (rest : Bytes) → IsU32 x → try_get_u32_le (le32 x ++ rest) ≡ (ok x, rest)
unfolding try_get_u32_le
get_u32 x rest h = ground (arith, from_le32-le32 x h)

pub get_bytes :
    (xs rest : Bytes) (n : ℕ) → n ≡ length xs → try_get_bytes n (xs ++ rest) ≡ (ok xs, rest)
unfolding try_get_bytes
get_bytes xs rest n e =
    ground (arith, length-append xs rest, take-append xs rest, drop-append xs rest)

cstring_loop-append :
    (s out rest : Bytes)
    → NulFree s
    → cstring_loop out (s ++ 0 ∷ rest) ≡ (ok (from_utf8_lossy (out ++ s)), rest)
unfolding cstring_loop
cstring_loop-append [] out rest h = simp append-nil
cstring_loop-append (b ∷ s) out rest h =
    ground (arith, cstring_loop-append s (out ++ b ∷ []) rest h.1, append_assoc out (b ∷ []) s)

-- A string of UTF-8 without a NUL comes back, and what stands behind it is left.
pub get_cstring :
    (s rest : Bytes) → NulFree s → IsUtf8 s → try_get_cstring (cstring s ++ rest) ≡ (ok s, rest)
unfolding try_get_cstring
get_cstring s rest h u =
    ground (arith, append_assoc s (0 ∷ []) rest, cstring_loop-append s [] rest h)

cstring_loop-NulFree :
    (s out : Bytes) → NulFree s → cstring_loop out s ≡ (err unterminated_string, [])
unfolding cstring_loop
cstring_loop-NulFree [] out h = refl
cstring_loop-NulFree (b ∷ s) out h = ground (arith, cstring_loop-NulFree s (out ++ b ∷ []) h.1)

pub cstring_unterminated :
    (s : Bytes) → NulFree s → try_get_cstring s ≡ (err unterminated_string, [])
unfolding try_get_cstring
cstring_unterminated s h = cstring_loop-NulFree s [] h

-- A fixed-size read of a short buffer says what it needs and has, and takes nothing.
pub short_reads :
    (b : Bytes) (n : ℕ)
    → (length b < 1 → try_get_u8 b ≡ (err (truncated 1 (length b)), b))
      × (length b < 2 → try_get_u16_le b ≡ (err (truncated 2 (length b)), b))
      × (length b < 4 → try_get_u32_le b ≡ (err (truncated 4 (length b)), b))
      × (length b < n → try_get_bytes n b ≡ (err (truncated n (length b)), b))
unfolding try_get_u8 try_get_u16_le try_get_u32_le try_get_bytes
short_reads b n = (λ h. ground arith, λ h. ground arith, λ h. ground arith, λ h. ground arith)
