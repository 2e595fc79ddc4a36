-- ===== src/Protocol/Buffer/Local.antt =====
-- Reads that look at no more than they take: more bytes at the end change nothing. So a packet that
-- is cut short anywhere cannot be read as the whole packet is.
use ghostrs.Base.{
  ℕ, ◌<◌, ◌≡◌, refl, sym, ap, ◌∙◌, [], ◌∷◌, ◌++◌, arith, length, take, drop, length-append,
  length-drop, take-append_le, drop-append_le, take-append-drop,
}
use ghostrs.Protocol.Error.{ProtoError, Result, ok, err}
use ghostrs.Protocol.Buffer.{
  Bytes, Read, continue, ◌>>=◌, return, fail, try_get_u8, try_get_u16_le, try_get_u32_le,
  try_get_bytes, try_get_cstring, cstring_loop,
}

abbrev pub IsLocal : {A : Type 0} → Read A → Type 0
IsLocal {A} m =
    (src more rest : Bytes) (a : A) → m src ≡ (ok a, rest) → m (src ++ more) ≡ (ok a, rest ++ more)

pub return-IsLocal : {A : Type 0} (a : A) → IsLocal (return a)
return-IsLocal a src more rest b e = cc

pub fail-IsLocal : {A : Type 0} (e : ProtoError) → IsLocal (fail {A = A} e)
fail-IsLocal e src more rest b h = cc

pub >>=-IsLocal :
    {A B : Type 0} (m : Read A) (f : A → Read B)
    → IsLocal m
    → ((a : A) → IsLocal (f a))
    → IsLocal (m >>= f)
>>=-IsLocal {A} {B} m f lm lf src more rest b e = go (m src) refl e
  where
    go :
        (r : Result A × Bytes)
        → m src ≡ r
        → continue f r ≡ (ok b, rest)
        → continue f (m (src ++ more)) ≡ (ok b, rest ++ more)
    go (ok a, mid) q h = rw (lm src more mid a q) (lf a mid more rest b h)
    go (err x, mid) q h = cc

u8-IsLocal : IsLocal try_get_u8
unfolding try_get_u8
u8-IsLocal [] more rest a e = ground (arith, e)
u8-IsLocal (x ∷ src) more rest a e = ground (arith, e)

u16-IsLocal : IsLocal try_get_u16_le
unfolding try_get_u16_le
u16-IsLocal [] more rest a e = ground (arith, e)
u16-IsLocal (x ∷ []) more rest a e = ground (arith, e)
u16-IsLocal (x ∷ y ∷ src) more rest a e = ground (arith, e)

u32-IsLocal : IsLocal try_get_u32_le
unfolding try_get_u32_le
u32-IsLocal [] more rest a e = ground (arith, e)
u32-IsLocal (x ∷ []) more rest a e = ground (arith, e)
u32-IsLocal (x ∷ y ∷ []) more rest a e = ground (arith, e)
u32-IsLocal (x ∷ y ∷ z ∷ []) more rest a e = ground (arith, e)
u32-IsLocal (x ∷ y ∷ z ∷ w ∷ src) more rest a e = ground (arith, e)

bytes-IsLocal : (n : ℕ) → IsLocal (try_get_bytes n)
unfolding try_get_bytes
bytes-IsLocal n src more rest a e =
    ground (arith, e, length-append src more, take-append_le n src more, drop-append_le n src more)

cstring_loop-IsLocal : (out : Bytes) → IsLocal (cstring_loop out)
unfolding cstring_loop
cstring_loop-IsLocal out [] more rest a e = cc
cstring_loop-IsLocal out (b ∷ src) more rest a e =
    ground (arith, cstring_loop-IsLocal (out ++ b ∷ []) src more rest a)

cstring-IsLocal : IsLocal try_get_cstring
unfolding try_get_cstring
cstring-IsLocal = cstring_loop-IsLocal []

-- Each read of bytes_ext.rs is local.
pub reads-IsLocal :
    IsLocal try_get_u8
    × IsLocal try_get_u16_le
    × IsLocal try_get_u32_le
    × ((n : ℕ) → IsLocal (try_get_bytes n))
    × IsLocal try_get_cstring
reads-IsLocal = (u8-IsLocal, u16-IsLocal, u32-IsLocal, bytes-IsLocal, cstring-IsLocal)

-- A local read that takes the whole of `full` fails on every proper prefix of it.
pub cut_fails :
    {A : Type 0} (m : Read A) (full : Bytes) (a : A) (k : ℕ)
    → IsLocal m
    → m full ≡ (ok a, [])
    → k < length full
    → (e : ProtoError) × ((m (take k full)).0 ≡ err e)
cut_fails {A} m full a k l h lt = go (m (take k full)) refl
  where
    go : (r : Result A × Bytes) → m (take k full) ≡ r → (e : ProtoError) × (r.0 ≡ err e)
    go (err e, rest) q = (e, refl)
    go (ok b, rest) q =
        let both = l (take k full) (drop k full) rest b q in
        let same : (ok b, rest ++ drop k full) ≡ (ok a, []) =
          sym both ∙ (ap m (take-append-drop k full) ∙ h) in
        absurd (
          omega (
            arith,
            ap (λ (p : Result A × Bytes). length (p.1)) same,
            length-append rest (drop k full),
            length-drop k full,
          ))
