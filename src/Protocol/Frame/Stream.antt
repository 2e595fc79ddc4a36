-- ===== src/Protocol/Frame/Stream.antt =====
-- How `HeaderCodec::decode` reads a stream: it makes progress, and does not depend on where the
-- network cuts the bytes.
use mathlib.Core.Option
use ghostrs.Base.{
  ℕ, suc, ◌+◌, ◌-◌, ◌≤◌, ◌<◌, ◌≡◌, ◌≢◌, refl, [], ◌∷◌, ◌++◌, Option, none, some, get_or, ◌==◌,
  length, drop, position, arith, from_le16, length-append, take-append_le, drop-append_le,
  length-drop, length-take,
}
use native.Mathlib.Decide.{ℕ_discrete}
use ghostrs.Protocol.Error.{Result, ok, err}
use ghostrs.Protocol.Buffer.{Bytes}
use ghostrs.Protocol.Frame.{Frame, decode_synced, resync, decode, header_len}

abbrev pub Decoded : Type 0
Decoded = Result (Option Frame) × Bytes

-- What a call takes from the buffer.
abbrev pub Progress : Bytes → Decoded → Type 0
Progress src (ok none, rest) = length rest ≤ length src
Progress src (ok (some f), rest) = length rest + length f.payload + 4 ≤ length src
Progress src (err e, rest) = length rest < length src

decode_synced-Progress : (src : Bytes) → Progress src (decode_synced src)
unfolding decode_synced
decode_synced-Progress src = ground (
  arith,
  length-drop 1 src,
  length-drop header_len src,
  length-drop (from_le16 (get_or src 2 0) (get_or src 3 0) - header_len) (drop header_len src),
  length-take (from_le16 (get_or src 2 0) (get_or src 3 0) - header_len) (drop header_len src),
)

resync-map : (o : Option ℕ) (x : ℕ) (xs : Bytes) → resync (Option.map suc o) (x ∷ xs) ≡ resync o xs
unfolding resync
resync-map none x xs = refl
resync-map (some n) x xs = refl

resync-here : (h : ℕ) (ys : Bytes) → resync (some 0) (h ∷ ys) ≡ decode_synced (h ∷ ys)
unfolding resync
resync-here h ys = refl

-- A byte that is no header byte is skipped.
decode-skip : (h x : ℕ) (xs : Bytes) → x ≢ h → decode h (x ∷ xs) ≡ decode h xs
unfolding decode
decode-skip h x [] n = unfold decode_synced resync in ground arith
decode-skip h x (y ∷ ys) n = elim (ℕ_discrete y h) [
  | yes e ↦ rw e (ground (arith, resync-map (some 0) x (h ∷ ys), resync-here h ys))
  | no m ↦ ground (arith, resync-map (position (λ b. b == h) (y ∷ ys)) x (y ∷ ys))
]

pub decode-here : (h : ℕ) (xs : Bytes) → decode h (h ∷ xs) ≡ decode_synced (h ∷ xs)
unfolding decode
decode-here h xs = ground arith

-- The next call on the bytes that were left, once `more` has come in.
unfoldable pub resume : ℕ → Decoded → Bytes → Decoded
resume h (ok none, rest) more = decode h (rest ++ more)
resume h (ok (some f), rest) more = (ok (some f), rest ++ more)
resume h (err e, rest) more = (err e, rest ++ more)

decode_synced-resume :
    (h : ℕ) (src more : Bytes)
    → decode h (src ++ more) ≡ decode_synced (src ++ more)
    → decode_synced (src ++ more) ≡ resume h (decode_synced src) more
unfolding decode_synced resume
decode_synced-resume h [] more e = ground (arith, e)
decode_synced-resume h (a ∷ []) more e = ground (arith, e)
decode_synced-resume h (a ∷ b ∷ []) more e = ground (arith, e)
decode_synced-resume h (a ∷ b ∷ c ∷ []) more e = ground (arith, e)
decode_synced-resume h (a ∷ b ∷ c ∷ d ∷ rest) more e = ground (
  arith,
  e,
  length-append rest more,
  take-append_le (from_le16 c d - header_len) rest more,
  drop-append_le (from_le16 c d - header_len) rest more,
)

-- Decoding does not depend on where the stream is cut: what a call makes of the first part, resumed
-- with the second, is what it makes of both at once.
pub decode-resume :
    (h : ℕ) (src more : Bytes) → decode h (src ++ more) ≡ resume h (decode h src) more
unfolding resume
decode-resume h [] more = unfold decode decode_synced in refl
decode-resume h (x ∷ xs) more = elim (ℕ_discrete x h) [
  | yes e ↦
      rw (e, decode-here h xs, decode-here h (xs ++ more))
        (decode_synced-resume h (h ∷ xs) more (decode-here h (xs ++ more)))
  | no n ↦ rw (decode-skip h x xs n, decode-skip h x (xs ++ more) n) (decode-resume h xs more)
]

-- A call never grows the buffer; a frame takes its header and payload, an error at least a byte.
pub decode-Progress : (h : ℕ) (src : Bytes) → Progress src (decode h src)
decode-Progress h [] = unfold decode decode_synced in omega arith
decode-Progress h (x ∷ xs) = elim (ℕ_discrete x h) [
  | yes e ↦ rw (e, decode-here h xs) (decode_synced-Progress (h ∷ xs))
  | no n ↦ rw (decode-skip h x xs n) (longer xs x (decode h xs) (decode-Progress h xs))
]
  where
    longer : (xs : Bytes) (x : ℕ) (d : Decoded) → Progress xs d → Progress (x ∷ xs) d
    longer xs x (ok none, rest) p = omega arith
    longer xs x (ok (some f), rest) p = omega arith
    longer xs x (err e, rest) p = omega arith
