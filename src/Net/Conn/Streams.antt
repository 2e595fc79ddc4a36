-- ===== src/Net/Conn/Streams.antt =====
-- The dual codec on a stream: what was sent comes out, wherever the network cuts the bytes.
use mathlib.Core.Option
use ghostrs.Base.{
  ℕ, suc, ◌≤◌, ◌≡◌, refl, sym, ap, ◌∙◌, ◌⊎◌, inl, inr, true, false, [], ◌∷◌, ◌++◌, Option, none,
  some, arith, ◌==◌, if◌then◌else◌, length, position, All, Bool-cases,
}
use ghostrs.Protocol.Error.{ok, err}
use ghostrs.Protocol.Buffer.{Bytes}
use ghostrs.Protocol.Frame.{Frame, decode, decode_synced}
use ghostrs.Protocol.Frame.RoundTrip.{wire, decode-wire}
use ghostrs.Protocol.Frame.Stream.{Decoded, resume, decode-resume, decode-here}
use ghostrs.Protocol.Gps.{gps_header, gps_iccup_header}
use ghostrs.Protocol.W3gs.Outgoing.{w3gs_header}
use ghostrs.Net.Conn.{
  AnyFrame, w3gs, gps, iccup_gps, AnyDecoded, tagged, is_header, dispatch, skip_to, decode_dual,
}

-- A byte that begins no frame is skipped.
decode_dual-skip :
    (b : ℕ) (rest : Bytes) → is_header b ≡ false → decode_dual (b ∷ rest) ≡ decode_dual rest
unfolding decode_dual
decode_dual-skip b [] miss = rw miss refl
decode_dual-skip b (c ∷ rest) miss = elim (Bool-cases (is_header c)) [
  | inl hit ↦ rw (miss, hit) refl
  | inr other ↦ rw (miss, other) (again (position is_header rest))
]
  where
    again :
        (o : Option ℕ)
        → skip_to (Option.map suc (Option.map suc o)) (b ∷ c ∷ rest)
          ≡ skip_to (Option.map suc o) (c ∷ rest)
    again none = refl
    again (some n) = refl

-- The next call on the bytes that were left, once `more` has come in.
unfoldable pub resume_dual : AnyDecoded → Bytes → AnyDecoded
resume_dual (ok none, rest) more = decode_dual (rest ++ more)
resume_dual (ok (some f), rest) more = (ok (some f), rest ++ more)
resume_dual (err e, rest) more = (err e, rest ++ more)

-- A frame among its protocol's, by the header byte.
abbrev pub tag_of : ℕ → Frame → AnyFrame
tag_of h f = if h == w3gs_header then w3gs f else if h == gps_header then gps f else iccup_gps f

decode_dual-header :
    (h : ℕ) (rest : Bytes)
    → is_header h ≡ true
    → decode_dual (h ∷ rest) ≡ tagged (tag_of h) (decode h (h ∷ rest))
unfolding decode_dual dispatch
decode_dual-header h rest hit = elim which [
  | inl e ↦ rw e refl
  | inr (inl e) ↦ rw e refl
  | inr (inr e) ↦ rw e refl
]
  where
    which : (h ≡ w3gs_header) ⊎ (h ≡ gps_header) ⊎ (h ≡ gps_iccup_header)
    which = ground (arith, hit)

-- A call that finds no whole frame leaves the buffer as it was.
waits_whole : (h : ℕ) (xs rest : Bytes) → decode_synced (h ∷ xs) ≡ (ok none, rest) → rest ≡ h ∷ xs
unfolding decode_synced
waits_whole h xs rest e = ground (arith, e)

tagged-resume :
    (h : ℕ) (xs more : Bytes) (d : Decoded)
    → is_header h ≡ true
    → decode_synced (h ∷ xs) ≡ d
    → tagged (tag_of h) (resume h d more) ≡ resume_dual (tagged (tag_of h) d) more
unfolding resume resume_dual
tagged-resume h xs more (ok (some f), rest) hit e = refl
tagged-resume h xs more (err x, rest) hit e = refl
tagged-resume h xs more (ok none, rest) hit e =
    rw (waits_whole h xs rest e) (sym (decode_dual-header h (xs ++ more) hit))

-- Decoding does not depend on where the stream is cut: what a call makes of the first part, resumed
-- with the second, is what it makes of both at once.
pub decode_dual-resume :
    (src more : Bytes) → decode_dual (src ++ more) ≡ resume_dual (decode_dual src) more
decode_dual-resume [] more = unfold decode_dual resume_dual in refl
decode_dual-resume (h ∷ xs) more = elim (Bool-cases (is_header h)) [
  | inr miss ↦
      decode_dual-skip h (xs ++ more) miss
      ∙ decode_dual-resume xs more
      ∙ ap (λ d. resume_dual d more) (sym (decode_dual-skip h xs miss))
  | inl hit ↦
      decode_dual-header h (xs ++ more) hit
      ∙ ap (tagged (tag_of h)) (decode-resume h (h ∷ xs) more)
      ∙ ap (λ d. tagged (tag_of h) (resume h d more)) (decode-here h xs)
      ∙ tagged-resume h xs more (decode_synced (h ∷ xs)) hit refl
      ∙ ap (λ d. resume_dual (tagged (tag_of h) d) more) (sym (decode-here h xs))
      ∙ ap (λ d. resume_dual d more) (sym (decode_dual-header h xs hit))
]

-- Behind bytes that begin no frame, a frame of one of the three protocols that fits its length field
-- is read as a frame of that protocol, and what follows it is left.
pub decode_dual-wire :
    (junk : Bytes) (h : ℕ) (f : Frame) (rest : Bytes)
    → All (λ b. is_header b ≡ false) junk
    → is_header h ≡ true
    → length f.payload ≤ 65531
    → decode_dual (junk ++ wire h f ++ rest) ≡ (ok (some (tag_of h f)), rest)
decode_dual-wire [] h f rest none_in hit fits =
    decode_dual-header h _ hit ∙ ap (tagged (tag_of h)) (decode-wire h f rest fits)
decode_dual-wire (b ∷ junk) h f rest none_in hit fits =
    decode_dual-skip b (junk ++ wire h f ++ rest) none_in.0
    ∙ decode_dual-wire junk h f rest none_in.1 hit fits
