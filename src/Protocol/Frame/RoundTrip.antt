-- ===== src/Protocol/Frame/RoundTrip.antt =====
-- A frame that was encoded comes back, and leaves what stands behind it.
use ghostrs.Base.{
  ℕ, ◌+◌, ◌≤◌, ◌<◌, ◌≡◌, ◌∷◌, ◌++◌, some, length, arith, le16, take-append, drop-append,
  length-append, from_le16-le16,
}
use ghostrs.Protocol.Error.{too_large, ok, err}
use ghostrs.Protocol.Buffer.{Bytes}
use ghostrs.Protocol.Frame.{Frame, encode_with, decode_synced, decode}

-- The bytes of a frame.
abbrev pub wire : ℕ → Frame → Bytes
wire h f = h ∷ f.id ∷ le16 (4 + length f.payload) ++ f.payload

-- `encode_with` fails on a payload that the 16-bit length cannot tell, and on no other.
pub encode_with_lem :
    (f : Frame) (h : ℕ)
    → (length f.payload ≤ 65531 → encode_with f h ≡ ok (wire h f))
      × (65531 < length f.payload → encode_with f h ≡ err (too_large (4 + length f.payload)))
unfolding encode_with
encode_with_lem f h = (λ l. ground arith, λ l. ground arith)

decode_synced-wire :
    (h id : ℕ) (payload rest : Bytes)
    → length payload ≤ 65531
    → decode_synced (h ∷ id ∷ le16 (4 + length payload) ++ payload ++ rest)
      ≡ (ok (some (record { id = id; payload = payload })), rest)
unfolding decode_synced
decode_synced-wire h id payload rest l = ground (
  arith,
  from_le16-le16 (4 + length payload) (omega arith),
  take-append payload rest,
  drop-append payload rest,
  length-append payload rest,
)

pub decode-wire :
    (h : ℕ) (f : Frame) (rest : Bytes)
    → length f.payload ≤ 65531
    → decode h (wire h f ++ rest) ≡ (ok (some f), rest)
unfolding decode
decode-wire h f rest l = ground (arith, decode_synced-wire h f.id f.payload rest l)

-- What `encode_with` returns, `decode` reads back, whatever follows in the buffer.
pub decode-encode_with :
    (h : ℕ) (f : Frame) (bytes rest : Bytes)
    → encode_with f h ≡ ok bytes
    → decode h (bytes ++ rest) ≡ (ok (some f), rest)
unfolding encode_with
decode-encode_with h f bytes rest e = ground (arith, decode-wire h f rest)
