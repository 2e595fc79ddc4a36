-- ===== src/Protocol/Frame.antt =====
-- crates/spectre-protocol/src/frame.rs: the framing that the W3GS, BNCS and GPS protocols share.
pub mod RoundTrip
pub mod Stream
use ghostrs.Base.{
  ℕ, ◌+◌, ◌-◌, ◌^◌, ◌≡◌, Bool, true, false, ◌&&◌, not, List, [], ◌∷◌, ◌++◌, Option, none, some, ltb,
  leb, ◌==◌, if◌then◌else◌, length, get_or, take, drop, position, from_le16, le16, as_u16,
}
use ghostrs.Protocol.Error.{ProtoError, bad_value, too_large, Result, ok, err}
use ghostrs.Protocol.Buffer.{Bytes}

abbrev pub header_len : ℕ
header_len = 4

pub record Frame : Type 0 where
  pub id : ℕ
  pub payload : Bytes

-- `Frame::encode_with`.
unfoldable pub encode_with : Frame → ℕ → Result Bytes
encode_with f header =
    let total = header_len + length f.payload in
    if ltb 65535 total
    then err (too_large total)
    else ok (header ∷ f.id ∷ le16 (as_u16 total) ++ f.payload)

-- `HeaderCodec::<H>::decode` once the buffer begins with the header byte, or is empty.
unfoldable pub decode_synced : Bytes → Result (Option Frame) × Bytes
decode_synced src =
    let total = from_le16 (get_or src 2 0) (get_or src 3 0) in
    if ltb (length src) header_len
    then (ok none, src)
    else if ltb total header_len
    then (err (bad_value "frame length below header size"), drop 1 src)
    else if ltb (length src) total
    then (ok none, src)
    else (
      ok (
          some (record {
            id = get_or src 1 0;
            payload = take (total - header_len) (drop header_len src);
          })),
      drop (total - header_len) (drop header_len src),
    )

-- `src.advance(pos)`, or `src.clear()` where the header byte does not occur.
unfoldable pub resync : Option ℕ → Bytes → Result (Option Frame) × Bytes
resync none src = (ok none, [])
resync (some pos) src = decode_synced (drop pos src)

unfoldable pub decode : ℕ → Bytes → Result (Option Frame) × Bytes
decode h src =
    if not (leb (length src) 0) && not (get_or src 0 0 == h)
    then resync (position (λ b. b == h) src) src
    else decode_synced src

-- `HeaderCodec::<H>::encode`: a packet is ready bytes, and goes behind what waits.
unfoldable pub encode : Bytes → Bytes → Bytes
encode item dst = dst ++ item
