-- ===== src/Net/Conn.antt =====
-- The codecs of crates/spectre-net/src/conn.rs: how a connection's bytes become frames of one of three
-- protocols.
pub mod Streams
use ghostrs.Base.{
  ℕ, Bool, true, false, ◌||◌, not, List, [], ◌∷◌, Option, none, some, ◌==◌, if◌then◌else◌, drop,
  position,
}
use ghostrs.Protocol.Error.{Result, ok, err}
use ghostrs.Protocol.Buffer.{Bytes}
use ghostrs.Protocol.Frame.{Frame, decode}
use ghostrs.Protocol.Gps.{gps_header, gps_iccup_header}
use ghostrs.Protocol.W3gs.Outgoing.{w3gs_header}

pub data AnyFrame : Type 0 where
  w3gs gps iccup_gps dota_tv : Frame → AnyFrame

abbrev pub AnyDecoded : Type 0
AnyDecoded = Result (Option AnyFrame) × Bytes

-- `.map(|opt| opt.map(tag))`.
abbrev pub tagged : (Frame → AnyFrame) → Result (Option Frame) × Bytes → AnyDecoded
tagged tag (ok none, rest) = (ok none, rest)
tagged tag (ok (some f), rest) = (ok (some (tag f)), rest)
tagged tag (err e, rest) = (err e, rest)

-- `DotaTvConnCodec::decode`.
unfoldable pub decode_dota_tv : Bytes → AnyDecoded
decode_dota_tv src = tagged dota_tv (decode 0xFD src)

abbrev pub is_header : ℕ → Bool
is_header b = b == w3gs_header || (b == gps_header || b == gps_iccup_header)

-- `DualCodec::decode` once the buffer begins with a header byte, or is empty.
unfoldable pub dispatch : Bytes → AnyDecoded
dispatch [] = (ok none, [])
dispatch (b ∷ rest) =
    if b == w3gs_header
    then tagged w3gs (decode w3gs_header (b ∷ rest))
    else if b == gps_header
    then tagged gps (decode gps_header (b ∷ rest))
    else tagged iccup_gps (decode gps_iccup_header (b ∷ rest))

-- The loop that skips: behind `split_to(pos)` the buffer begins with a header byte, so one round
-- ends it; without a header byte the buffer is cleared.
abbrev pub skip_to : Option ℕ → Bytes → AnyDecoded
skip_to none src = (ok none, [])
skip_to (some pos) src = dispatch (drop pos src)

unfoldable pub decode_dual : Bytes → AnyDecoded
decode_dual [] = (ok none, [])
decode_dual (b ∷ rest) =
    if is_header b then dispatch (b ∷ rest) else skip_to (position is_header (b ∷ rest)) (b ∷ rest)
