-- ===== src/Tests/Protocol.antt =====
-- The framing, the reads and the packets at concrete inputs.
use ghostrs.Base.{ℕ, ◌≡◌, refl, List, [], ◌∷◌, ◌++◌, some, arith, length, take}
use ghostrs.Protocol.Error.{ProtoError, ok, err}
use ghostrs.Protocol.Buffer.{Bytes, try_get_u32_le}
use ghostrs.Protocol.Buffer.Local.{reads-IsLocal, cut_fails}
use ghostrs.Protocol.Buffer.Statstring.{encode_statstring, decode_statstring}
use ghostrs.Protocol.Buffer.Statstring.RoundTrip.{
  decode-encode_statstring, length-encode_statstring,
}
use ghostrs.Protocol.Frame.{Frame, encode_with, decode}
use ghostrs.Protocol.Frame.RoundTrip.{decode-encode_with}
use ghostrs.Protocol.Frame.Stream.{resume, decode-resume}

abbrev ping : Frame
ping = record { id = 0x46; payload = 7 ∷ 0 ∷ 0 ∷ 0 ∷ [] }

abbrev ping_bytes : Bytes
ping_bytes = 0xF7 ∷ 0x46 ∷ 8 ∷ 0 ∷ 7 ∷ 0 ∷ 0 ∷ 0 ∷ []

-- The first call has half a ping behind two stray bytes.
decode-resume_example :
    decode 0xF7 (1 ∷ 2 ∷ 0xF7 ∷ 0x46 ∷ 8 ∷ 0 ∷ 7 ∷ 0 ∷ 0 ∷ 0 ∷ 9 ∷ [])
    ≡ resume 0xF7 (decode 0xF7 (1 ∷ 2 ∷ 0xF7 ∷ 0x46 ∷ 8 ∷ [])) (0 ∷ 7 ∷ 0 ∷ 0 ∷ 0 ∷ 9 ∷ [])
decode-resume_example =
    decode-resume 0xF7 (1 ∷ 2 ∷ 0xF7 ∷ 0x46 ∷ 8 ∷ []) (0 ∷ 7 ∷ 0 ∷ 0 ∷ 0 ∷ 9 ∷ [])

decode-encode_with_example : decode 0xF7 (ping_bytes ++ 1 ∷ 2 ∷ []) ≡ (ok (some ping), 1 ∷ 2 ∷ [])
unfolding encode_with
decode-encode_with_example = decode-encode_with 0xF7 ping ping_bytes (1 ∷ 2 ∷ []) refl

cut_fails_example : (e : ProtoError) × ((try_get_u32_le (take 3 (1 ∷ 2 ∷ 3 ∷ 4 ∷ []))).0 ≡ err e)
unfolding try_get_u32_le
cut_fails_example =
    cut_fails try_get_u32_le (1 ∷ 2 ∷ 3 ∷ 4 ∷ []) 0x04030201 3 (reads-IsLocal.2) refl (omega arith)

abbrev raw : List ℕ
raw = 0 ∷ 1 ∷ 2 ∷ 255 ∷ 254 ∷ 77 ∷ 0 ∷ 78 ∷ []

decode-encode_statstring_example : decode_statstring (encode_statstring raw) ≡ raw
decode-encode_statstring_example = decode-encode_statstring raw (ground arith)

length-encode_statstring_example : length (encode_statstring raw) ≡ 10
length-encode_statstring_example = length-encode_statstring raw
