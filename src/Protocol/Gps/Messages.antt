-- ===== src/Protocol/Gps/Messages.antt =====
-- The messages always fit their frame, and the two that clients send are read back.
use ghostrs.Base.{
  ℕ, ◌<◌, ◌≡◌, ap, [], ◌∷◌, ◌++◌, Option, some, arith, length, take, IsU32, le16, le32, append-nil,
}
use ghostrs.Protocol.Error.{ProtoError, Result, ok, err}
use ghostrs.Protocol.Buffer.{Bytes}
use ghostrs.Protocol.Buffer.Reads.{get_u8, get_u32}
use ghostrs.Protocol.Buffer.Local.{IsLocal, return-IsLocal, >>=-IsLocal, reads-IsLocal, cut_fails}
use ghostrs.Protocol.Frame.{Frame, decode}
use ghostrs.Protocol.Frame.RoundTrip.{wire, encode_with_lem, decode-wire}
use ghostrs.Protocol.Gps.{
  gps_header, gps_iccup_header, expect, message, init, ack, reconnect_ok, reject, full, iccup_init,
  iccup_reconnect_ok, iccup_ack, iccup_reject, ReconnectReq, reconnect_req, decode_reconnect,
  full_token, decode_full,
}

-- The bytes are there, and a peer that frames by `header` reads the message off any stream.
abbrev pub IsReadAs : ℕ → ℕ → Bytes → Option Bytes → Type 0
IsReadAs header id payload m =
    (bytes : Bytes) × (m ≡ some bytes)
    × ((rest : Bytes)
        → decode header (bytes ++ rest) ≡ (ok (some (record { id = id; payload = payload })), rest))

pub message-IsReadAs :
    (header id : ℕ) (payload : Bytes)
    → length payload < 65532
    → IsReadAs header id payload (message header id payload)
unfolding expect
message-IsReadAs header id payload h = (
  wire header f,
  rw ((encode_with_lem f header).0 (omega arith)),
  λ rest. decode-wire header f rest (omega arith),
)
  where
    f : Frame
    f = record { id = id; payload = payload }

-- No constructor of a message panics, and each frame carries its id and fields.
pub messages-IsReadAs :
    (a b c d : ℕ)
    → IsReadAs gps_header 1 (le32 a ++ b ∷ le32 c ++ d ∷ []) (init a b c d)
      × IsReadAs gps_header 3 (le32 a) (ack a)
      × IsReadAs gps_header 2 (le32 a) (reconnect_ok a)
      × IsReadAs gps_header 4 (le32 a) (reject a)
      × IsReadAs gps_header 5 (b ∷ le32 c) (full b c)
      × IsReadAs gps_iccup_header 0x08
          (le16 a ++ le32 0 ++ b ∷ le32 c ++ d ∷ [])
          (iccup_init a b c d)
      × IsReadAs gps_iccup_header 0x16 (le32 a ++ le32 0) (iccup_reconnect_ok a)
      × IsReadAs gps_iccup_header 0x32 (le32 a) (iccup_ack a)
      × IsReadAs gps_iccup_header 0x64 (le32 a) (iccup_reject a)
unfolding init ack reconnect_ok reject full iccup_init iccup_reconnect_ok iccup_ack iccup_reject
messages-IsReadAs a b c d = (
  message-IsReadAs _ _ _ (omega arith),
  message-IsReadAs _ _ _ (omega arith),
  message-IsReadAs _ _ _ (omega arith),
  message-IsReadAs _ _ _ (omega arith),
  message-IsReadAs _ _ _ (omega arith),
  message-IsReadAs _ _ _ (omega arith),
  message-IsReadAs _ _ _ (omega arith),
  message-IsReadAs _ _ _ (omega arith),
  message-IsReadAs _ _ _ (omega arith),
)

-- The bytes of a reconnect request.
abbrev pub reconnect_bytes : ReconnectReq → Bytes
reconnect_bytes r = r.pid ∷ le32 r.reconnect_key ++ le32 r.last_packet

reconnect_req_lem :
    (r : ReconnectReq) (rest : Bytes)
    → IsU32 r.reconnect_key
    → IsU32 r.last_packet
    → reconnect_req (reconnect_bytes r ++ rest) ≡ (ok r, rest)
unfolding reconnect_req
reconnect_req_lem r rest hk hl =
    rw (get_u8, get_u32 r.reconnect_key _ hk, get_u32 r.last_packet rest hl)

full_token_lem :
    (pid key : ℕ) (rest : Bytes)
    → IsU32 key
    → full_token (pid ∷ le32 key ++ rest) ≡ (ok (pid, key), rest)
unfolding full_token
full_token_lem pid key rest h = rw (get_u8, get_u32 key rest h)

reconnect_req-IsLocal : IsLocal reconnect_req
unfolding reconnect_req
reconnect_req-IsLocal = >>=-IsLocal _ _ (reads-IsLocal.0) λ pid.
    >>=-IsLocal _ _ (reads-IsLocal.2)
      λ key. >>=-IsLocal _ _ (reads-IsLocal.2) λ last. return-IsLocal _

-- `decode_reconnect` reads a request with 32-bit fields back, whatever follows, and fails on its
-- first `k` bytes where `k` is less than the nine that it has.
pub decode_reconnect_lem :
    (r : ReconnectReq) (rest : Bytes) (k : ℕ)
    → IsU32 r.reconnect_key
    → IsU32 r.last_packet
    → k < 9
    → (decode_reconnect (reconnect_bytes r ++ rest) ≡ ok r)
      × ((e : ProtoError) × (decode_reconnect (take k (reconnect_bytes r)) ≡ err e))
unfolding decode_reconnect
decode_reconnect_lem r rest k hk hl h = (
  ap (λ (p : Result ReconnectReq × Bytes). p.0) (reconnect_req_lem r rest hk hl),
  cut_fails reconnect_req (reconnect_bytes r) r k reconnect_req-IsLocal
      (rw append-nil at (reconnect_req_lem r [] hk hl)) h,
)

-- What `full` frames for a 32-bit key, the framing gives back, and `decode_full` reads the pid and
-- the key out of the frame's payload.
pub decode_full_lem :
    (pid key : ℕ) (bytes rest : Bytes)
    → IsU32 key
    → full pid key ≡ some bytes
    → (f : Frame) × (decode gps_header (bytes ++ rest) ≡ (ok (some f), rest))
      × (decode_full f.payload ≡ ok (pid, key))
unfolding decode_full full
decode_full_lem pid key bytes rest h e =
    let sent = message-IsReadAs gps_header 5 (pid ∷ le32 key) (omega arith) in
    (
      record { id = 5; payload = pid ∷ le32 key },
      ground (arith, e, sent.1, sent.2 rest),
      ap (λ (p : Result (ℕ × ℕ) × Bytes). p.0) (full_token_lem pid key [] h),
    )
