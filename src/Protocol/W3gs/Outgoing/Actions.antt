-- ===== src/Protocol/W3gs/Outgoing/Actions.antt =====
-- The action packets: a client that reads blocks of pid, length and bytes gets the players' actions.
use ghostrs.Base.{
  ℕ, zero, suc, ◌/◌, ◌%◌, ◌<◌, ◌≡◌, refl, List, [], ◌∷◌, ◌++◌, some, arith, length, All, le16,
  as_u16, append_assoc, append-nil,
}
use ghostrs.Protocol.Error.{ProtoError, too_large, Result, ok, err}
use ghostrs.Protocol.Buffer.{Bytes, Read, ◌>>=◌, return, try_get_u8, try_get_u16_le, try_get_bytes}
use ghostrs.Protocol.Buffer.Reads.{get_u8, get_u16, get_bytes}
use ghostrs.Protocol.Frame.{decode}
use ghostrs.Protocol.Frame.RoundTrip.{decode-encode_with}
use ghostrs.Protocol.W3gs.Outgoing.{
  w3gs_header, ActionBlock, put, encode_actions_raw, check_lengths, action_payload, incoming_action,
}

-- The reader of a client: `n` blocks.
pub read_actions : ℕ → Read (List ActionBlock)
read_actions zero = return []
read_actions (suc n) = do
  pid ← try_get_u8
  len ← try_get_u16_le
  actions ← try_get_bytes len
  rest ← read_actions n
  return (record { pid = pid; actions = actions } ∷ rest)

abbrev pub Fits : List ActionBlock → Type 0
Fits = All (λ a. length a.actions < 65536)

read_actions_lem :
    (as' : List ActionBlock) (rest : Bytes)
    → Fits as'
    → read_actions (length as') (encode_actions_raw as' ++ rest) ≡ (ok as', rest)
unfolding read_actions encode_actions_raw put
read_actions_lem [] rest h = refl
read_actions_lem (a ∷ as') rest h = rw (
  get_u8,
  get_u16 (as_u16 (length a.actions)) _ (omega arith),
  append_assoc a.actions (encode_actions_raw as') rest,
  get_bytes a.actions (encode_actions_raw as' ++ rest) (as_u16 (length a.actions)) (omega arith),
  read_actions_lem as' rest h.1,
)

check_lengths-Fits : (as' : List ActionBlock) → Fits as' → check_lengths as' ≡ ok tt
unfolding check_lengths
check_lengths-Fits [] h = refl
check_lengths-Fits (a ∷ as') h = ground (arith, check_lengths-Fits as' h.1)

Fits-check_lengths : (as' : List ActionBlock) (u : Unit {0}) → check_lengths as' ≡ ok u → Fits as'
unfolding check_lengths
Fits-check_lengths [] u h = tt
Fits-check_lengths (a ∷ as') u h = ground (arith, Fits-check_lengths as' u)

-- The payload of a tick: the interval, and for a tick with actions two bytes of checksum and the
-- blocks.
abbrev pub tick_payload : (Bytes → ℕ) → List ActionBlock → ℕ → Bytes
tick_payload crc32 [] interval = le16 interval
tick_payload crc32 (a ∷ as') interval =
    let raw = encode_actions_raw (a ∷ as') in
    le16 interval ++ crc32 raw % 256 ∷ crc32 raw / 256 % 256 ∷ raw

module _ (crc32 : Bytes → ℕ) where
  pub action_payload_ok :
      (as' : List ActionBlock) (interval : ℕ)
      → Fits as'
      → action_payload crc32 as' interval ≡ ok (tick_payload crc32 as' interval)
  unfolding action_payload
  action_payload_ok [] interval h = rw (check_lengths-Fits [] h)
  action_payload_ok (a ∷ as') interval h = rw (check_lengths-Fits (a ∷ as') h)

  action_payload_err :
      (as' : List ActionBlock) (interval : ℕ) (x : ProtoError)
      → check_lengths as' ≡ err x
      → action_payload crc32 as' interval ≡ err x
  unfolding action_payload
  action_payload_err as' interval x h = rw (h, action_payload)

  -- What a client reads of a tick that the host could send: the action packet, with the checksum
  -- of the blocks, and the blocks as they were.
  pub incoming_action_lem :
      (as' : List ActionBlock) (interval : ℕ) (bytes rest : Bytes)
      → incoming_action crc32 as' interval ≡ ok bytes
      → (decode w3gs_header (bytes ++ rest)
          ≡ (ok (some (record { id = 0x0C; payload = tick_payload crc32 as' interval })), rest))
        × (read_actions (length as') (encode_actions_raw as') ≡ (ok as', []))
  unfolding incoming_action
  incoming_action_lem as' interval bytes rest e = go (check_lengths as') refl
    where
      go :
          (r : Result (Unit {0}))
          → check_lengths as' ≡ r
          → (decode w3gs_header (bytes ++ rest)
              ≡ (ok (some (record { id = 0x0C; payload = tick_payload crc32 as' interval })), rest))
            × (read_actions (length as') (encode_actions_raw as') ≡ (ok as', []))
      go (ok u) q =
          let fits = Fits-check_lengths as' u q in
          (
            decode-encode_with w3gs_header _ bytes rest
                (rw (action_payload_ok as' interval fits) at e),
            rw append-nil at (read_actions_lem as' [] fits),
          )
      go (err x) q = absurd (cc (rw (action_payload_err as' interval x q) at e))

  refused :
      (bs after : List ActionBlock) (a : ActionBlock)
      → Fits bs
      → 65535 < length a.actions
      → check_lengths (bs ++ a ∷ after) ≡ err (too_large (length a.actions))
  unfolding check_lengths
  refused [] after a h l = ground arith
  refused (b ∷ bs) after a h l = ground (arith, refused bs after a h.1 l)

  -- A block of 65536 bytes or more is refused before anything is framed.
  pub incoming_action_too_large :
      (before after : List ActionBlock) (a : ActionBlock) (interval : ℕ)
      → Fits before
      → 65535 < length a.actions
      → incoming_action crc32 (before ++ a ∷ after) interval ≡ err (too_large (length a.actions))
  unfolding incoming_action
  incoming_action_too_large before after a interval h l =
      rw (action_payload_err _ interval _ (refused before after a h l))
