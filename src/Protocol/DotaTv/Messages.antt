-- ===== src/Protocol/DotaTv/Messages.antt =====
-- The short messages, from the fields through the framing and back.
use ghostrs.Base.{
  ℕ, ◌+◌, ◌/◌, ◌%◌, false, from_le16, ◌≤◌, ◌≡◌, ap, ◌∙◌, [], ◌∷◌, ◌++◌, some, arith, ltb, length,
  take, IsU16, IsU32, append-nil, length-append, from_le16-le16, take-append,
}
use ghostrs.Protocol.Error.{Result, ok}
use ghostrs.Protocol.Utf8.{IsUtf8}
use ghostrs.Protocol.Buffer.{Bytes, Read, try_get_cstring, cstring}
use ghostrs.Protocol.Buffer.Reads.{NulFree, get_u8, get_u16, get_u32, get_cstring}
use ghostrs.Protocol.Frame.{Frame, encode_with, decode}
use ghostrs.Protocol.Frame.RoundTrip.{wire, encode_with_lem, decode-wire}
use ghostrs.Protocol.W3gs.Outgoing.{w3gs_header}
use ghostrs.Protocol.DotaTv.{
  dotatv_header, framed, encode_hello, decode_hello, encode_player, decode_player, decode_action,
  encode_chat, decode_chat, encode_game_over, decode_game_over, encode_history_end,
  decode_history_end, encode_subscribe, decode_subscribe, encode_client_chat, decode_client_chat,
}

-- Text that a C string carries.
abbrev pub IsText : Bytes → Type 0
IsText s = NulFree s × IsUtf8 s

-- The message is built, a peer frames it whatever follows, and the decoder reads `value` off the
-- payload to its end.
abbrev pub Arrives : {A : Type 0} → Read A → Result Bytes → A → Type 0
Arrives {A} reads built value =
    (bytes : Bytes) × (f : Frame) × (built ≡ ok bytes)
    × ((rest : Bytes) → decode dotatv_header (bytes ++ rest) ≡ (ok (some f), rest))
    × (reads f.payload ≡ (ok value, []))

pub framed-Arrives :
    {A : Type 0} (reads : Read A) (id : ℕ) (payload : Bytes) (value : A)
    → length payload ≤ 65531
    → reads payload ≡ (ok value, [])
    → Arrives reads (framed id payload) value
framed-Arrives reads id payload value fits read =
    let f : Frame = record { id = id; payload = payload } in
    (
      wire dotatv_header f,
      f,
      (encode_with_lem f dotatv_header).0 fits,
      λ rest. decode-wire dotatv_header f rest fits,
      read,
    )

cstring_alone : (s : Bytes) → IsText s → try_get_cstring (cstring s) ≡ (ok s, [])
cstring_alone s (nul_free, utf8) = rw append-nil at (get_cstring s [] nul_free utf8)

length-cstring : (s : Bytes) → length (cstring s) ≡ length s + 1
length-cstring s = length-append s (0 ∷ [])

-- Every short message whose text is UTF-8 without a NUL and fits a frame, and whose numbers fit their
-- fields, is built, framed and read back with its fields.
pub messages_arrive :
    (version count pid colour team race : ℕ) (name chat_text : Bytes)
    → IsU16 version
    → IsU32 count
    → IsText name
    → IsText chat_text
    → length name + length chat_text ≤ 65520
    → Arrives decode_hello (encode_hello version name) (version, name)
      × Arrives decode_player
          (encode_player pid name colour team race)
          (record { pid = pid; name = name; colour = colour; team = team; race = race })
      × Arrives decode_chat
          (encode_chat name chat_text)
          (record { sender = name; chat_text = chat_text })
      × Arrives decode_game_over (encode_game_over name) name
      × Arrives decode_history_end (encode_history_end count) count
      × Arrives decode_subscribe (encode_subscribe version) version
      × Arrives decode_client_chat (encode_client_chat chat_text) chat_text
unfolding encode_hello encode_player encode_chat encode_game_over encode_history_end
    encode_subscribe encode_client_chat decode_hello decode_player decode_chat decode_game_over
    decode_history_end decode_subscribe decode_client_chat
messages_arrive version count pid colour team race name chat_text small wide named said fits = (
  framed-Arrives decode_hello _ _ _ (omega (arith, length-cstring name))
      (rw (get_u16 version (cstring name) small, cstring_alone name named)),
  framed-Arrives decode_player _ _ _
      (omega (arith, length-cstring name, length-append (cstring name) (colour ∷ team ∷ race ∷ [])))
      (rw (get_u8, get_cstring name (colour ∷ team ∷ race ∷ []) named.0 named.1)
        (rw (get_u8, get_u8, get_u8))),
  framed-Arrives decode_chat _ _ _
      (omega (
        arith,
        length-cstring name,
        length-cstring chat_text,
        length-append (cstring name) (cstring chat_text),
      ))
      (rw (get_cstring name (cstring chat_text) named.0 named.1, cstring_alone chat_text said)),
  framed-Arrives decode_game_over _ _ _ (omega (arith, length-cstring name))
      (cstring_alone name named),
  framed-Arrives decode_history_end _ _ _ (omega arith) (rw append-nil at (get_u32 count [] wide)),
  framed-Arrives decode_subscribe _ _ _ (omega arith) (rw append-nil at (get_u16 version [] small)),
  framed-Arrives decode_client_chat _ _ _ (omega (arith, length-cstring chat_text))
      (cstring_alone chat_text said),
)

decode_action-wire :
    (f : Frame) (rest : Bytes)
    → length f.payload ≤ 65531
    → decode_action (wire w3gs_header f ++ rest) ≡ ok (wire w3gs_header f)
unfolding decode_action
decode_action-wire f rest fits =
    let n = 4 + length f.payload in
    let field : from_le16 (n % 256) (n / 256 % 256) ≡ n = from_le16-le16 n (omega arith) in
    let whole : n ≡ length (wire w3gs_header f) = omega arith in
    let taken : take n (wire w3gs_header f ++ rest) ≡ wire w3gs_header f =
      ap (λ k. take k (wire w3gs_header f ++ rest)) whole ∙ take-append (wire w3gs_header f) rest in
    let enough : ltb (length (wire w3gs_header f ++ rest)) n ≡ false =
      ground (arith, length-append f.payload rest) in
    let long : ltb (length (wire w3gs_header f ++ rest)) 4 ≡ false = ground arith in
    let real : ltb n 4 ≡ false = ground arith in rw (field, enough, long, real, taken)

-- A W3GS frame that `encode_with` builds, carried to a spectator in an action message, comes out of
-- `decode_action` byte by byte; without what may stand behind it.
pub action_carries_frame :
    (f : Frame) (bytes rest : Bytes)
    → encode_with f w3gs_header ≡ ok bytes
    → decode_action (bytes ++ rest) ≡ ok bytes
unfolding decode_action encode_with
action_carries_frame f bytes rest e =
    ground (arith, decode_action-wire f rest, (encode_with_lem f w3gs_header).0, e)
