-- ===== src/Protocol/W3gs/Outgoing/Slots.antt =====
-- The slot packets: their length field is right, and the slots come back from their bytes.
use ghostrs.Base.{
  ℕ, zero, suc, ◌+◌, ◌*◌, ◌≤◌, ◌≡◌, refl, List, [], ◌∷◌, ◌++◌, arith, length, IsU32, le32, as_u8,
  as_u16, append_assoc, length-append,
}
use ghostrs.Protocol.Error.{ok}
use ghostrs.Protocol.Buffer.{Bytes, Read, ◌>>=◌, return, try_get_u8, try_get_u16_le, try_get_u32_le}
use ghostrs.Protocol.Buffer.Reads.{get_u8, get_u16, get_u32}
use ghostrs.Protocol.W3gs.Slot.{SlotInfo}
use ghostrs.Protocol.W3gs.Slot
use ghostrs.Protocol.W3gs.Outgoing.{encode_slots, slot_block}

-- The readers of a client.
pub read_slot : Read SlotInfo
read_slot = do
  pid ← try_get_u8
  download_status ← try_get_u8
  slot_status ← try_get_u8
  computer ← try_get_u8
  team ← try_get_u8
  colour ← try_get_u8
  race ← try_get_u8
  computer_type ← try_get_u8
  handicap ← try_get_u8
  return (record {
    pid = pid;
    download_status = download_status;
    slot_status = slot_status;
    computer = computer;
    team = team;
    colour = colour;
    race = race;
    computer_type = computer_type;
    handicap = handicap;
  })

pub read_slots : ℕ → Read (List SlotInfo)
read_slots zero = return []
read_slots (suc n) = do s ← read_slot; rest ← read_slots n; return (s ∷ rest)

pub record SlotBlock : Type 0 where
  pub block_len : ℕ
  pub slots : List SlotInfo
  pub random_seed : ℕ
  pub layout_style : ℕ
  pub player_slots : ℕ

pub read_block : Read SlotBlock
read_block = do
  block_len ← try_get_u16_le
  n ← try_get_u8
  slots ← read_slots n
  random_seed ← try_get_u32_le
  layout_style ← try_get_u8
  player_slots ← try_get_u8
  return (record {
    block_len = block_len;
    slots = slots;
    random_seed = random_seed;
    layout_style = layout_style;
    player_slots = player_slots;
  })

read_slot_lem : (s : SlotInfo) (rest : Bytes) → read_slot (Slot.encode s ++ rest) ≡ (ok s, rest)
unfolding read_slot
read_slot_lem s rest =
    rw (get_u8, get_u8, get_u8, get_u8, get_u8) (rw (get_u8, get_u8, get_u8, get_u8))

pub read_slots_lem :
    (ss : List SlotInfo) (rest : Bytes)
    → read_slots (length ss) (encode_slots ss ++ rest) ≡ (ok ss, rest)
unfolding read_slots encode_slots
read_slots_lem [] rest = refl
read_slots_lem (s ∷ ss) rest =
    rw (read_slot_lem s (encode_slots ss ++ rest), read_slots_lem ss rest)

length-encode_slots : (ss : List SlotInfo) → length (encode_slots ss) ≡ 9 * length ss
unfolding encode_slots
length-encode_slots [] = refl
length-encode_slots (s ∷ ss) = omega (arith, length-encode_slots ss)

-- A client reads from the block of at most 255 slots every slot, the 32-bit seed and the layout, and a
-- length that is that of the block without the length field itself.
pub read_block-slot_block :
    (ss : List SlotInfo) (seed style player_slots : ℕ) (rest : Bytes)
    → length ss ≤ 255
    → IsU32 seed
    → (read_block (slot_block ss seed style player_slots ++ rest) ≡ (
      ok (record {
        block_len = 7 + 9 * length ss;
        slots = ss;
        random_seed = seed;
        layout_style = style;
        player_slots = player_slots;
      }),
      rest,
    ))
      × (length (slot_block ss seed style player_slots) ≡ 2 + (7 + 9 * length ss))
unfolding read_block slot_block
read_block-slot_block ss seed style player_slots rest h k =
    let n : as_u8 (length ss) ≡ length ss = omega arith in
    let field : as_u16 (1 + length ss * 9 + 4 + 1 + 1) ≡ 7 + 9 * length ss = omega arith in
    let tail = le32 seed ++ style ∷ player_slots ∷ [] in
    (
      rw
          (
            field,
            n,
            get_u16 (7 + 9 * length ss) _ (omega arith),
            get_u8,
            append_assoc (encode_slots ss) tail rest,
            read_slots_lem ss (tail ++ rest),
            get_u32 seed (style ∷ player_slots ∷ rest) k,
          )
          (rw (get_u8, get_u8)),
      omega (arith, length-append (encode_slots ss) tail, length-encode_slots ss),
    )
