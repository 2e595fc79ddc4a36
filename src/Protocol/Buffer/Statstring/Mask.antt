-- ===== src/Protocol/Buffer/Statstring/Mask.antt =====
-- The mask byte of a chunk: bit 0 is set, and bit i + 1 tells whether byte i was odd.
use ghostrs.Base.{
  ℕ, zero, suc, ◌+◌, ◌%◌, ◌/◌, ◌^◌, ◌≤◌, ◌<◌, ◌≡◌, refl, ◌≢◌, Bool, true, false, ◌&&◌, not, List,
  [], ◌∷◌, ◌++◌, map, arith, ◌==◌, if◌then◌else◌, length, bit_and, bit_or, append_assoc, append-nil,
  All, length-map,
}
use ghostrs.Protocol.Buffer.Statstring.{encode_chunk, decode_data}

-- The mask that the loop makes of the parities, from index `i` on.
pub mask_from : ℕ → ℕ → List Bool → ℕ
mask_from i mask [] = mask
mask_from i mask (odd ∷ ps) = mask_from (suc i) (if odd then bit_or mask (2 ^ suc i) else mask) ps

abbrev pub is_odd : ℕ → Bool
is_odd b = not (b % 2 == 0)

abbrev pub encode_byte : ℕ → ℕ
encode_byte b = if b % 2 == 0 then (b + 1) % 256 else b

pub encode_chunk_lem :
    (i mask : ℕ) (out bs : List ℕ)
    → encode_chunk i mask out bs ≡ (mask_from i mask (map is_odd bs), out ++ map encode_byte bs)
unfolding encode_chunk mask_from
encode_chunk_lem i mask out [] = simp append-nil
encode_chunk_lem i mask out (b ∷ bs) = ground (
  arith,
  encode_chunk_lem (suc i) mask (out ++ (b + 1) % 256 ∷ []) bs,
  encode_chunk_lem (suc i) (bit_or mask (2 ^ suc i)) (out ++ b ∷ []) bs,
  append_assoc out ((b + 1) % 256 ∷ []) (map encode_byte bs),
  append_assoc out (b ∷ []) (map encode_byte bs),
)

-- The bits from `i` on, read back.
reads_back : ℕ → ℕ → List Bool → Bool
reads_back mask i [] = true
reads_back mask i (odd ∷ ps) =
    (if bit_and mask (2 ^ suc i) == 0 then not odd else odd) && reads_back mask (suc i) ps

-- Every list of `n` Booleans behind `ps` passes the test.
all_bools : ℕ → (List Bool → Bool) → List Bool → Bool
all_bools zero p ps = p ps
all_bools (suc n) p ps =
    p ps && (all_bools n p (ps ++ true ∷ []) && all_bools n p (ps ++ false ∷ []))

good_mask : List Bool → Bool
good_mask ps =
    reads_back (mask_from 0 1 ps) 0 ps && (mask_from 0 1 ps % 2 == 1 && mask_from 0 1 ps / 256 == 0)

all_bools_sound :
    (n : ℕ) (p : List Bool → Bool) (qs ps : List Bool)
    → all_bools n p qs ≡ true
    → length ps ≤ n
    → p (qs ++ ps) ≡ true
unfolding all_bools
all_bools_sound zero p qs [] h l = rw append-nil h
all_bools_sound zero p qs (b ∷ ps) h l = absurd (omega arith)
all_bools_sound (suc n) p qs [] h l = rw append-nil (ground arith)
all_bools_sound (suc n) p qs (true ∷ ps) h l =
    rw (← append_assoc qs (true ∷ []) ps)
      (all_bools_sound n p (qs ++ true ∷ []) ps (ground arith) (omega arith))
all_bools_sound (suc n) p qs (false ∷ ps) h l =
    rw (← append_assoc qs (false ∷ []) ps)
      (all_bools_sound n p (qs ++ false ∷ []) ps (ground arith) (omega arith))

-- All 255 parity lists of a chunk, by evaluation.
good_masks : all_bools 7 good_mask [] ≡ true
unfolding all_bools good_mask reads_back mask_from
good_masks = refl

good_mask_holds : (ps : List Bool) → length ps ≤ 7 → good_mask ps ≡ true
good_mask_holds ps l = all_bools_sound 7 good_mask [] ps good_masks l

-- The mask of a chunk is an odd byte.
pub mask_from-IsU8 :
    (ps : List Bool) → length ps ≤ 7 → (mask_from 0 1 ps ≢ 0) × (mask_from 0 1 ps < 256)
unfolding good_mask
mask_from-IsU8 ps l = ground (arith, good_mask_holds ps l)

encode_byte-IsU8 : (b : ℕ) → b < 256 → (encode_byte b ≢ 0) × (encode_byte b < 256)
encode_byte-IsU8 b h = ground arith

pub encode_bytes-IsU8 :
    (bs : List ℕ) → All (λ b. b < 256) bs → All (λ b. (b ≢ 0) × (b < 256)) (map encode_byte bs)
encode_bytes-IsU8 [] h = tt
encode_bytes-IsU8 (b ∷ bs) h = (encode_byte-IsU8 b h.0, encode_bytes-IsU8 bs h.1)

decode_data_reads :
    (mask i : ℕ) (bs : List ℕ)
    → reads_back mask i (map is_odd bs) ≡ true
    → All (λ b. b < 256) bs
    → decode_data mask i (map encode_byte bs) ≡ bs
unfolding decode_data reads_back
decode_data_reads mask i [] h k = refl
decode_data_reads mask i (b ∷ bs) h k = ground (arith, decode_data_reads mask (suc i) bs)

-- The inner loops are inverse to one another on a chunk of at most seven bytes.
pub decode_data_lem :
    (bs : List ℕ)
    → length bs ≤ 7
    → All (λ b. b < 256) bs
    → decode_data (mask_from 0 1 (map is_odd bs)) 0 (map encode_byte bs) ≡ bs
unfolding good_mask
decode_data_lem bs l h =
    decode_data_reads _ 0 bs (ground (arith, good_mask_holds (map is_odd bs), length-map bs is_odd))
      h
