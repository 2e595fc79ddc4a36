-- ===== src/Mpq/Tables.antt =====
-- crates/spectre-mpq/src/{hash_table.rs, block_table.rs}: the entries of the two tables.
use ghostrs.Base.{
  ℕ, zero, suc, ◌*◌, ◌≤◌, ◌<◌, ◌≡◌, refl, ap, ap₂, List, [], ◌∷◌, ◌++◌, Bool, not, arith, ltb, ◌==◌,
  if◌then◌else◌, length, get_elem?, take, drop, text, le16, le32, bit_and, IsU16, IsU32,
  from_le16-le16, from_le32-le32, Option, length-take,
}
use ghostrs.Protocol.Buffer.{Bytes}
use ghostrs.Mpq.Header.{u32_at, u16_at}
use ghostrs.Mpq.Crypt.{hash_string, hash_file_key, decrypt_bytes, length-decrypt_bytes}

-- The errors of the two parsers, and their `Result`.
pub data MpqError : Type 0 where
  corrupted_hash_table : MpqError
  corrupted_block_table : MpqError

pub data Parsed (A : Type 0) : Type 0 where
  parsed : A → Parsed A
  corrupted : MpqError → Parsed A

pub record MpqHashEntry : Type 0 where
  pub hash_a : ℕ
  pub hash_b : ℕ
  pub locale : ℕ
  pub platform : ℕ
  pub block_index : ℕ

pub record MpqBlockEntry : Type 0 where
  pub file_pos : ℕ
  pub compressed_size : ℕ
  pub file_size : ℕ
  pub flags : ℕ

-- The bodies of the two loops, on a chunk of 16 bytes.
unfoldable pub hash_entry : Bytes → MpqHashEntry
hash_entry c = record {
  hash_a = u32_at c 0;
  hash_b = u32_at c 4;
  locale = u16_at c 8;
  platform = u16_at c 10;
  block_index = u32_at c 12;
}

unfoldable pub block_entry : Bytes → MpqBlockEntry
block_entry c = record {
  file_pos = u32_at c 0;
  compressed_size = u32_at c 4;
  file_size = u32_at c 8;
  flags = u32_at c 12;
}

-- `chunks_exact(16)` of `count` chunks.
unfoldable pub chunks : ℕ → Bytes → List Bytes
chunks zero b = []
chunks (suc n) b = take 16 b ∷ chunks n (drop 16 b)

abbrev pub each : {A : Type 0} → (Bytes → A) → List Bytes → List A
each f [] = []
each f (c ∷ cs) = f c ∷ each f cs

-- What `MpqHashTable::parse_and_decrypt` and `MpqBlockTable::parse_and_decrypt` share.
unfoldable pub parse_table :
    {A : Type 0} → MpqError → Bytes → (Bytes → A) → Bytes → ℕ → Parsed (List A)
parse_table e name entry data' count =
    if ltb (length data') (count * 16)
    then corrupted e
    else parsed (
        each entry
          (chunks count (decrypt_bytes (take (count * 16) data') (hash_string name hash_file_key))))

unfoldable pub parse_hash_table : Bytes → ℕ → Parsed (List MpqHashEntry)
parse_hash_table = parse_table corrupted_hash_table (text "(hash table)") hash_entry

unfoldable pub parse_block_table : Bytes → ℕ → Parsed (List MpqBlockEntry)
parse_block_table = parse_table corrupted_block_table (text "(block table)") block_entry

-- `MpqBlockEntry`'s tests of its flags, and `MpqBlockTable::get`.
unfoldable pub has_flag : ℕ → MpqBlockEntry → Bool
has_flag flag e = not (bit_and e.flags flag == 0)

unfoldable pub is_encrypted : MpqBlockEntry → Bool
is_encrypted = has_flag 0x10000

unfoldable pub has_fixed_key : MpqBlockEntry → Bool
has_fixed_key = has_flag 0x20000

unfoldable pub is_compressed : MpqBlockEntry → Bool
is_compressed = has_flag 0x200

unfoldable pub is_imploded : MpqBlockEntry → Bool
is_imploded = has_flag 0x100

unfoldable pub is_single_unit : MpqBlockEntry → Bool
is_single_unit = has_flag 0x1000000

unfoldable pub get : List MpqBlockEntry → ℕ → Option MpqBlockEntry
get entries i = get_elem? entries i

-- The plain bytes of the entries.
abbrev pub hash_wire : List MpqHashEntry → Bytes
hash_wire [] = []
hash_wire (e ∷ es) =
    (le32 e.hash_a ++ le32 e.hash_b ++ le16 e.locale ++ le16 e.platform ++ le32 e.block_index)
    ++ hash_wire es

abbrev pub IsHashEntry : MpqHashEntry → Type 0
IsHashEntry e =
    IsU32 e.hash_a × IsU32 e.hash_b × IsU16 e.locale × IsU16 e.platform × IsU32 e.block_index

abbrev pub AreHashEntries : List MpqHashEntry → Type 0
AreHashEntries [] = Unit {0}
AreHashEntries (e ∷ es) = IsHashEntry e × AreHashEntries es

each-hash_wire :
    (es : List MpqHashEntry)
    → AreHashEntries es
    → each hash_entry (chunks (length es) (hash_wire es)) ≡ es
unfolding chunks hash_entry
each-hash_wire [] h = refl
each-hash_wire (e ∷ es) ((a, b, l, p, i), h) =
    ap₂ ◌∷◌
      (rw
        (
          from_le32-le32 e.hash_a a,
          from_le32-le32 e.hash_b b,
          from_le16-le16 e.locale l,
          from_le16-le16 e.platform p,
          from_le32-le32 e.block_index i,
        )
        refl)
      (each-hash_wire es h)

length-hash_wire : (es : List MpqHashEntry) → length (hash_wire es) ≡ length es * 16
length-hash_wire [] = refl
length-hash_wire (e ∷ es) = omega (arith, length-hash_wire es)

-- Where the cipher yields the plain bytes of some entries from the first 16 bytes for each, the
-- hash table is read back as those entries; fewer bytes than 16 for each entry are corrupted,
-- whatever they hold.
pub parse_hash_table-wire :
    (data' short : Bytes) (es : List MpqHashEntry) (count : ℕ)
    → AreHashEntries es
    → length short < count * 16
    → decrypt_bytes (take (length es * 16) data') (hash_string (text "(hash table)") hash_file_key)
      ≡ hash_wire es
    → (parse_hash_table data' (length es) ≡ parsed es)
      × (parse_hash_table short count ≡ corrupted corrupted_hash_table)
unfolding parse_hash_table parse_table
parse_hash_table-wire data' short es count h l e =
    (rw e (ground (arith, long, each-hash_wire es h)), ground arith)
  where
    long : length es * 16 ≤ length data'
    long = omega (
      arith,
      length-decrypt_bytes (take (length es * 16) data')
          (hash_string (text "(hash table)") hash_file_key),
      ap length e,
      length-hash_wire es,
      length-take (length es * 16) data',
    )
