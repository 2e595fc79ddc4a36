-- ===== src/Mpq/Header.antt =====
-- crates/spectre-mpq/src/header.rs: where an archive begins, and its header.
pub mod Search
use ghostrs.Base.{
  ℕ, zero, suc, ◌+◌, ◌-◌, ◌*◌, ◌%◌, ◌^◌, ◌≤◌, ◌<◌, ◌≡◌, refl, sym, ap, ◌∙◌, ◌⊎◌, inl, inr, Bool,
  true, false, ◌&&◌, List, [], ◌∷◌, Option, none, some, arith, ltb, leb, ◌==◌, if◌then◌else◌,
  length, get_or, take, drop, from_le16, from_le32, Bool-cases, Option-cases,
}
use ghostrs.Protocol.Buffer.{Bytes}

abbrev pub header_size_v1 : ℕ
header_size_v1 = 32

-- The errors of `locate`, and its `Result`.
pub data HeaderError : Type 0 where
  header_not_found corrupted_header : HeaderError

pub data Located (A : Type 0) : Type 0 where
  located : A → Located A
  missing : HeaderError → Located A

pub record MpqHeader : Type 0 where
  pub archive_offset : ℕ
  pub header_size : ℕ
  pub archive_size : ℕ
  pub format_version : ℕ
  pub sector_size_shift : ℕ
  pub sector_size : ℕ
  pub hash_table_offset : ℕ
  pub block_table_offset : ℕ
  pub hash_table_count : ℕ
  pub block_table_count : ℕ

-- `from_le_bytes` of the bytes from an offset on.
abbrev pub u32_at : Bytes → ℕ → ℕ
u32_at c i = from_le32 (get_or c i 0) (get_or c (i + 1) 0) (get_or c (i + 2) 0) (get_or c (i + 3) 0)

abbrev pub u16_at : Bytes → ℕ → ℕ
u16_at c i = from_le16 (get_or c i 0) (get_or c (i + 1) 0)

-- The four bytes at an offset are `MPQ` and `last`: 0x1A for an archive, 0x1B for user data.
abbrev pub is_magic : ℕ → Bytes → Bool
is_magic last (a ∷ b ∷ c ∷ d ∷ []) = a == 77 && b == 80 && c == 81 && d == last
is_magic last _ = false

abbrev pub magic_at : ℕ → Bytes → ℕ → Bool
magic_at last file offset = is_magic last (take 4 (drop offset file))

-- The fields of a header. A shift of 64 or more is taken modulo 64 (a debug build panics there).
unfoldable pub header_at : Bytes → ℕ → ℕ → MpqHeader
header_at file archive_offset header_offset =
    let slice = drop header_offset file in
    record {
      archive_offset = archive_offset;
      header_size = u32_at slice 4;
      archive_size = u32_at slice 8;
      format_version = u16_at slice 12;
      sector_size_shift = u16_at slice 14;
      sector_size = 512 * 2 ^ (u16_at slice 14 % 64) % 2 ^ 64;
      hash_table_offset = archive_offset + u32_at slice 16;
      block_table_offset = archive_offset + u32_at slice 20;
      hash_table_count = u32_at slice 24;
      block_table_count = u32_at slice 28;
    }

unfoldable pub parse_at : Bytes → ℕ → ℕ → Located MpqHeader
parse_at file archive_offset header_offset =
    if ltb (length file) (header_offset + header_size_v1)
    then missing corrupted_header
    else located (header_at file archive_offset header_offset)

-- The second test of the loop: user data whose header offset leads to an archive.
unfoldable pub user_data_at : Bytes → ℕ → ℕ → Bool
user_data_at file offset target =
    magic_at 0x1B file offset
    && leb (offset + 16) (length file)
    && leb (target + header_size_v1) (length file)
    && magic_at 0x1A file target

-- One round of the first loop: the offsets of the archive and of its header, if it is here.
unfoldable pub found_at : Bytes → ℕ → Option (ℕ × ℕ)
found_at file offset =
    let target = offset + u32_at (drop offset file) 8 in
    if magic_at 0x1A file offset
    then some (offset, offset)
    else if user_data_at file offset target
    then some (offset, target)
    else none

abbrev pub or_rest : Option (ℕ × ℕ) → Option (ℕ × ℕ) → Option (ℕ × ℕ)
or_rest none rest = rest
or_rest (some p) rest = some p

-- The loop over multiples of 512; a round for each byte is more than enough.
unfoldable pub aligned : ℕ → Bytes → ℕ → Option (ℕ × ℕ)
aligned zero file offset = none
aligned (suc fuel) file offset =
    if leb (offset + header_size_v1) (length file)
    then or_rest (found_at file offset) (aligned fuel file (offset + 512))
    else none

-- `for i in 0..len.saturating_sub(HEADER_SIZE_V1)`, with the rounds left.
unfoldable pub bytewise : ℕ → Bytes → ℕ → Option (ℕ × ℕ)
bytewise zero file i = none
bytewise (suc rounds) file i =
    if magic_at 0x1A file i then some (i, i) else bytewise rounds file (i + 1)

abbrev pub parse_found : Bytes → Option (ℕ × ℕ) → Located MpqHeader
parse_found file none = missing header_not_found
parse_found file (some (archive_offset, header_offset)) = parse_at file archive_offset header_offset

unfoldable pub locate : Bytes → Located MpqHeader
locate file =
    if ltb (length file) header_size_v1
    then missing header_not_found
    else parse_found file
        (or_rest (aligned (length file) file 0) (bytewise (length file - header_size_v1) file 0))
