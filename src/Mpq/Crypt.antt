-- ===== src/Mpq/Crypt.antt =====
-- crates/spectre-mpq/src/crypt.rs: the hash of a file name and the cipher of the tables. All
-- arithmetic is that of u32, and wraps.
use ghostrs.Base.{
  ℕ, zero, suc, ◌+◌, ◌-◌, ◌*◌, ◌/◌, ◌%◌, ◌^◌, ◌≡◌, refl, List, [], ◌∷◌, arith, leb, ◌==◌, ◌&&◌,
  if◌then◌else◌, length, get_or, set, replicate, map, bit_and, bit_or, bit_xor, as_u32, from_le32,
}
use ghostrs.Protocol.Buffer.{Bytes}

abbrev pub table_size : ℕ
table_size = 0x500

abbrev pub hash_table_offset : ℕ
hash_table_offset = 0

abbrev pub hash_name_a : ℕ
hash_name_a = 0x100

abbrev pub hash_name_b : ℕ
hash_name_b = 0x200

abbrev pub hash_file_key : ℕ
hash_file_key = 0x300

abbrev next_seed : ℕ → ℕ
next_seed seed = as_u32 (as_u32 (seed * 125) + 3) % 0x2AAAAB

-- The loops of `build_storm_buffer`, on the table and the seed.
unfoldable pub column : ℕ → ℕ → List ℕ × ℕ → List ℕ × ℕ
column zero index s = s
column (suc steps) index (table, seed) =
    let seed1 = next_seed seed in
    let seed2 = next_seed seed1 in
    let value = bit_or (bit_and seed1 0xFFFF * 2 ^ 16) (bit_and seed2 0xFFFF) in
    column steps (index + 0x100) (set table index value, seed2)

unfoldable pub rows : ℕ → ℕ → List ℕ × ℕ → List ℕ × ℕ
rows zero i s = s
rows (suc n) i s = rows n (i + 1) (column 5 i s)

unfoldable pub build_storm_buffer : List ℕ
build_storm_buffer = (rows 0x100 0 (replicate table_size 0, 0x100001)).0

-- A slash becomes a backslash, and a lower-case letter its capital.
unfoldable pub folded : ℕ → ℕ
folded b = if b == 47 then 92 else if leb 97 b && leb b 122 then b - 32 else b

-- The loop, with its two seeds. No index is out of the table: a type is 0x400 at most.
unfoldable pub hash_loop : List ℕ → ℕ → Bytes → ℕ → ℕ → ℕ
hash_loop storm hash_type [] seed1 seed2 = seed1
hash_loop storm hash_type (b ∷ s) seed1 seed2 =
    let ch = folded b in
    let seed1' = bit_xor (get_or storm (hash_type + ch) 0) (as_u32 (seed1 + seed2)) in
    let seed2' = as_u32 (ch + seed1' + seed2 + as_u32 (seed2 * 32) + 3) in
    hash_loop storm hash_type s seed1' seed2'

unfoldable pub hash_string : Bytes → ℕ → ℕ
hash_string s hash_type = hash_loop build_storm_buffer hash_type s 0x7FED7FED 0xEEEEEEEE

-- `decrypt_bytes` from four bytes on, with the key and the seed; what is left over stays.
unfoldable pub decrypt_loop : List ℕ → Bytes → ℕ → ℕ → Bytes
decrypt_loop storm (a ∷ b ∷ c ∷ d ∷ bytes) key seed =
    let seed1 = as_u32 (seed + get_or storm (0x400 + bit_and key 0xFF) 0) in
    let ch = bit_xor (from_le32 a b c d) (as_u32 (key + seed1)) in
    let key' = bit_or (as_u32 (as_u32 ((2 ^ 32 - 1 - key) * 2 ^ 21) + 0x11111111)) (key / 2 ^ 11) in
    let seed2 = as_u32 (ch + seed1 + as_u32 (seed1 * 32) + 3) in
    ch % 256
    ∷ ch / 256 % 256
    ∷ ch / 65536 % 256
    ∷ ch / 16777216 % 256
    ∷ decrypt_loop storm bytes key' seed2
decrypt_loop storm bytes key seed = bytes

unfoldable pub decrypt_bytes : Bytes → ℕ → Bytes
decrypt_bytes bytes key = decrypt_loop build_storm_buffer bytes key 0xEEEEEEEE

hash_loop-folded :
    (storm : List ℕ) (hash_type : ℕ) (s t : Bytes) (seed1 seed2 : ℕ)
    → map folded s ≡ map folded t
    → hash_loop storm hash_type s seed1 seed2 ≡ hash_loop storm hash_type t seed1 seed2
unfolding hash_loop
hash_loop-folded storm ty [] [] x y e = refl
hash_loop-folded storm ty [] (c ∷ t) x y e = absurd (cc)
hash_loop-folded storm ty (b ∷ s) [] x y e = absurd (cc)
hash_loop-folded storm ty (b ∷ s) (c ∷ t) x y e =
    let same : folded b ≡ folded c = cc in rw same (hash_loop-folded storm ty s t _ _ cc)

-- Two names that differ in case and in the direction of their slashes only have the same hash, of
-- every type.
pub hash_string-folded :
    (s t : Bytes) (hash_type : ℕ)
    → map folded s ≡ map folded t
    → hash_string s hash_type ≡ hash_string t hash_type
unfolding hash_string
hash_string-folded s t ty e = hash_loop-folded build_storm_buffer ty s t _ _ e

length-decrypt_loop :
    (storm : List ℕ) (bytes : Bytes) (key seed : ℕ)
    → length (decrypt_loop storm bytes key seed) ≡ length bytes
unfolding decrypt_loop
length-decrypt_loop storm [] key seed = refl
length-decrypt_loop storm (a ∷ []) key seed = refl
length-decrypt_loop storm (a ∷ b ∷ []) key seed = refl
length-decrypt_loop storm (a ∷ b ∷ c ∷ []) key seed = refl
length-decrypt_loop storm (a ∷ b ∷ c ∷ d ∷ bytes) key seed =
    omega (arith, length-decrypt_loop storm bytes _ _)

pub length-decrypt_bytes :
    (bytes : Bytes) (key : ℕ) → length (decrypt_bytes bytes key) ≡ length bytes
unfolding decrypt_bytes
length-decrypt_bytes bytes key = length-decrypt_loop build_storm_buffer bytes key 0xEEEEEEEE
