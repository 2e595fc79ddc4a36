-- ===== src/Protocol/Buffer/Statstring.antt =====
-- The stat string codec of crates/spectre-protocol/src/bytes_ext.rs.
pub mod Mask
pub mod RoundTrip
use ghostrs.Base.{
  ℕ, zero, suc, ◌+◌, ◌-◌, ◌%◌, ◌^◌, ◌≡◌, refl, List, [], ◌∷◌, ◌++◌, arith, ◌==◌, if◌then◌else◌,
  length, take, drop, bit_and, bit_or,
}

-- `slice.chunks(n)`; each round takes a byte at least, so `length xs` rounds are enough.
pub chunks_loop {ℓ} : {A : Type ℓ} → ℕ → ℕ → List A → List (List A)
chunks_loop fuel n [] = []
chunks_loop zero n (x ∷ xs) = []
chunks_loop (suc fuel) n (x ∷ xs) = take n (x ∷ xs) ∷ chunks_loop fuel n (drop n (x ∷ xs))

unfoldable pub chunks {ℓ} : {A : Type ℓ} → ℕ → List A → List (List A)
unfolding chunks_loop
chunks n xs = chunks_loop (length xs) n xs

-- The inner loop of `encode_statstring` over one chunk: the mask, and the bytes pushed.
pub encode_chunk : ℕ → ℕ → List ℕ → List ℕ → ℕ × List ℕ
encode_chunk i mask out [] = (mask, out)
encode_chunk i mask out (byte ∷ rest) =
    encode_chunk (suc i) (if byte % 2 == 0 then mask else bit_or mask (2 ^ suc i))
      (out ++ (if byte % 2 == 0 then (byte + 1) % 256 else byte) ∷ []) rest

-- `result[start] = mask` puts the mask in front of the chunk's bytes.
pub encode_chunks : List (List ℕ) → List ℕ
encode_chunks [] = []
encode_chunks (chunk ∷ cs) =
    let (mask, out) = encode_chunk 0 1 [] chunk in mask ∷ out ++ encode_chunks cs

unfoldable pub encode_statstring : List ℕ → List ℕ
unfolding encode_chunk encode_chunks chunks
encode_statstring raw = encode_chunks (chunks 7 raw)

-- The inner loop of `decode_statstring`; `byte.wrapping_sub(1)` is `(byte + 255) % 256`.
pub decode_data : ℕ → ℕ → List ℕ → List ℕ
decode_data mask i [] = []
decode_data mask i (byte ∷ rest) =
    (if bit_and mask (2 ^ suc i) == 0 then (byte + 255) % 256 else byte)
    ∷ decode_data mask (suc i) rest

pub decode_chunk : List ℕ → List ℕ
decode_chunk [] = []
decode_chunk (mask ∷ rest) = decode_data mask 0 rest

pub decode_chunks : List (List ℕ) → List ℕ
decode_chunks [] = []
decode_chunks (chunk ∷ cs) = decode_chunk chunk ++ decode_chunks cs

unfoldable pub decode_statstring : List ℕ → List ℕ
unfolding decode_data decode_chunk decode_chunks chunks
decode_statstring enc = decode_chunks (chunks 8 enc)
