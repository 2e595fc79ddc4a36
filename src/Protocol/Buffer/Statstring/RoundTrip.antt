-- ===== src/Protocol/Buffer/Statstring/RoundTrip.antt =====
-- The stat string codec loses nothing, and its output holds no NUL.
use ghostrs.Base.{
  ℕ, zero, suc, ◌+◌, ◌/◌, ◌≤◌, ◌<◌, ◌≡◌, ◌≢◌, refl, ap, ◌⊎◌, inl, inr, List, [], ◌∷◌, ◌++◌, map,
  arith, length, take, drop, All, take-append, drop-append, take_all, drop_all, take-append-drop,
  length-take, length-drop, length-map, length-append, append-nil, All-take, All-drop, All-append,
  leb, Bool-cases, IsU8,
}
use ghostrs.Protocol.Buffer.Statstring.{
  chunks_loop, encode_chunks, encode_statstring, decode_chunk, decode_chunks, decode_statstring,
}
use ghostrs.Protocol.Buffer.Statstring.Mask.{
  mask_from, is_odd, encode_byte, encode_chunk_lem, mask_from-IsU8, encode_bytes-IsU8,
  decode_data_lem,
}

-- A chunk's place in the output: it is full, or nothing follows.
split_chunk :
    (n : ℕ) (d t : List ℕ)
    → (length d ≡ n) ⊎ ((length d ≤ n) × (t ≡ []))
    → (take n (d ++ t) ≡ d) × (drop n (d ++ t) ≡ t)
split_chunk n d t (inl e) = rw (← e) (take-append d t, drop-append d t)
split_chunk n d t (inr (l, e)) = rw (e, append-nil) (take_all n d l, drop_all n d l)

abbrev encoded : List ℕ → List ℕ
encoded c = map encode_byte c

encode_chunks-cons :
    (c : List ℕ) (cs : List (List ℕ))
    → encode_chunks (c ∷ cs) ≡ mask_from 0 1 (map is_odd c) ∷ encoded c ++ encode_chunks cs
unfolding encode_chunks
encode_chunks-cons c cs = rw (encode_chunk_lem 0 1 [] c)

tail_empty :
    (fuel : ℕ) (xs : List ℕ) → length xs < 7 → encode_chunks (chunks_loop fuel 7 (drop 7 xs)) ≡ []
unfolding encode_chunks chunks_loop
tail_empty zero xs h = rw (drop_all 7 xs (omega arith))
tail_empty (suc fuel) xs h = rw (drop_all 7 xs (omega arith))

placed :
    (fuel : ℕ) (xs : List ℕ)
    → (length (encoded (take 7 xs)) ≡ 7)
      ⊎ ((length (encoded (take 7 xs)) ≤ 7) × (encode_chunks (chunks_loop fuel 7 (drop 7 xs)) ≡ []))
placed fuel xs = elim (Bool-cases (leb 7 (length xs))) [
  | inl full ↦ inl (ground (arith, length-map (take 7 xs) encode_byte, length-take 7 xs))
  | inr short ↦ inr (
    omega (arith, length-map (take 7 xs) encode_byte, length-take 7 xs),
    tail_empty fuel xs (ground arith),
  )
]

-- One round of both outer loops, on a raw string that is not empty.
length_round :
    (fuel x : ℕ) (xs : List ℕ)
    → length (encode_chunks (chunks_loop (suc fuel) 7 (x ∷ xs)))
      ≡ suc (length (take 7 (x ∷ xs)))
        + length (encode_chunks (chunks_loop fuel 7 (drop 7 (x ∷ xs))))
unfolding chunks_loop
length_round fuel x xs =
    let c = take 7 (x ∷ xs) in
    let rest = encode_chunks (chunks_loop fuel 7 (drop 7 (x ∷ xs))) in
    omega (
      arith,
      ap length (encode_chunks-cons c (chunks_loop fuel 7 (drop 7 (x ∷ xs)))),
      length-append (encoded c) rest,
      length-map c encode_byte,
    )

round_trip :
    (fuel fuel' : ℕ) (raw : List ℕ)
    → length raw ≤ fuel
    → length (encode_chunks (chunks_loop fuel 7 raw)) ≤ fuel'
    → All IsU8 raw
    → decode_chunks (chunks_loop fuel' 8 (encode_chunks (chunks_loop fuel 7 raw))) ≡ raw
unfolding chunks_loop decode_chunks encode_chunks decode_chunk
round_trip zero zero [] l l' h = refl
round_trip zero (suc fuel') [] l l' h = refl
round_trip (suc fuel) zero [] l l' h = refl
round_trip (suc fuel) (suc fuel') [] l l' h = refl
round_trip zero fuel' (x ∷ xs) l l' h = absurd (omega arith)
round_trip (suc fuel) zero (x ∷ xs) l l' h = absurd (omega (arith, length_round fuel x xs))
round_trip (suc fuel) (suc fuel') (x ∷ xs) l l' h =
    let c = take 7 (x ∷ xs) in
    let rest = encode_chunks (chunks_loop fuel 7 (drop 7 (x ∷ xs))) in
    let split = split_chunk 7 (encoded c) rest (placed fuel (x ∷ xs)) in
    let short : length c ≤ 7 = omega (arith, length-take 7 (x ∷ xs)) in
    rw
      (
        encode_chunk_lem 0 1 [] c,
        split.0,
        split.1,
        decode_data_lem c short (All-take IsU8 7 (x ∷ xs) h),
        round_trip fuel fuel' (drop 7 (x ∷ xs)) (omega (arith, length-drop 7 (x ∷ xs)))
            (omega (arith, length_round fuel x xs)) (All-drop IsU8 7 (x ∷ xs) h),
      )
      (take-append-drop 7 (x ∷ xs))

-- Decoding what was encoded from bytes gives the bytes back.
pub decode-encode_statstring :
    (raw : List ℕ) → All IsU8 raw → decode_statstring (encode_statstring raw) ≡ raw
unfolding decode_statstring encode_statstring
decode-encode_statstring raw h =
    round_trip (length raw) (length (encode_chunks (chunks_loop (length raw) 7 raw))) raw
      (omega arith) (omega arith) h

abbrev pub IsTextByte : ℕ → Type 0
IsTextByte b = (b ≢ 0) × IsU8 b

chunks-IsTextByte :
    (fuel : ℕ) (raw : List ℕ)
    → All IsU8 raw
    → All IsTextByte (encode_chunks (chunks_loop fuel 7 raw))
unfolding chunks_loop encode_chunks
chunks-IsTextByte zero [] h = tt
chunks-IsTextByte (suc fuel) [] h = tt
chunks-IsTextByte zero (x ∷ xs) h = tt
chunks-IsTextByte (suc fuel) (x ∷ xs) h =
    let c = take 7 (x ∷ xs) in
    let short : length (map is_odd c) ≤ 7 =
      omega (arith, length-take 7 (x ∷ xs), length-map c is_odd) in
    rw (encode_chunk_lem 0 1 [] c) (
      mask_from-IsU8 (map is_odd c) short,
      All-append IsTextByte (encoded c) _ (encode_bytes-IsU8 c (All-take IsU8 7 (x ∷ xs) h))
          (chunks-IsTextByte fuel (drop 7 (x ∷ xs)) (All-drop IsU8 7 (x ∷ xs) h)),
    )

-- No byte of what is encoded from bytes is NUL, so that a NUL can end it, and each is a byte.
pub encode_statstring-IsTextByte :
    (raw : List ℕ) → All IsU8 raw → All IsTextByte (encode_statstring raw)
unfolding encode_statstring
encode_statstring-IsTextByte raw h = chunks-IsTextByte (length raw) raw h

chunks-length :
    (fuel : ℕ) (raw : List ℕ)
    → length raw ≤ fuel
    → length (encode_chunks (chunks_loop fuel 7 raw)) ≡ length raw + (length raw + 6) / 7
unfolding chunks_loop encode_chunks
chunks-length zero [] l = refl
chunks-length (suc fuel) [] l = refl
chunks-length zero (x ∷ xs) l = absurd (omega arith)
chunks-length (suc fuel) (x ∷ xs) l = omega (
  arith,
  length_round fuel x xs,
  length-take 7 (x ∷ xs),
  length-drop 7 (x ∷ xs),
  chunks-length fuel (drop 7 (x ∷ xs)) (omega (arith, length-drop 7 (x ∷ xs))),
)

-- The encoding fills the capacity that the code reserves: one mask for each seven bytes or fewer.
pub length-encode_statstring :
    (raw : List ℕ) → length (encode_statstring raw) ≡ length raw + (length raw + 6) / 7
unfolding encode_statstring
length-encode_statstring raw = chunks-length (length raw) raw (omega arith)
