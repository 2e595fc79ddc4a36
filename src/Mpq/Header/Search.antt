-- ===== src/Mpq/Header/Search.antt =====
-- What the search for the header of an archive finds.
use ghostrs.Base.{
  ℕ, zero, suc, ◌+◌, ◌-◌, ◌*◌, ◌≤◌, ◌<◌, ◌≡◌, refl, ◌⊎◌, inl, inr, true, false, Option, none, some,
  arith, ltb, leb, length, drop, Bool-cases,
}
use ghostrs.Protocol.Buffer.{Bytes}
use ghostrs.Mpq.Header.{
  header_size_v1, header_not_found, Located, located, missing, MpqHeader, u32_at, magic_at,
  header_at, parse_at, user_data_at, found_at, or_rest, aligned, bytewise, parse_found, locate,
}

-- A header that stands whole in the file, behind the archive's magic.
abbrev pub Stands : Bytes → ℕ × ℕ → Type 0
Stands file (archive_offset, header_offset) =
    (magic_at 0x1A file header_offset ≡ true) × (header_offset + header_size_v1 ≤ length file)

abbrev pub Finds : Bytes → Option (ℕ × ℕ) → Type 0
Finds file none = Unit {0}
Finds file (some p) = Stands file p

user_data-Stands :
    (file : Bytes) (offset target : ℕ)
    → user_data_at file offset target ≡ true
    → Stands file (offset, target)
unfolding user_data_at
user_data-Stands file offset target e = (ground (arith, e), ground (arith, e))

found_at-Finds :
    (file : Bytes) (offset : ℕ)
    → offset + header_size_v1 ≤ length file
    → Finds file (found_at file offset)
unfolding found_at
found_at-Finds file offset h =
    let target = offset + u32_at (drop offset file) 8 in
    elim (Bool-cases (magic_at 0x1A file offset)) [
      | inl here ↦ rw here (here, h)
      | inr away ↦ elim (Bool-cases (user_data_at file offset target)) [
        | inl there ↦ rw (away, there) (user_data-Stands file offset target there)
        | inr nowhere ↦ rw (away, nowhere) tt
      ]
    ]

found_at-none :
    (file : Bytes) (offset : ℕ) → found_at file offset ≡ none → magic_at 0x1A file offset ≡ false
unfolding found_at
found_at-none file offset e = elim (Bool-cases (magic_at 0x1A file offset)) [
  | inl here ↦ absurd (ground (arith, here, e))
  | inr away ↦ away
]

or_rest-Finds :
    (file : Bytes) (first rest : Option (ℕ × ℕ))
    → Finds file first
    → Finds file rest
    → Finds file (or_rest first rest)
or_rest-Finds file none rest h k = k
or_rest-Finds file (some p) rest h k = h

aligned-Finds : (fuel : ℕ) (file : Bytes) (offset : ℕ) → Finds file (aligned fuel file offset)
unfolding aligned
aligned-Finds zero file offset = tt
aligned-Finds (suc fuel) file offset =
    elim (Bool-cases (leb (offset + header_size_v1) (length file))) [
      | inl inside ↦ rw inside (
          or_rest-Finds file (found_at file offset) (aligned fuel file (offset + 512))
            (found_at-Finds file offset (ground arith)) (aligned-Finds fuel file (offset + 512)))
      | inr outside ↦ rw outside tt
    ]

bytewise-Finds :
    (rounds : ℕ) (file : Bytes) (i : ℕ)
    → i + rounds + header_size_v1 ≤ length file
    → Finds file (bytewise rounds file i)
unfolding bytewise
bytewise-Finds zero file i h = tt
bytewise-Finds (suc rounds) file i h = elim (Bool-cases (magic_at 0x1A file i)) [
  | inl here ↦ rw here (here, omega arith)
  | inr away ↦ rw away (bytewise-Finds rounds file (i + 1) (omega arith))
]

or_rest-none :
    (first rest : Option (ℕ × ℕ)) → or_rest first rest ≡ none → (first ≡ none) × (rest ≡ none)
or_rest-none none rest e = (refl, e)
or_rest-none (some p) rest e = absurd (cc)

aligned-none :
    (fuel : ℕ) (file : Bytes) (offset k : ℕ)
    → aligned fuel file offset ≡ none
    → k < fuel
    → offset + 512 * k + header_size_v1 ≤ length file
    → magic_at 0x1A file (offset + 512 * k) ≡ false
unfolding aligned
aligned-none zero file offset k e l h = absurd (omega arith)
aligned-none (suc fuel) file offset zero e l h =
    let inside : leb (offset + header_size_v1) (length file) ≡ true = ground arith in
    let both =
      or_rest-none (found_at file offset) (aligned fuel file (offset + 512)) (rw inside at e) in
    let same : offset + 512 * 0 ≡ offset = omega arith in rw same (found_at-none file offset both.0)
aligned-none (suc fuel) file offset (suc k) e l h =
    let inside : leb (offset + header_size_v1) (length file) ≡ true = ground arith in
    let both =
      or_rest-none (found_at file offset) (aligned fuel file (offset + 512)) (rw inside at e) in
    let same : offset + 512 * suc k ≡ offset + 512 + 512 * k = omega arith in
    rw same (aligned-none fuel file (offset + 512) k both.1 (omega arith) (omega arith))

parse_at-Stands :
    (file : Bytes) (p : ℕ × ℕ)
    → Stands file p
    → parse_at file p.0 p.1 ≡ located (header_at file p.0 p.1)
unfolding parse_at
parse_at-Stands file (a, h) (magic, inside) = ground arith

-- What the search makes of the file.
abbrev pub Outcome : Bytes → Located MpqHeader → Type 0
Outcome file r =
    ((p : ℕ × ℕ) × Stands file p × (r ≡ located (header_at file p.0 p.1)))
    ⊎ ((r ≡ missing header_not_found)
        × ((k : ℕ) → 512 * k + header_size_v1 ≤ length file → magic_at 0x1A file (512 * k) ≡ false))

parse_found-Outcome :
    (file : Bytes) (first rest : Option (ℕ × ℕ))
    → Finds file first
    → Finds file rest
    → aligned (length file) file 0 ≡ first
    → Outcome file (parse_found file (or_rest first rest))
parse_found-Outcome file none none h k e = inr (
  refl,
  λ n l.
      let same : 0 + 512 * n ≡ 512 * n = omega arith in
      rw same at (aligned-none (length file) file 0 n e (omega arith) (omega arith)),
)
parse_found-Outcome file none (some p) h k e = inl (p, k, parse_at-Stands file p k)
parse_found-Outcome file (some p) rest h k e = inl (p, h, parse_at-Stands file p h)

-- The search either reads a header that stands whole in the file behind the magic of an archive, or
-- it finds none, and then no multiple of 512 with room for a header has that magic. No header is
-- ever called corrupted.
pub locate-Outcome : (file : Bytes) → Outcome file (locate file)
unfolding locate
locate-Outcome file = elim (Bool-cases (ltb (length file) header_size_v1)) [
  | inl small ↦ rw small (inr (refl, λ k h. absurd (ground arith)))
  | inr large ↦ rw large (
      parse_found-Outcome file (aligned (length file) file 0)
        (bytewise (length file - header_size_v1) file 0) (aligned-Finds (length file) file 0)
        (bytewise-Finds (length file - header_size_v1) file 0 (ground arith)) refl)
]
