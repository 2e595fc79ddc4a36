-- ===== src/Engine/Desync/Verdict.antt =====
-- The vote on a desync: whom the bins hold, and what the count over them finds, in whatever order
-- they are read.
use ghostrs.Base.{
  ℕ, ◌+◌, ◌≤◌, ◌<◌, ◌≡◌, refl, sym, ap, subst, ◌∙◌, ◌⊎◌, inl, inr, true, false, List, [], ◌∷◌, ◌++◌,
  arith, ltb, ◌==◌, if◌then◌else◌, length, All, All-append, append_assoc, append-nil, Bool-cases,
}
use ghostrs.Engine.Desync.{Vote, Bin, add_to_bin, fill_bins, Tally, no_tally, tally}

-- The players of the first bin of a checksum, and those whose votes name it, in order.
unfoldable pub bin_of : ℕ → List Bin → List ℕ
bin_of checksum [] = []
bin_of checksum (b ∷ bins) = if b.checksum == checksum then b.pids else bin_of checksum bins

unfoldable pub voters_of : ℕ → List Vote → List ℕ
voters_of checksum [] = []
voters_of checksum (v ∷ votes) =
    let rest = voters_of checksum votes in if v.checksum == checksum then v.pid ∷ rest else rest

add_to_bin_lem :
    (c : ℕ) (v : Vote) (bins : List Bin)
    → bin_of c (add_to_bin v bins) ≡ bin_of c bins ++ (if v.checksum == c then v.pid ∷ [] else [])
unfolding bin_of add_to_bin
add_to_bin_lem c v [] = ground arith
add_to_bin_lem c v (b ∷ bins) =
    ground (arith, add_to_bin_lem c v bins, append-nil b.pids, append-nil (bin_of c bins))

fill_bins-from :
    (c : ℕ) (votes : List Vote) (bins : List Bin)
    → bin_of c (fill_bins votes bins) ≡ bin_of c bins ++ voters_of c votes
unfolding fill_bins voters_of
fill_bins-from c [] bins = sym (append-nil _)
fill_bins-from c (v ∷ votes) bins =
    fill_bins-from c votes (add_to_bin v bins)
    ∙ ap (λ l. l ++ voters_of c votes) (add_to_bin_lem c v bins)
    ∙ append_assoc (bin_of c bins) _ (voters_of c votes)
    ∙ ap (λ l. bin_of c bins ++ l) ground arith

-- How many bins hold `n` players.
unfoldable pub bins_of_size : ℕ → List Bin → ℕ
bins_of_size n [] = 0
bins_of_size n (b ∷ bins) = (if length b.pids == n then 1 else 0) + bins_of_size n bins

bins_of_size-append :
    (n : ℕ) (xs ys : List Bin) → bins_of_size n (xs ++ ys) ≡ bins_of_size n xs + bins_of_size n ys
unfolding bins_of_size
bins_of_size-append n [] ys = omega arith
bins_of_size-append n (x ∷ xs) ys = omega (arith, bins_of_size-append n xs ys)

-- A bin smaller than the largest, or the one largest.
abbrev pub Trails : Tally → Bin → Type 0
Trails t b =
    (length b.pids < t.max_count) ⊎ ((length b.pids ≡ t.max_count) × (b.checksum ≡ t.largest_cs))

-- What a count says of the bins it has seen.
abbrev pub Sums : List Bin → Tally → Type 0
Sums seen t =
    All (λ b. length b.pids ≤ t.max_count) seen
    × (if t.tied
        then 2 ≤ bins_of_size t.max_count seen
        else (bins_of_size t.max_count seen ≡ 1) × All (Trails t) seen)

abbrev counted : Tally → Bin → Tally
counted t b =
    if ltb t.max_count (length b.pids)
    then record { max_count = length b.pids; tied = false; largest_cs = b.checksum }
    else if length b.pids == t.max_count
    then record t { tied = true }
    else t

All-imp : (P Q : Bin → Type 0) (bins : List Bin) → ((b : Bin) → P b → Q b) → All P bins → All Q bins
All-imp P Q [] f h = tt
All-imp P Q (b ∷ bins) f h = (f b h.0, All-imp P Q bins f h.1)

no_bin_of_size :
    (n : ℕ) (bins : List Bin) → All (λ b. length b.pids < n) bins → bins_of_size n bins ≡ 0
unfolding bins_of_size
no_bin_of_size n [] h = refl
no_bin_of_size n (b ∷ bins) h = ground (arith, no_bin_of_size n bins h.1)

-- One bin more, larger than all before it.
Sums-larger :
    (seen : List Bin) (t : Tally) (b : Bin)
    → All (λ c. length c.pids ≤ t.max_count) seen
    → t.max_count < length b.pids
    → Sums
        (seen ++ b ∷ [])
        (record { max_count = length b.pids; tied = false; largest_cs = b.checksum })
Sums-larger seen t b below above = (
  All-append (λ c. length c.pids ≤ length b.pids) seen (b ∷ [])
      (All-imp (λ c. length c.pids ≤ t.max_count) _ seen (λ c h. omega (arith, h, above)) below)
      (omega arith, tt),
  (
    bins_of_size-append (length b.pids) seen (b ∷ [])
        ∙ (let none_of : bins_of_size (length b.pids) seen ≡ 0 =
              no_bin_of_size (length b.pids) seen smaller in
            unfold bins_of_size in ground (arith, none_of)),
    All-append (Trails largest) seen (b ∷ [])
        (All-imp _ (Trails largest) seen (λ c h. inl h) smaller) (inr (refl, refl), tt),
  ),
)
  where
    largest : Tally
    largest = record { max_count = length b.pids; tied = false; largest_cs = b.checksum }

    smaller : All (λ c. length c.pids < length b.pids) seen
    smaller =
        All-imp (λ c. length c.pids ≤ t.max_count) _ seen (λ c h. omega (arith, h, above)) below

-- One that is no larger, with what the count of the largest becomes.
below_more :
    (seen : List Bin) (t : Tally) (b : Bin)
    → All (λ c. length c.pids ≤ t.max_count) seen
    → length b.pids ≤ t.max_count
    → All (λ c. length c.pids ≤ t.max_count) (seen ++ b ∷ [])
below_more seen t b below le =
    All-append (λ c. length c.pids ≤ t.max_count) seen (b ∷ []) below (le, tt)

one_more :
    (seen : List Bin) (t : Tally) (b : Bin)
    → bins_of_size t.max_count (seen ++ b ∷ [])
      ≡ bins_of_size t.max_count seen + (if length b.pids == t.max_count then 1 else 0)
one_more seen t b =
    bins_of_size-append t.max_count seen (b ∷ []) ∙ (unfold bins_of_size in omega arith)

Sums-same :
    (seen : List Bin) (t : Tally) (b : Bin)
    → Sums seen t
    → length b.pids ≡ t.max_count
    → 2 ≤ bins_of_size t.max_count (seen ++ b ∷ [])
Sums-same seen t b (below, rest) e = elim (Bool-cases t.tied) [
  | inl tied ↦ let two = (rw tied at rest) in ground (arith, one_more seen t b, two)
  | inr single ↦ let one = (rw single at rest) in ground (arith, one_more seen t b, one.0, e)
]

Sums-under :
    (seen : List Bin) (t : Tally) (b : Bin)
    → Sums seen t
    → length b.pids < t.max_count
    → Sums (seen ++ b ∷ []) t
Sums-under seen t b (below, rest) under = (
  below_more seen t b below (omega arith),
  elim (Bool-cases t.tied) [
    | inl tied ↦ let two = (rw tied at rest) in rw tied (ground (arith, one_more seen t b, two))
    | inr single ↦
        let one = (rw single at rest) in
        rw single (
          ground (arith, one_more seen t b, one.0, under),
          All-append (Trails t) seen (b ∷ []) one.1 (inl under, tt),
        )
  ],
)

Sums-counted :
    (seen : List Bin) (t : Tally) (b : Bin) → Sums seen t → Sums (seen ++ b ∷ []) (counted t b)
Sums-counted seen t b sums = elim (Bool-cases (ltb t.max_count (length b.pids))) [
  | inl above ↦ rw above (Sums-larger seen t b sums.0 (ground arith))
  | inr not_above ↦ elim (Bool-cases (length b.pids == t.max_count)) [
    | inl same ↦
        rw (not_above, same)
          (below_more seen t b sums.0 (ground arith), Sums-same seen t b sums (ground arith))
    | inr under ↦ rw (not_above, under) (Sums-under seen t b sums (ground arith))
  ]
]

tally-Sums : (seen bins : List Bin) (t : Tally) → Sums seen t → Sums (seen ++ bins) (tally bins t)
unfolding tally
tally-Sums seen [] t sums = subst (λ l. Sums l t) (sym (append-nil seen)) sums
tally-Sums seen (b ∷ bins) t sums =
    subst (λ l. Sums l (tally bins (counted t b))) (append_assoc seen (b ∷ []) bins)
      (tally-Sums (seen ++ b ∷ []) bins (counted t b) (Sums-counted seen t b sums))

-- Of bins in any order, the first not empty: no bin is larger than the count found; where the vote is
-- a tie, at least two bins are as large; where it is not, exactly one is, and it is that of the
-- checksum found.
pub tally_lem :
    (b : Bin) (bins : List Bin) → 0 < length b.pids → Sums (b ∷ bins) (tally (b ∷ bins) no_tally)
unfolding tally
tally_lem b bins filled =
    let first : counted no_tally b
        ≡ record { max_count = length b.pids; tied = false; largest_cs = b.checksum } =
      ground arith in
    subst (λ t. Sums (b ∷ bins) (tally bins t)) (sym first)
      (tally-Sums (b ∷ []) bins _ (Sums-larger [] no_tally b tt filled))

-- However the votes come in, the bin of a checksum holds those who reported it, in order.
pub fill_bins_lem : (c : ℕ) (votes : List Vote) → bin_of c (fill_bins votes []) ≡ voters_of c votes
unfolding bin_of
fill_bins_lem c votes = fill_bins-from c votes []
