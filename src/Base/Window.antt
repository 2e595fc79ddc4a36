-- ===== src/Base/Window.antt =====
-- The last `cap` entries of a log: what a bounded queue keeps that gives up its oldest entry.
use ghostrs.Base.{
  ℕ, zero, suc, ◌+◌, ◌-◌, ◌≤◌, ◌<◌, ◌≡◌, refl, sym, List, [], ◌∷◌, ◌++◌, arith, min, length, drop,
  length-append, drop-append_le, length-drop, drop_one_more,
}

pub drop-nil {ℓ} : {A : Type ℓ} (n : ℕ) → ◌≡◌ {A = List A} (drop n []) []
drop-nil zero = refl
drop-nil (suc n) = refl

module _ {ℓ} {A : Type ℓ} where
  abbrev pub window : ℕ → List A → List A
  window cap log = drop (length log - cap) log

  pub length-window : (cap : ℕ) (log : List A) → length (window cap log) ≡ min cap (length log)
  length-window cap log = omega (arith, length-drop (length log - cap) log)

  -- A full window slides by one.
  pub window_slide :
      (cap : ℕ) (log : List A) (p : A)
      → 0 < cap
      → cap ≤ length log
      → drop 1 (window cap log) ++ p ∷ [] ≡ window cap (log ++ p ∷ [])
  window_slide cap log p h l =
      let n = length log - cap in
      let grown : length (log ++ p ∷ []) - cap ≡ suc n =
        omega (arith, length-append log (p ∷ [])) in
      rw (drop_one_more n log, grown) (sym (drop-append_le (suc n) log (p ∷ []) (omega arith)))

  -- One that is not full grows.
  pub window_grow :
      (cap : ℕ) (log : List A) (p : A)
      → length log < cap
      → window cap log ++ p ∷ [] ≡ window cap (log ++ p ∷ [])
  window_grow cap log p l =
      let before : length log - cap ≡ 0 = omega arith in
      let after : length (log ++ p ∷ []) - cap ≡ 0 = omega (arith, length-append log (p ∷ [])) in
      rw (before, after)

  drop_rest : (n m : ℕ) (xs : List A) → n ≤ m → drop (m - n) (drop n xs) ≡ drop m xs
  drop_rest zero m xs l = let same : m - 0 ≡ m = omega arith in rw same
  drop_rest (suc n) zero xs l = absurd (omega arith)
  drop_rest (suc n) (suc m) [] l = drop-nil (suc m - suc n)
  drop_rest (suc n) (suc m) (x ∷ xs) l =
      let same : suc m - suc n ≡ m - n = omega arith in rw same (drop_rest n m xs (omega arith))

  -- Reading a window from a position of the log that it still holds.
  pub drop-window :
      (cap seq : ℕ) (log : List A)
      → length log ≤ seq + cap
      → drop (seq - (length log - cap)) (window cap log) ≡ drop seq log
  drop-window cap seq log h = drop_rest (length log - cap) seq log (omega arith)
