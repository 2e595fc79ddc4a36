-- ===== src/Protocol/Error.antt =====
-- crates/spectre-protocol/src/error.rs, and Rust's `Result` with it.
use ghostrs.Base.{ℕ, ◌≡◌, Bool, true, false, ◌&&◌, ◌==◌, ◌↔◌, arith}
use Prim.Native.String.{String}
use text.Mathlib.Text.{◌==◌ as str_eq}
use text.Mathlib.TextEquality.{eq_iff}

-- `Io` is known by its kind alone, which is what the equality reads.
pub data ProtoError : Type 0 where
  truncated : ℕ → ℕ → ProtoError
  unterminated_string : ProtoError
  bad_value : String → ProtoError
  too_large : ℕ → ProtoError
  io : ℕ → ProtoError

pub data Result {ℓ} (A : Type ℓ) : Type ℓ where
  ok : A → Result A
  err : ProtoError → Result A

infixl 5 ◌>>=◌
abbrev pub ◌>>=◌ {ℓ κ} : {A : Type ℓ} {B : Type κ} → Result A → (A → Result B) → Result B
ok a >>= f = f a
err e >>= f = err e

-- `impl PartialEq for ProtoError`.
pub eq : ProtoError → ProtoError → Bool
eq (truncated n1 h1) (truncated n2 h2) = n1 == n2 && h1 == h2
eq unterminated_string unterminated_string = true
eq (bad_value s1) (bad_value s2) = str_eq s1 s2
eq (too_large l1) (too_large l2) = l1 == l2
eq (io e1) (io e2) = e1 == e2
eq _ _ = false

-- The hand-written equality is equality of errors.
pub eq_iff_eq : (a b : ProtoError) → (eq a b ≡ true) ↔ (a ≡ b)
unfolding eq
eq_iff_eq (truncated n1 h1) (truncated n2 h2) = ground arith
eq_iff_eq (bad_value s1) (bad_value s2) = ground (arith, eq_iff s1 s2)
eq_iff_eq a b = ground arith
