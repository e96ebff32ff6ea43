-- ===== src/Prelude/Int.antt =====
-- Signed integers over the native numbers, for the source's `int` and `long` values that may be
-- negative.
use reprompi_dev.Prelude.{ℕ, suc, ◌+◌, ◌≡◌, ap, Bool, true, false, ltb, leb, ◌==◌, arith}

-- `negsuc n` is -(n + 1).
pub data ℤ : Type 0 where
  pos : ℕ → ℤ
  negsuc : ℕ → ℤ

abbrev pub pos_part : ℤ → ℕ
pos_part (pos n) = n
pos_part (negsuc n) = 0

abbrev pub neg_part : ℤ → ℕ
neg_part (pos n) = 0
neg_part (negsuc n) = suc n

abbrev pub ltb_ℤ : ℤ → ℤ → Bool
ltb_ℤ a b = ltb (pos_part a + neg_part b) (pos_part b + neg_part a)

abbrev pub leb_ℤ : ℤ → ℤ → Bool
leb_ℤ a b = leb (pos_part a + neg_part b) (pos_part b + neg_part a)

abbrev pub eqb_ℤ : ℤ → ℤ → Bool
eqb_ℤ (pos m) (pos n) = m == n
eqb_ℤ (negsuc m) (negsuc n) = m == n
eqb_ℤ _ _ = false

pub eqb_ℤ_refl : (a : ℤ) → eqb_ℤ a a ≡ true
eqb_ℤ_refl (pos m) = ground arith
eqb_ℤ_refl (negsuc m) = ground arith

pub eqb_ℤ→eq : (a b : ℤ) → eqb_ℤ a b ≡ true → a ≡ b
eqb_ℤ→eq (pos m) (pos n) h = ap pos (ground arith)
eqb_ℤ→eq (negsuc m) (negsuc n) h = ap negsuc (ground arith)
eqb_ℤ→eq (pos m) (negsuc n) h = absurd (ground arith)
eqb_ℤ→eq (negsuc m) (pos n) h = absurd (ground arith)
