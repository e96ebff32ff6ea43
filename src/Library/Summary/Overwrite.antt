-- ===== src/Library/Summary/Overwrite.antt =====
-- Writes to consecutive entries of an array, as src/reprompi_bench/benchmark_lib/results_output.c
-- sorts the blocks of its run-times.
use reprompi_dev.Prelude.{
  ℕ, zero, suc, ◌+◌, ◌≤◌, ◌≡◌, refl, ap, ◌∙◌, List, [], ◌∷◌, length, length-set, set, take, arith,
}
use reprompi_dev.Library.Summary.{overwrite}

module _ {A : Type 0} where
  pub length-overwrite : (start : ℕ) (ys xs : List A) → length (overwrite start ys xs) ≡ length xs
  unfolding overwrite
  length-overwrite start [] xs = refl
  length-overwrite start (y ∷ ys) xs =
      length-overwrite (start + 1) ys (set xs start y) ∙ length-set xs start y

  take-set : (n start : ℕ) (y : A) (xs : List A) → n ≤ start → take n (set xs start y) ≡ take n xs
  take-set zero start y xs h = refl
  take-set (suc n) start y [] h = refl
  take-set (suc n) zero y (x ∷ xs) h = absurd (omega arith)
  take-set (suc n) (suc start) y (x ∷ xs) h = ap (λ r. x ∷ r) (take-set n start y xs (omega arith))

  -- Writes behind the first entries leave these.
  pub take-overwrite_behind :
      (n start : ℕ) (ys xs : List A) → n ≤ start → take n (overwrite start ys xs) ≡ take n xs
  unfolding overwrite
  take-overwrite_behind n start [] xs h = refl
  take-overwrite_behind n start (y ∷ ys) xs h =
      take-overwrite_behind n (start + 1) ys (set xs start y) (omega arith)
      ∙ take-set n start y xs h

  overwrite_tail :
      (start : ℕ) (ys : List A) (x : A) (xs : List A)
      → overwrite (start + 1) ys (x ∷ xs) ≡ x ∷ overwrite start ys xs
  unfolding overwrite
  overwrite_tail start [] x xs = refl
  overwrite_tail start (y ∷ ys) x xs =
      let next : start + 1 ≡ suc start = omega arith in
      rw (← overwrite_tail (start + 1) ys x (set xs start y))
        (ap (λ s. overwrite (start + 1 + 1) ys (set (x ∷ xs) s y)) next)

  -- Writes to the first entries are what they hold then.
  pub take-overwrite_front :
      (ys xs : List A) → length ys ≤ length xs → take (length ys) (overwrite 0 ys xs) ≡ ys
  unfolding overwrite
  take-overwrite_front [] xs h = refl
  take-overwrite_front (y ∷ ys) [] h = absurd (omega arith)
  take-overwrite_front (y ∷ ys) (x ∷ xs) h =
      rw (overwrite_tail 0 ys y xs) (ap (λ r. y ∷ r) (take-overwrite_front ys xs (omega arith)))
