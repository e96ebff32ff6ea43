-- ===== src/Measure/Kept.antt =====
-- What a job reports: an independent description of the measurement loop, from the attempts made.
use reprompi_dev.Prelude.{
  ℕ, zero, suc, ◌-◌, ◌≡◌, ◌≤◌, ◌<◌, refl, ap, ◌∙◌, Bool, true, Option, none, some, List, [], ◌∷◌,
  ◌++◌, arith, length, set, if◌then◌else◌, ◌==◌, ◌&&◌, ◌⊎◌, ◌≢◌, not,
}
use reprompi_dev.Measure.{
  Attempt, Samples, invalid_measurement, out_of_time_valid, out_of_time_invalid,
}

module _ {T : Type 0} where
  -- the first `k` pairs of the two arrays
  unfoldable pub pairs : ℕ → List T → List T → List (T × T)
  pairs zero xs ys = []
  pairs (suc k) [] ys = []
  pairs (suc k) (a ∷ xs) [] = []
  pairs (suc k) (a ∷ xs) (b ∷ ys) = (a, b) ∷ pairs k xs ys

  unfoldable pub reported : Samples T → List (T × T)
  reported s = pairs s.n_rep s.tstart_sec s.tend_sec

  unfoldable pub drop_last : List (T × T) → List (T × T)
  drop_last [] = []
  drop_last (x ∷ []) = []
  drop_last (x ∷ y ∷ xs) = x ∷ drop_last (y ∷ xs)

  -- What is reported after the pairs `kept` of `wanted` ones: an invalid attempt is not kept; an
  -- attempt out of time is kept if it is valid, else the last one kept is given up too. `none` means
  -- that the attempts do not end the job.
  unfoldable pub report : ℕ → List (T × T) → List (Attempt T) → Option (List (T × T))
  report wanted kept [] = none
  report wanted kept (a ∷ rest) =
      let all = kept ++ ((a.tstart, a.tend) ∷ []) in
      let redo = report wanted kept rest in
      let more = report wanted all rest in
      if a.code == invalid_measurement
      then redo
      else if a.code == out_of_time_valid
      then some all
      else if a.code == out_of_time_invalid
      then some (drop_last kept)
      else if length all == wanted
      then some all
      else more

  pub pairs-set :
      (k : ℕ) (xs ys : List T) (a b : T)
      → k < length xs
      → k < length ys
      → pairs (suc k) (set xs k a) (set ys k b) ≡ pairs k xs ys ++ ((a, b) ∷ [])
  unfolding pairs
  pairs-set k [] ys a b p q = absurd (omega arith)
  pairs-set k (x ∷ xs) [] a b p q = absurd (omega arith)
  pairs-set zero (x ∷ xs) (y ∷ ys) a b p q = refl
  pairs-set (suc k) (x ∷ xs) (y ∷ ys) a b p q =
      ap (λ r. (x, y) ∷ r) (pairs-set k xs ys a b (omega arith) (omega arith))

  pub pairs-set_above :
      (k i : ℕ) (xs ys : List T) (a b : T)
      → k ≤ i
      → pairs k (set xs i a) (set ys i b) ≡ pairs k xs ys
  unfolding pairs
  pairs-set_above zero i xs ys a b h = refl
  pairs-set_above (suc k) zero xs ys a b h = absurd (omega arith)
  pairs-set_above (suc k) (suc i) [] ys a b h = refl
  pairs-set_above (suc k) (suc i) (x ∷ xs) [] a b h = refl
  pairs-set_above (suc k) (suc i) (x ∷ xs) (y ∷ ys) a b h =
      ap (λ r. (x, y) ∷ r) (pairs-set_above k i xs ys a b (omega arith))

  pub drop_last-pairs :
      (k : ℕ) (xs ys : List T)
      → k ≤ length xs
      → k ≤ length ys
      → pairs (k - 1) xs ys ≡ drop_last (pairs k xs ys)
  unfolding pairs drop_last
  drop_last-pairs zero xs ys p q = refl
  drop_last-pairs (suc k) [] ys p q = absurd (omega arith)
  drop_last-pairs (suc k) (x ∷ xs) [] p q = absurd (omega arith)
  drop_last-pairs (suc zero) (x ∷ xs) (y ∷ ys) p q = refl
  drop_last-pairs (suc (suc k)) (x ∷ []) (y ∷ ys) p q = absurd (omega arith)
  drop_last-pairs (suc (suc k)) (x ∷ x' ∷ xs) (y ∷ []) p q = absurd (omega arith)
  drop_last-pairs (suc (suc k)) (x ∷ x' ∷ xs) (y ∷ y' ∷ ys) p q =
      let one_more : suc (suc k) - 1 ≡ suc (suc k - 1) = omega arith in
      ap (λ n. pairs n (x ∷ x' ∷ xs) (y ∷ y' ∷ ys)) one_more
      ∙ ap (λ r. (x, y) ∷ r)
          (drop_last-pairs (suc k) (x' ∷ xs) (y' ∷ ys) (omega arith) (omega arith))

  pub length-pairs :
      (k : ℕ) (xs ys : List T) → k ≤ length xs → k ≤ length ys → length (pairs k xs ys) ≡ k
  unfolding pairs
  length-pairs zero xs ys p q = refl
  length-pairs (suc k) [] ys p q = absurd (omega arith)
  length-pairs (suc k) (x ∷ xs) [] p q = absurd (omega arith)
  length-pairs (suc k) (x ∷ xs) (y ∷ ys) p q =
      ap suc (length-pairs k xs ys (omega arith) (omega arith))

  length-drop_last : (xs : List (T × T)) → length (drop_last xs) ≡ length xs - 1
  unfolding drop_last
  length-drop_last [] = refl
  length-drop_last (x ∷ []) = refl
  length-drop_last (x ∷ y ∷ xs) = omega (arith, length-drop_last (y ∷ xs))

  -- a valid attempt in time
  abbrev pub counts : Attempt T → Bool
  counts a =
      not (a.code == invalid_measurement)
      && not (a.code == out_of_time_valid)
      && not (a.code == out_of_time_invalid)

  module _ (wanted : ℕ) (done : List (T × T)) (a : Attempt T) (rest : List (Attempt T)) where
    abbrev pub all : List (T × T)
    all = done ++ ((a.tstart, a.tend) ∷ [])

    pub report_full :
        counts a ≡ true → length all ≡ wanted → report wanted done (a ∷ rest) ≡ some all
    unfolding report
    report_full h e = ground arith

    pub report_more :
        counts a ≡ true
        → length all ≢ wanted
        → report wanted done (a ∷ rest) ≡ report wanted all rest
    unfolding report
    report_more h e = ground arith

    pub report_redo :
        a.code ≡ invalid_measurement → report wanted done (a ∷ rest) ≡ report wanted done rest
    unfolding report
    report_redo h = ground arith

    pub report_valid : a.code ≡ out_of_time_valid → report wanted done (a ∷ rest) ≡ some all
    unfolding report
    report_valid h = ground arith

    pub report_invalid :
        a.code ≡ out_of_time_invalid → report wanted done (a ∷ rest) ≡ some (drop_last done)
    unfolding report
    report_invalid h = ground arith

  pub verdicts :
      (a : Attempt T)
      → (a.code ≡ invalid_measurement)
        ⊎ (a.code ≡ out_of_time_valid)
        ⊎ (a.code ≡ out_of_time_invalid)
        ⊎ (counts a ≡ true)
  verdicts a = ground arith
