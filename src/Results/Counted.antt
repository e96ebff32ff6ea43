-- ===== src/Results/Counted.antt =====
-- What the summary of a job counts and evaluates, `print_summary` of
-- src/reprompi_bench/output_management/results_output.c.
use reprompi_dev.Prelude.{
  ℕ, zero, suc, ◌+◌, ◌^◌, ◌<◌, ◌≡◌, refl, ap, ◌∙◌, Bool, true, false, ◌&&◌, none, some, List, [],
  ◌∷◌, length, length-tabulate, tabulate, All, ◌==◌, if◌then◌else◌, arith,
}
use reprompi_dev.Prelude.Double.{Doubles}
use reprompi_dev.Results.{
  Process, Reductions, TimingMethod, max_over_local_runtime, global_times, unknown_method,
  compute_by_method, compute_runtimes, max_double, min_double, max_int,
}
use reprompi_dev.Results.Runtimes.{Reduces}
use reprompi_dev.Results.Job.{HasTimes, own, code, over_all, unknown_is_error}
use reprompi_dev.Results.Whole.{KeepsLength, whole_codes, whole_local, span, whole_global}
use reprompi_dev.Results.Summary.{Gsl, Line, method_values, summary_methods, print_summary}
use reprompi_dev.Results.Valid.{valid, HasCodes, int_count_small, summary_from}

-- The values of a function at the indices that a test accepts, in order
abbrev pub chosen : {A : Type 0} → (ℕ → Bool) → (ℕ → A) → ℕ → ℕ → List A
chosen good f zero k = []
chosen good f (suc n) k = let rest = chosen good f n (k + 1) in if good k then f k ∷ rest else rest

valid-chosen :
    {A : Type 0} (c : ℕ → ℕ) (good : ℕ → Bool) (f : ℕ → A)
    → ((i : ℕ) → (c i == 0) ≡ good i)
    → (n k : ℕ) → valid (tabulate c n k) (tabulate f n k) ≡ chosen good f n k
valid-chosen c good f same zero k = refl
valid-chosen c good f same (suc n) k = rw (same k, valid-chosen c good f same n (k + 1)) refl

all-chosen : {A : Type 0} (f : ℕ → A) (n k : ℕ) → tabulate f n k ≡ chosen (λ i. true) f n k
all-chosen f zero k = refl
all-chosen f (suc n) k = ap (λ xs. f k ∷ xs) (all-chosen f n (k + 1))

-- The largest of some codes is 0 if and only if all of them are.
max_zero : (a b : ℕ) → (max_int a b == 0) ≡ ((a == 0) && (b == 0))
max_zero a b = ground arith

swap_and : (a b c : Bool) → (a && (b && c)) ≡ (b && (a && c))
swap_and true b c = refl
swap_and false true c = refl
swap_and false false c = refl

module _ {T : Type 0} (double : Doubles T) (reduce : Reductions T) (gsl : Gsl T)
    (zero_sec d : T) where
  -- The code of a repetition is 0 on every process.
  abbrev pub all_zero : List (Process T) → ℕ → Bool
  all_zero [] i = true
  all_zero (p ∷ ps) i = (code double reduce d p i == 0) && all_zero ps i

  all_zero_lem :
      (p : Process T) (ps : List (Process T)) (i : ℕ)
      → (over_all double reduce d max_int (code double reduce d) p ps i == 0) ≡ all_zero (p ∷ ps) i
  all_zero_lem p [] i = ground arith
  all_zero_lem p (q ∷ ps) i =
      max_zero (code double reduce d q i)
        (over_all double reduce d max_int (code double reduce d) p ps i)
      ∙ ap (λ b. (code double reduce d q i == 0) && b) (all_zero_lem p ps i)
      ∙ swap_and (code double reduce d q i == 0) (code double reduce d p i == 0) (all_zero ps i)

  -- The repetitions that count: under window-based synchronisation those whose code is 0 on
  -- every process, otherwise all
  abbrev pub counts : Bool → List (Process T) → ℕ → Bool
  counts true ps i = all_zero ps i
  counts false ps i = true

  -- The line of a job from the run-times that count
  abbrev pub line_of : ℕ → ℕ → List T → Line T
  line_of methods n_rep times = record {
    total_nrep = n_rep;
    valid_nrep = length times;
    values = method_values gsl zero_sec methods (length times) (gsl.sort times) summary_methods;
  }

  line_of_method :
      (methods n_rep : ℕ) (window : Bool) (p : Process T) (ps : List (Process T))
      (method : TimingMethod) (f : ℕ → T)
      → n_rep < 2 ^ 31
      → All (HasTimes n_rep) (p ∷ ps)
      → Reduces reduce.on_ints max_int
      → KeepsLength reduce.on_ints max_int
      → compute_by_method double reduce n_rep method (p ∷ ps) ≡ some (tabulate f n_rep 0)
      → print_summary double reduce gsl zero_sec methods n_rep window method (p ∷ ps)
        ≡ some (line_of methods n_rep (chosen (counts window (p ∷ ps)) f n_rep 0))
  unfolding compute_runtimes HasCodes
  line_of_method methods n_rep false p ps method f int room documented keeps e =
      summary_from double reduce gsl zero_sec methods n_rep false method (p ∷ ps)
        (tabulate f n_rep 0) none int (rw e refl) (length-tabulate f n_rep 0) _
      ∙ ap (λ xs. some (line_of methods n_rep xs)) (all-chosen f n_rep 0)
  line_of_method methods n_rep true p ps method f int room documented keeps e =
      let c : ℕ → ℕ = over_all double reduce d max_int (code double reduce d) p ps in
      summary_from double reduce gsl zero_sec methods n_rep true method (p ∷ ps)
        (tabulate f n_rep 0) (some (tabulate c n_rep 0)) int
        (rw (whole_codes double reduce d n_rep p ps room documented keeps, e) refl)
        (length-tabulate f n_rep 0) (length-tabulate c n_rep 0)
      ∙ ap (λ xs. some (line_of methods n_rep xs))
          (valid-chosen c (all_zero (p ∷ ps)) f (all_zero_lem p ps) n_rep 0)

  -- When the arrays of all processes have room for the repetitions, which are below 2^31, and the
  -- reductions are as MPI documents them, with as many elements as each array: the summary of a job
  -- counts and evaluates the run-times of exactly the valid repetitions, in their order before
  -- sorting. Under window-based synchronisation, those are the repetitions whose code is 0 on every
  -- process, and otherwise all of them. The run-time is that of the slowest process by the method
  -- of local clocks, and the time from the first start to the last end by that of global clocks;
  -- any other method is an error.
  pub print_summary_lem :
      (methods n_rep : ℕ) (window : Bool) (p : Process T) (ps : List (Process T))
      → n_rep < 2 ^ 31
      → All (HasTimes n_rep) (p ∷ ps)
      → Reduces reduce.on_doubles (max_double double)
      → KeepsLength reduce.on_doubles (max_double double)
      → Reduces reduce.on_doubles (min_double double)
      → KeepsLength reduce.on_doubles (min_double double)
      → Reduces reduce.on_ints max_int
      → KeepsLength reduce.on_ints max_int
      → (print_summary double reduce gsl zero_sec methods n_rep window max_over_local_runtime
            (p ∷ ps)
          ≡ some (
              line_of methods n_rep (
                chosen
                  (counts window (p ∷ ps))
                  (over_all double reduce d (max_double double) (own double reduce d) p ps)
                  n_rep
                  0)))
        × (print_summary double reduce gsl zero_sec methods n_rep window global_times (p ∷ ps)
            ≡ some (
                line_of methods n_rep
                  (chosen (counts window (p ∷ ps)) (span double reduce d p ps) n_rep 0)))
        × (print_summary double reduce gsl zero_sec methods n_rep window unknown_method (p ∷ ps)
            ≡ none)
  unfolding print_summary
  print_summary_lem methods n_rep window p ps int room max_doc max_keeps min_doc min_keeps int_doc
        int_keeps =
      (
        line_of_method methods n_rep window p ps max_over_local_runtime _ int room int_doc int_keeps
            (whole_local double reduce d n_rep p ps room max_doc max_keeps),
        line_of_method methods n_rep window p ps global_times _ int room int_doc int_keeps
            (whole_global double reduce d n_rep p ps room max_doc max_keeps min_doc min_keeps),
        rw (int_count_small n_rep int, unknown_is_error double reduce d n_rep p ps room window)
            refl,
      )
