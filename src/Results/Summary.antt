-- ===== src/Results/Summary.antt =====
-- The summary line of a job: `print_summary` of
-- src/reprompi_bench/output_management/results_output.c at the root, with the table of summary
-- methods of src/reprompi_bench/option_parser/parse_options.c. The functions of GSL are a
-- parameter.
use Prim.Native.Nat.{bit_and}
use reprompi_dev.Prelude.{
  ℕ, zero, suc, ◌+◌, ◌-◌, ◌%◌, ◌^◌, Bool, Option, none, some, ◌>>=◌, List, [], ◌∷◌, get_elem?,
  get_or, set, take, ltb, ◌==◌, if◌then◌else◌,
}
use reprompi_dev.Prelude.Text.{Str, same, ascii}
use reprompi_dev.Prelude.Double.{Doubles}
use reprompi_dev.Results.{Process, Reductions, TimingMethod, compute_runtimes}

-- what is called of GSL: `gsl_sort`, the mean, the median of sorted data, the variance and the
-- standard deviation
pub record Gsl (T : Type 0) : Type 0 where
  pub sort : List T → List T
  pub mean : List T → T
  pub median_from_sorted : List T → T
  pub variance : List T → T
  pub sd : List T → T

-- `summary_method_info_t`
pub record SummaryMethod : Type 0 where
  pub mask : ℕ
  pub name : Str

-- `summary_methods`
abbrev pub summary_methods : List SummaryMethod
summary_methods =
    record { mask = 1; name = ascii "mean" }
    ∷ record { mask = 2; name = ascii "median" }
    ∷ record { mask = 4; name = ascii "min" }
    ∷ record { mask = 8; name = ascii "max" }
    ∷ record { mask = 16; name = ascii "var" }
    ∷ record { mask = 32; name = ascii "stddev" }
    ∷ []

-- `print_summary_methods & mask`
abbrev pub selects : ℕ → ℕ → Bool
selects methods mask = ltb 0 (bit_and methods mask)

-- the loop that moves the valid run-times to the front: with `n` repetitions left from `i`
-- on and `nreps` kept, it returns how many are kept and the array
unfoldable pub compact : {T : Type 0} → ℕ → ℕ → ℕ → List ℕ → List T → Option (ℕ × List T)
compact zero i nreps codes times = some (nreps, times)
compact (suc n) i nreps codes times = do
  code ← get_elem? codes i
  time ← get_elem? times i
  let moved = if ltb nreps i then set times nreps time else times in
      (let kept = compact n (i + 1) (nreps + 1) codes moved in
        let skipped = compact n (i + 1) nreps codes times in if code == 0 then kept else skipped)

-- the number of valid run-times and the array, with or without codes
unfoldable pub remove_invalid : {T : Type 0} → ℕ → Option (List ℕ) → List T → Option (ℕ × List T)
remove_invalid n_rep none times = some (n_rep, times)
remove_invalid n_rep (some codes) times = compact n_rep 0 0 codes times

module _ {T : Type 0} (gsl : Gsl T) (zero_sec : T) where
  -- the chain of `strcmp` that computes one value from the sorted run-times
  unfoldable pub method_value : Str → ℕ → List T → T
  method_value name nreps xs =
      if same name (ascii "mean")
      then gsl.mean xs
      else if same name (ascii "median")
      then gsl.median_from_sorted xs
      else if same name (ascii "min")
      then (if ltb 0 nreps then get_or xs 0 zero_sec else zero_sec)
      else if same name (ascii "max")
      then (if ltb 0 nreps then get_or xs (nreps - 1) zero_sec else zero_sec)
      else if same name (ascii "var")
      then (if ltb 0 nreps then gsl.variance xs else zero_sec)
      else if same name (ascii "stddev")
      then (if ltb 0 nreps then gsl.sd xs else zero_sec)
      else zero_sec

  -- the loop over the methods
  unfoldable pub method_values : ℕ → ℕ → List T → List SummaryMethod → List T
  method_values methods nreps xs [] = []
  method_values methods nreps xs (m ∷ ms) =
      let rest = method_values methods nreps xs ms in
      if selects methods m.mask then method_value m.name nreps xs ∷ rest else rest

-- the numbers of a line; the name and the size are printed as they stand in the job
pub record Line (T : Type 0) : Type 0 where
  pub total_nrep : ℕ
  pub valid_nrep : ℕ
  pub values : List T

-- `job.n_rep` as it goes into the parameter `nrep` of `compute_runtimes`, an `int`: the lower 32 bits.
-- With a negative number the arrays of the result are not allocated.
unfoldable pub int_count : ℕ → Option ℕ
int_count n_rep = if ltb (n_rep % 2 ^ 32) (2 ^ 31) then some (n_rep % 2 ^ 32) else none

-- `print_summary` on the root
unfoldable pub print_summary :
    {T : Type 0}
    → Doubles T
    → Reductions T
    → Gsl T
    → T
    → ℕ
    → ℕ
    → Bool
    → TimingMethod
    → List (Process T)
    → Option (Line T)
print_summary double reduce gsl zero_sec print_summary_methods n_rep window method processes = do
  nrep ← int_count n_rep
  (times, codes) ← compute_runtimes double reduce nrep window method processes
  (nreps, kept) ← remove_invalid n_rep codes times
  some (record {
    total_nrep = n_rep;
    valid_nrep = nreps;
    values =
        method_values gsl zero_sec print_summary_methods nreps (gsl.sort (take nreps kept))
          summary_methods;
  })
