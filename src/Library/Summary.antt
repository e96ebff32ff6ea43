-- ===== src/Library/Summary.antt =====
-- The summary of a job: `print_summary` of src/reprompi_bench/benchmark_lib/results_output.c. The
-- array `maxRuntimes_sec` has one block of repetitions for each line, which is sorted in place.
pub mod Overwrite
pub mod First
use reprompi_dev.Prelude.{
  ℕ, zero, suc, ◌+◌, ◌*◌, Bool, true, false, Option, none, some, ◌>>=◌, List, [], ◌∷◌, ◌++◌, length,
  set, take, ltb, if◌then◌else◌,
}
use reprompi_dev.Prelude.Int.{ℤ}
use reprompi_dev.Prelude.Text.{Str, same, ascii}
use reprompi_dev.Prelude.Double.{Doubles}
use reprompi_dev.Results.{Process, Reductions, slice}
use reprompi_dev.Results.Summary.{Gsl, summary_methods, method_values, remove_invalid}
use reprompi_dev.Library.{JobInfo}
use reprompi_dev.Library.Row.{Column, timer_type, process, user_columns}
use reprompi_dev.Library.Output.{
  Gathering, reduced_runtimes, runtimes_of_procs, gather_codes, gather_local, gather_global,
}

pub record SummaryLine (T : Type 0) : Type 0 where
  pub user : List Str × List ℤ
  pub timername : Option Str
  pub column : Column
  pub total_nrep : ℕ
  pub valid_nrep : ℕ
  pub values : List T

-- the writes of consecutive entries from an index on
unfoldable pub overwrite : {A : Type 0} → ℕ → List A → List A → List A
overwrite start [] xs = xs
overwrite start (y ∷ ys) xs = overwrite (start + 1) ys (set xs start y)

-- the codes of a block, if there are codes
unfoldable pub block_codes : ℕ → ℕ → Option (List ℕ) → Option (Option (List ℕ))
block_codes start n_rep none = some none
block_codes start n_rep (some codes) = do block ← slice n_rep start codes; some (some block)

-- the run-times, the codes and the number of lines
unfoldable pub summary_runtimes :
    {T : Type 0}
    → Doubles T
    → (T → ℕ → T)
    → Reductions T
    → Gathering T
    → Bool
    → JobInfo T
    → Str
    → List (Process T)
    → Option (List T × Option (List ℕ) × ℕ)
summary_runtimes double divide reduce gather window job timertype processes =
    if same timertype (ascii "all")
    then (do
      codes ← gather_codes gather job.n_rep processes window
      let both =
          if window
          then gather_global gather job.n_rep processes
          else gather_local gather job.n_rep processes
      sec ← both
      xs ← runtimes_of_procs double job.n_rep (length processes) 0 sec.0 sec.1
      some (xs, codes, length processes))
    else (do
      (xs, codes) ← reduced_runtimes double divide reduce window job.n_rep job.op processes
      some (xs, codes, 1))

module _ {T : Type 0} (gsl : Gsl T) (zero_sec : T) (methods : ℕ) (job : JobInfo T) where
  -- The array after the block of process `proc` is compacted and sorted, and the number of valid
  -- run-times
  unfoldable pub sort_block : Option (List ℕ) → ℕ → List T → Option (ℕ × List T)
  sort_block codes proc max_runtimes = do
    let start = proc * job.n_rep
    current ← slice job.n_rep start max_runtimes
    current_codes ← block_codes start job.n_rep codes
    (nreps, kept) ← remove_invalid job.n_rep current_codes current
    some (nreps, overwrite start (gsl.sort (take nreps kept)) (overwrite start kept max_runtimes))

  -- the column behind the name
  unfoldable pub line_column : Str → ℕ → Column
  line_column timertype proc =
      if same timertype (ascii "all") then process proc else timer_type (some timertype)

  -- The loop over the lines, `n` of them from `proc` on. The values are taken from the start of the
  -- whole array.
  unfoldable pub summary_lines :
      Str → Option (List ℕ) → ℕ → ℕ → List T → Option (List (SummaryLine T))
  summary_lines timertype codes zero proc max_runtimes = some []
  summary_lines timertype codes (suc n) proc max_runtimes = do
    (nreps, xs) ← sort_block codes proc max_runtimes
    user ← user_columns job
    rest ← summary_lines timertype codes n (proc + 1) xs
    some (
        record {
          user = user;
          timername = job.timername;
          column = line_column timertype proc;
          total_nrep = job.n_rep;
          valid_nrep = nreps;
          values =
              if ltb 0 methods
              then method_values gsl zero_sec methods nreps (take nreps xs) summary_methods
              else [];
        }
        ∷ rest)

-- `print_summary`
unfoldable pub print_summary :
    {T : Type 0}
    → Doubles T
    → (T → ℕ → T)
    → Reductions T
    → Gathering T
    → Gsl T
    → T
    → ℕ
    → Bool
    → JobInfo T
    → List (Process T)
    → Option (List (SummaryLine T))
print_summary double divide reduce gather gsl zero_sec methods window job processes = do
  timertype ← job.timertype
  (xs, codes, n_results) ←
      summary_runtimes double divide reduce gather window job timertype processes
  summary_lines gsl zero_sec methods job timertype codes n_results 0 xs
