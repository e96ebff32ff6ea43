-- ===== src/Library/Summary/First.antt =====
-- Which run-times the summary of the type "all" evaluates without windows:
-- src/reprompi_bench/benchmark_lib/results_output.c.
use reprompi_dev.Prelude.{ℕ, zero, suc, ◌+◌, List, [], ◌∷◌, ltb, if◌then◌else◌}
use reprompi_dev.Prelude.Int.{ℤ}
use reprompi_dev.Prelude.Text.{Str}
use reprompi_dev.Results.Summary.{Gsl, summary_methods, method_values}
use reprompi_dev.Library.{JobInfo}
use reprompi_dev.Library.Row.{process}
use reprompi_dev.Library.Summary.{SummaryLine}

module _ {T : Type 0} (gsl : Gsl T) (zero_sec : T) (methods : ℕ) (job : JobInfo T) where
  -- The lines for the processes from rank `k` on, each with the statistics of the same run-times
  abbrev pub lines_of : List Str × List ℤ → List T → ℕ → ℕ → List (SummaryLine T)
  lines_of user first zero k = []
  lines_of user first (suc m) k =
      record {
        user = user;
        timername = job.timername;
        column = process k;
        total_nrep = job.n_rep;
        valid_nrep = job.n_rep;
        values =
            if ltb 0 methods
            then method_values gsl zero_sec methods job.n_rep first summary_methods
            else [];
      }
      ∷ lines_of user first m (k + 1)
