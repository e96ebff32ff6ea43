-- ===== src/Library/Output/Examples.antt =====
-- The rows and the summary of a job on two processes.
use reprompi_dev.Prelude.{ℕ, ◌-◌, ◌/◌, ◌≡◌, refl, true, some, List, [], ◌∷◌, ◌++◌, get_elem?, arith}
use reprompi_dev.Prelude.Text.{Str, same, ascii}
use reprompi_dev.Prelude.Int.{ℤ, pos}
use reprompi_dev.Results.{max_double, min_double}
use reprompi_dev.Results.Job.{own, over_all}
use reprompi_dev.Results.Examples.{
  ticks, reductions, first_process, second_process, processes, rooms, reduction-Reduces,
}
use reprompi_dev.Library.{JobInfo}
use reprompi_dev.Library.UserVars.{with_vars}
use reprompi_dev.Library.Row.{process}
use reprompi_dev.Library.Output.{Gathering, compute_runtimes_local_clocks_with_reduction}
use reprompi_dev.Library.Output.Rows.{global_start, global_end, code_of}
use reprompi_dev.Library.Output.Processes.{described_rows}
use reprompi_dev.Library.Output.AllRows.{values_of, all_job}
use reprompi_dev.Library.Output.Reduced.{reduced_runtimes_lem}

-- One array behind the other
module _ {A : Type 0} where
  abbrev joined : List (List A) → List A
  joined [] = []
  joined (xs ∷ xss) = xs ++ joined xss

abbrev gathering : Gathering ℕ
gathering = record { of_doubles = joined; of_ints = joined }

abbrev variables : List (Str × Str)
variables = (ascii "machine", ascii "m1") ∷ []

abbrev numbers : List (Str × ℤ)
numbers = (ascii "n", pos 7) ∷ []

abbrev job : JobInfo ℕ
job =
    with_vars (all_job 3 (10 ∷ 20 ∷ 30 ∷ []) (15 ∷ 23 ∷ 39 ∷ []) (ascii "max") (ascii "t"))
      variables numbers

abbrev mean_op : Str
mean_op = ascii "mean"

reduced_runtimes_lem_example :
    (xs : List ℕ) × (compute_runtimes_local_clocks_with_reduction ticks
        (λ x n. x / n)
        reductions
        0
        3
        mean_op
        processes
      ≡ some xs)
    × (get_elem? xs 1
        ≡ some (
            over_all ticks reductions 0 ticks.plus
              (own ticks reductions 0)
              first_process
              (second_process ∷ [])
              1
            / 2))
unfolding same
reduced_runtimes_lem_example =
    reduced_runtimes_lem ticks (λ x n. x / n) reductions 0 mean_op 3 first_process
      (second_process ∷ []) (omega arith) rooms (reduction-Reduces ticks.plus)
      (reduction-Reduces (min_double ticks)) (reduction-Reduces (max_double ticks)) 1 (omega arith)

-- the first row of the second process
row_of_second :
    get_elem?
      (described_rows job
        (values_of variables numbers)
        (code_of 0 true)
        (λ p i. global_end 0 p i - global_start 0 p i)
        3
        0
        processes)
      3
    ≡ some (record {
      user = (ascii "m1" ∷ [], pos 7 ∷ []);
      timername = some (ascii "t");
      column = process 1;
      errorcode = some 0;
      rep = 0;
      runtime_sec = 3;
    })
unfolding reprompi_dev.Library.initialize_job
row_of_second = refl
