-- ===== src/Library/Output/AllRows.antt =====
-- `print_measurement_results` of src/reprompi_bench/benchmark_lib/results_output.c for the type "all".
use mathlib.Core.List.{map}
use reprompi_dev.Prelude.{ℕ, Option, List}
use reprompi_dev.Prelude.Int.{ℤ}
use reprompi_dev.Prelude.Text.{Str, ascii}
use reprompi_dev.Library.{JobInfo, initialize_job}

-- the columns of the variables
abbrev pub values_of : List (Str × Str) → List (Str × ℤ) → List Str × List ℤ
values_of ss is = (map (λ p. p.1) ss, map (λ p. p.1) is)

-- a new job of the type "all"
abbrev pub all_job : {T : Type 0} → ℕ → List T → List T → Str → Str → JobInfo T
all_job nrep tstart tend operation timername =
    initialize_job nrep tstart tend operation timername (ascii "all")
