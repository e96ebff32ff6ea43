-- ===== src/Library/Output.antt =====
-- The rows of a job, src/reprompi_bench/benchmark_lib/results_output.c, but for its summary. The
-- processes stand in a list, rank 0, the root, first, and `job` is what the root holds; MPI_Reduce
-- and MPI_Gather are parameters, and a read behind the end of an array is `none`.
pub mod Gathered
pub mod Columns
pub mod Rows
pub mod Processes
pub mod AllRows
mod Reduced
mod Examples
use reprompi_dev.Prelude.{
  ℕ, zero, suc, ◌+◌, ◌*◌, Bool, true, false, ◌&&◌, not, Option, none, some, ◌>>=◌, List, [], ◌∷◌,
  ◌++◌, get_elem?, length, if◌then◌else◌,
}
use reprompi_dev.Prelude.Int.{ℤ}
use reprompi_dev.Prelude.Text.{Str, same, ascii}
use reprompi_dev.Prelude.Double.{Doubles}
use reprompi_dev.Results.{
  Process, Reductions, on_all, slice, differences, normalised, max_double, min_double,
  collect_errorcodes, compute_runtimes_global_clocks,
}
use reprompi_dev.Library.{JobInfo}
use reprompi_dev.Library.Row.{
  Column, Printed, RuntimeRow, TimesRow, process, read_code, runtime_rows, runtimes, timer_type,
  times, user_columns,
}

-- MPI_Gather at the root, on arrays of doubles and of integers
pub record Gathering (T : Type 0) : Type 0 where
  pub of_doubles : List (List T) → List T
  pub of_ints : List (List ℕ) → List ℕ

-- the division in place of the first `n` values
unfoldable pub divide_front : {T : Type 0} → (T → T) → ℕ → List T → Option (List T)
divide_front by_np zero xs = some xs
divide_front by_np (suc n) [] = none
divide_front by_np (suc n) (x ∷ xs) = do rest ← divide_front by_np n xs; some (by_np x ∷ rest)

module _ {T : Type 0} (double : Doubles T) (divide : T → ℕ → T) (reduce : Reductions T) where
  -- the `MPI_Op` of the name
  unfoldable pub operation : Str → T → T → T
  operation op a b =
      if same (ascii "mean") op
      then double.plus a b
      else if same (ascii "min") op
      then min_double double a b
      else max_double double a b

  -- `compute_runtimes_local_clocks_with_reduction`
  unfoldable pub compute_runtimes_local_clocks_with_reduction :
      ℕ → ℕ → Str → List (Process T) → Option (List T)
  compute_runtimes_local_clocks_with_reduction current_start_index current_nreps op processes = do
    local_runtimes ←
        on_all (λ p. differences double current_nreps current_start_index p.tstart_sec p.tend_sec)
          processes
    let reduced = reduce.on_doubles (operation op) local_runtimes
    if same (ascii "mean") op
        then divide_front (λ x. divide x (length processes)) current_nreps reduced
        else some reduced

  -- the codes and the reduced run-times, with windows and without
  unfoldable pub reduced_runtimes :
      Bool → ℕ → Option Str → List (Process T) → Option (List T × Option (List ℕ))
  reduced_runtimes true n_rep op processes = do
    codes ← collect_errorcodes double reduce 0 n_rep processes
    xs ← compute_runtimes_global_clocks double reduce 0 n_rep processes
    some (xs, some codes)
  reduced_runtimes false n_rep op processes = do
    name ← op
    xs ← compute_runtimes_local_clocks_with_reduction 0 n_rep name processes
    some (xs, none)

-- `print_runtimes`
unfoldable pub print_runtimes :
    {T : Type 0}
    → Doubles T
    → (T → ℕ → T)
    → Reductions T
    → Bool
    → JobInfo T
    → List (Process T)
    → Option (List (RuntimeRow T))
print_runtimes double divide reduce window job processes = do
  (xs, codes) ← reduced_runtimes double divide reduce window job.n_rep job.op processes
  runtime_rows job (timer_type job.timertype) xs codes 0 job.n_rep 0

-- the run-times of `np` processes from `proc_id` on, from the gathered times
unfoldable pub runtimes_of_procs :
    {T : Type 0} → Doubles T → ℕ → ℕ → ℕ → List T → List T → Option (List T)
runtimes_of_procs double n_rep zero proc_id start_sec end_sec = some []
runtimes_of_procs double n_rep (suc np) proc_id start_sec end_sec = do
  xs ← differences double n_rep (proc_id * n_rep) start_sec end_sec
  rest ← runtimes_of_procs double n_rep np (proc_id + 1) start_sec end_sec
  some (xs ++ rest)

-- the rows of `np` processes from `proc_id` on
unfoldable pub rows_of_procs :
    {T : Type 0} → JobInfo T → List T → Option (List ℕ) → ℕ → ℕ → Option (List (RuntimeRow T))
rows_of_procs job max_runtimes codes zero proc_id = some []
rows_of_procs job max_runtimes codes (suc np) proc_id = do
  rows ← runtime_rows job (process proc_id) max_runtimes codes (proc_id * job.n_rep) job.n_rep 0
  rest ← rows_of_procs job max_runtimes codes np (proc_id + 1)
  some (rows ++ rest)

-- `print_runtimes_allprocs`
unfoldable pub print_runtimes_allprocs :
    {T : Type 0}
    → Doubles T
    → ℕ
    → JobInfo T
    → List T
    → List T
    → Option (List ℕ)
    → Option (List (RuntimeRow T))
print_runtimes_allprocs double np job global_start_sec global_end_sec codes = do
  max_runtimes ← runtimes_of_procs double job.n_rep np 0 global_start_sec global_end_sec
  rows_of_procs job max_runtimes codes np 0

module _ {T : Type 0} (gather : Gathering T) (n_rep : ℕ) (processes : List (Process T)) where
  -- the gathered codes, with windows only
  unfoldable pub gather_codes : Bool → Option (Option (List ℕ))
  gather_codes false = some none
  gather_codes true = do
    codes ← on_all (λ p. slice n_rep 0 p.errorcodes) processes
    some (some (gather.of_ints codes))

  -- the gathered start and end times, as they were measured
  unfoldable pub gather_local : Option (List T × List T)
  gather_local = do
    starts ← on_all (λ p. slice n_rep 0 p.tstart_sec) processes
    ends ← on_all (λ p. slice n_rep 0 p.tend_sec) processes
    some (gather.of_doubles starts, gather.of_doubles ends)

  -- and on the global clock
  unfoldable pub gather_global : Option (List T × List T)
  gather_global = do
    starts ← on_all (λ p. normalised p.get_global_time n_rep 0 p.tstart_sec) processes
    ends ← on_all (λ p. normalised p.get_global_time n_rep 0 p.tend_sec) processes
    some (gather.of_doubles starts, gather.of_doubles ends)

module _ {T : Type 0} (job : JobInfo T) (local_sec global_sec : List T × List T)
    (codes : Option (List ℕ)) where
  -- the columns of the global times
  unfoldable pub read_global : ℕ → Option (Option (T × T))
  read_global index = elim codes [
    | none ↦ some none
    | some c ↦ do
      s ← get_elem? global_sec.0 index
      e ← get_elem? global_sec.1 index
      some (some (s, e))
  ]

  -- the rows of process `proc_id` with `verbose`, `n` of them from `i` on
  unfoldable pub times_rows : ℕ → ℕ → ℕ → Option (List (TimesRow T))
  times_rows proc_id zero i = some []
  times_rows proc_id (suc n) i = do
    let index = proc_id * job.n_rep + i
    user ← user_columns job
    code ← read_code codes index
    s ← get_elem? local_sec.0 index
    e ← get_elem? local_sec.1 index
    global ← read_global index
    rest ← times_rows proc_id n (i + 1)
    some (
        record {
          user = user;
          timername = job.timername;
          proc_id = proc_id;
          rep = i;
          errorcode = code;
          local_start_sec = s;
          local_end_sec = e;
          global_sec = global;
        }
        ∷ rest)

  -- the loop over `np` processes from `proc_id` on
  unfoldable pub times_of_procs : ℕ → ℕ → Option (List (TimesRow T))
  times_of_procs zero proc_id = some []
  times_of_procs (suc np) proc_id = do
    rows ← times_rows proc_id job.n_rep 0
    rest ← times_of_procs np (proc_id + 1)
    some (rows ++ rest)

-- `print_measurement_results`
unfoldable pub print_measurement_results :
    {T : Type 0}
    → Doubles T
    → (T → ℕ → T)
    → Reductions T
    → Gathering T
    → Bool
    → Bool
    → JobInfo T
    → List (Process T)
    → Option (Printed T)
print_measurement_results double divide reduce gather verbose window job processes = do
  timertype ← job.timertype
  if not verbose && not (same timertype (ascii "all"))
      then (do
        rows ← print_runtimes double divide reduce window job processes
        some (runtimes rows))
      else (do
        codes ← gather_codes gather job.n_rep processes window
        local ← gather_local gather job.n_rep processes
        global ← gather_global gather job.n_rep processes
        if not verbose && same timertype (ascii "all")
            then (do
              rows ← print_runtimes_allprocs double (length processes) job global.0 global.1 codes
              some (runtimes rows))
            else (do
              rows ← times_of_procs job local global codes (length processes) 0
              some (times rows)))
