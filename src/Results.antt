-- ===== src/Results.antt =====
-- The run-times of a job from the times of all processes:
-- src/reprompi_bench/output_management/runtimes_computation.c. The processes stand in a list,
-- rank 0, the root, first; PMPI_Reduce is a parameter, and a read behind the end of an array is
-- `none`.
pub mod Runtimes
pub mod Job
mod Whole
pub mod Summary
mod Valid
pub mod Counted
mod Verbose
mod Normalised
mod Rows
mod Pieces
pub mod Examples
use reprompi_dev.Prelude.{
  ℕ, zero, suc, ◌+◌, Bool, true, false, Option, none, some, ◌>>=◌, List, [], ◌∷◌, get_elem?, ltb,
  if◌then◌else◌,
}
use reprompi_dev.Prelude.Double.{Doubles}

-- `reprompib_timing_method_t`; any other number is `unknown_method`.
pub data TimingMethod : Type 0 where
  max_over_local_runtime : TimingMethod
  global_times : TimingMethod
  unknown_method : TimingMethod

-- What a process holds of a job: the arrays of its times, the codes of its synchronisation module, and
-- `get_global_time` of its clock.
pub record Process (T : Type 0) : Type 0 where
  pub tstart_sec : List T
  pub tend_sec : List T
  pub errorcodes : List ℕ
  pub get_global_time : T → T

-- PMPI_Reduce at the root, on arrays of doubles and of integers
pub record Reductions (T : Type 0) : Type 0 where
  pub on_doubles : (T → T → T) → List (List T) → List T
  pub on_ints : (ℕ → ℕ → ℕ) → List (List ℕ) → List ℕ

-- the same computation on every process
abbrev pub on_all : {A B : Type 0} → (A → Option B) → List A → Option (List B)
on_all f [] = some []
on_all f (x ∷ xs) = do y ← f x; ys ← on_all f xs; some (y ∷ ys)

-- MPI_MAX on integers
abbrev pub max_int : ℕ → ℕ → ℕ
max_int a b = if ltb a b then b else a

-- the first `n` elements from an index on
unfoldable pub slice : {A : Type 0} → ℕ → ℕ → List A → Option (List A)
slice zero index xs = some []
slice (suc n) index xs = do x ← get_elem? xs index; rest ← slice n (index + 1) xs; some (x ∷ rest)

module _ {T : Type 0} (double : Doubles T) where
  -- MPI_MAX and MPI_MIN on doubles
  abbrev pub max_double : T → T → T
  max_double a b = if double.lt a b then b else a

  abbrev pub min_double : T → T → T
  min_double a b = if double.lt b a then b else a

  -- the loop that subtracts the start times from the end times, from an index on
  unfoldable pub differences : ℕ → ℕ → List T → List T → Option (List T)
  differences zero index tstart tend = some []
  differences (suc n) index tstart tend = do
    e ← get_elem? tend index
    s ← get_elem? tstart index
    rest ← differences n (index + 1) tstart tend
    some (double.minus e s ∷ rest)

-- the loop that normalises times, from an index on
unfoldable pub normalised : {T : Type 0} → (T → T) → ℕ → ℕ → List T → Option (List T)
normalised get_global_time zero index times = some []
normalised get_global_time (suc n) index times = do
  t ← get_elem? times index
  rest ← normalised get_global_time n (index + 1) times
  some (get_global_time t ∷ rest)

module _ {T : Type 0} (double : Doubles T) (reduce : Reductions T) where
  -- `compute_runtimes_local_clocks`
  unfoldable pub compute_runtimes_local_clocks : ℕ → ℕ → List (Process T) → Option (List T)
  compute_runtimes_local_clocks current_start_index current_nreps processes = do
    local_runtimes ←
        on_all (λ p. differences double current_nreps current_start_index p.tstart_sec p.tend_sec)
          processes
    some (reduce.on_doubles (max_double double) local_runtimes)

  -- `compute_runtimes_global_clocks`
  unfoldable pub compute_runtimes_global_clocks : ℕ → ℕ → List (Process T) → Option (List T)
  compute_runtimes_global_clocks current_start_index current_nreps processes = do
    starts ←
        on_all (λ p. normalised p.get_global_time current_nreps current_start_index p.tstart_sec)
          processes
    ends ←
        on_all (λ p. normalised p.get_global_time current_nreps current_start_index p.tend_sec)
          processes
    differences double current_nreps 0 (reduce.on_doubles (min_double double) starts)
        (reduce.on_doubles (max_double double) ends)

  -- `collect_errorcodes`
  unfoldable pub collect_errorcodes : ℕ → ℕ → List (Process T) → Option (List ℕ)
  collect_errorcodes current_start_index current_nreps processes = do
    local_errorcodes ← on_all (λ p. slice current_nreps current_start_index p.errorcodes) processes
    some (reduce.on_ints max_int local_errorcodes)

  -- the `switch` over the method; `none` is the exit with an error
  unfoldable pub compute_by_method : ℕ → TimingMethod → List (Process T) → Option (List T)
  compute_by_method nrep max_over_local_runtime processes =
      compute_runtimes_local_clocks 0 nrep processes
  compute_by_method nrep global_times processes = compute_runtimes_global_clocks 0 nrep processes
  compute_by_method nrep unknown_method processes = none

  -- `compute_runtimes`: the run-times, and the codes under window-based synchronisation
  unfoldable pub compute_runtimes :
      ℕ → Bool → TimingMethod → List (Process T) → Option (List T × Option (List ℕ))
  compute_runtimes nrep true method processes = do
    codes ← collect_errorcodes 0 nrep processes
    times ← compute_by_method nrep method processes
    some (times, some codes)
  compute_runtimes nrep false method processes = do
    times ← compute_by_method nrep method processes
    some (times, none)
