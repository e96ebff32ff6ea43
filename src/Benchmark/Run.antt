-- ===== src/Benchmark/Run.antt =====
-- What a whole run of src/benchmarkCollective.c measures and prints.
use reprompi_dev.Prelude.{
  ℕ, ◌^◌, ◌*◌, ◌/◌, ◌≡◌, ◌≢◌, ◌<◌, ◌≤◌, refl, ◌∙◌, true, none, some, List, [], ◌∷◌, ◌++◌, length,
  All, arith, Bool, inl, inr, sym, get_elem?_below, ◌==◌, Option, >>=-eq-some,
}
use reprompi_dev.Prelude.Int.{ℤ, pos, negsuc}
use reprompi_dev.Buffers.{Params, int_max}
use reprompi_dev.Jobs.{Job, read_input_jobs, jobs_of_options}
use reprompi_dev.Measure.{SyncModule}
use mathlib.Core.Option.{none-ne-some, some-injective}
use native.Mathlib.Nat.{mul-pos}
use reprompi_dev.Prelude.{pair-All}
use reprompi_dev.Prelude.Text.{Str}
use reprompi_dev.Buffers.Cycle.{is_pingpong}
use reprompi_dev.Buffers.Table.{collective_calls}
use reprompi_dev.Jobs.Order.{jobs_of_options_lem}
use reprompi_dev.Options.{to_int}
use reprompi_dev.Options.Common.{Common, CommonFlag, n_mpi_calls, parse_common_options}
use reprompi_dev.Options.Common.Checked.{
  ArePingpongRanks, not_set, two_peers, HasSmallExponents, if_else_none,
}
use reprompi_dev.Options.Common.Accepted.{
  GivesJobs, parse_common_options-IsInRange, jobs_of_options-All,
}
use reprompi_dev.Benchmark.{
  Machine, Environment, RunOutput, settings, final_info, generated_jobs, has_repetitions,
  run_collective,
}
use reprompi_dev.Benchmark.Jobs.{Divides, IsOrder, IsOrder-All, generate_job_list_lem}
use reprompi_dev.Measure.Complete.{AlwaysMeasures}
use reprompi_dev.Benchmark.Complete.{
  CanFinish, broadcast_jobs_lem, HasPeers, Reports, jobs_executed,
}

-- Every process has the jobs of the root, if they can finish.
same_jobs :
    (m : Machine) (opts : Common) (procs fuel rank : ℕ) (n_rep : ℤ) (input_file : Option Str)
    (jobs : List Job)
    → All (CanFinish opts procs fuel) jobs
    → generated_jobs m 0 opts n_rep input_file ≡ some jobs
    → generated_jobs m rank opts n_rep input_file ≡ some jobs
unfolding generated_jobs
same_jobs m opts procs fuel rank n_rep none jobs can made = made
same_jobs m opts procs fuel rank n_rep (some name) jobs can made =
    let ((error, read), found, accepted) =
      >>=-eq-some (read_input_jobs (m.file name)) _ jobs made in
    let (no_error, known) = if_else_none (error == 0) (some read) jobs accepted in
    let equal : read ≡ jobs = some-injective read jobs known in
    rw (found, no_error, equal, broadcast_jobs_lem opts procs fuel rank jobs can) refl

module _ {W T : Type 0} (m : Machine) {proc_sync : SyncModule W} (law : AlwaysMeasures proc_sync)
    (env : Environment W T) (fuel : ℕ) (junk : T) (rank procs : ℕ) (opts : Common)
    (enough : (k n : ℕ) → m.memory k n ≡ true) (random : (k : ℕ) → m.rand k ≤ m.rand_max)
    (r_ok : rank < procs) (sized : 0 < m.type_size opts.datatype) where
  -- With memory, random numbers up to RAND_MAX and a synchronisation module that makes valid
  -- measurements, a run on a process of the communicator ends, if the options without an input file
  -- ask for some repetitions and the datatype has a size, for every job list, of an input file or
  -- of the options, that is not empty on the process of rank 0 and whose jobs each name a measured
  -- operation, with two different ranks of the communicator given if it is a ping-pong, want at
  -- least one repetition, less than 2^31 and at most as many as the fuel, and have a size that is a
  -- multiple of the datatype's and for all processes together below INT_MAX. It prints the settings
  -- once and first, then the results of each job once, in the order of execution, each with exactly
  -- the repetitions that were wanted, then the final line.
  pub run_collective_completes :
      (n_rep : ℕ) (coll_params : Params) (w : W) (jobs : List Job)
      → has_repetitions opts.input_file n_rep ≡ true
      → generated_jobs m 0 opts (to_int (pos n_rep)) opts.input_file ≡ some jobs
      → 0 < length jobs
      → All (Divides (m.type_size opts.datatype)) jobs
      → All (CanFinish opts procs fuel) jobs
      → (order : List ℕ) × (body : List (RunOutput T)) × (end : W) × (run_collective m proc_sync env
            fuel junk rank procs opts n_rep coll_params w
          ≡ some (settings ∷ body ++ (final_info ∷ []), end))
        × IsOrder (length jobs) order
        × Reports jobs order body
  unfolding run_collective
  run_collective_completes n_rep coll_params w jobs reps made some_jobs whole can =
      let (numbers, order, e, counted, (l, once)) =
        generate_job_list_lem m rank opts (to_int (pos n_rep)) jobs
          (same_jobs m opts procs fuel rank (to_int (pos n_rep)) opts.input_file jobs can made)
          some_jobs sized whole random in
      let (p, body, e', printed, r) =
        jobs_executed m law env fuel junk rank procs opts enough r_ok
          (record { jobs = jobs; counts = numbers; job_indices = order })
          (m.type_size opts.datatype) sized can counted order
          (record { printed = []; coll_params = coll_params; state = w }) (omega arith) refl
          (IsOrder-All (length jobs) order (l, once)) in
      (order, body, env.cleanup_modules p.state, rw (reps, e, e', printed) refl, (l, once), r)

-- A size that is a multiple of the datatype's, and below INT_MAX for all processes together
abbrev pub Fits : ℕ → ℕ → ℕ → Type 0
Fits size procs s = (s / size * size ≡ s) × (s * procs < int_max)

to_int_small : (n : ℕ) → n < 2 ^ 31 → to_int (pos n) ≡ pos n
unfolding to_int
to_int_small n h = ground arith

-- A ping-pong operation wants that ranks are given.
abbrev pub HasRanks : Common → ℕ → Type 0
HasRanks opts c = is_pingpong c ≡ true → opts.pingpong_ranks ≢ (negsuc 0, negsuc 0)

given_ranks :
    (procs : ℕ) (opts : Common)
    → ArePingpongRanks procs opts.pingpong_ranks
    → opts.pingpong_ranks ≢ (negsuc 0, negsuc 0)
    → HasPeers opts procs
given_ranks procs opts (not_set e) given = absurd (given e)
given_ranks procs opts (two_peers src dst apart) given = (src, dst, apart)

some_jobs :
    (opts : Common) (n_rep : ℕ)
    → opts.input_file ≡ none
    → GivesJobs opts.input_file opts
    → 0 < length (jobs_of_options (pos n_rep) opts.msize_list opts.list_mpi_calls)
some_jobs opts n_rep no_file (inl (f, e)) = absurd (none-ne-some f (sym no_file ∙ e))
some_jobs opts n_rep no_file (inr (sizes, calls)) =
    let (l, each) = jobs_of_options_lem (pos n_rep) opts.msize_list opts.list_mpi_calls in
    omega
      (arith, l, mul-pos {m = length opts.msize_list} {n = length opts.list_mpi_calls} sizes calls)

module _ {W T : Type 0} (m : Machine) {proc_sync : SyncModule W} (law : AlwaysMeasures proc_sync)
    (env : Environment W T) where
  -- A run on accepted command-line options without an input file, with ranks given if a call is a
  -- ping-pong, with exponents of intervals below 31 and with at least one and less than 2^31
  -- repetitions, ends on every process of the communicator when memory suffices, random numbers are
  -- up to RAND_MAX, the datatype has a size and every message size is a multiple of it and below
  -- INT_MAX for all processes together, under a synchronisation module that makes valid
  -- measurements. For the jobs of all sizes and calls it prints the settings once and first, then
  -- the results of each job once, in the order of execution, each with exactly `n_rep`
  -- measurements, then the final line.
  pub accepted_options_complete :
      (opens : Str → Bool) (flags : List CommonFlag) (opts : Common) (junk : T)
      (rank procs n_rep : ℕ) (coll_params : Params) (w : W)
      → ((k n : ℕ) → m.memory k n ≡ true)
      → ((k : ℕ) → m.rand k ≤ m.rand_max)
      → rank < procs
      → All HasSmallExponents flags
      → parse_common_options opens procs flags ≡ some opts
      → opts.input_file ≡ none
      → All (HasRanks opts) opts.list_mpi_calls
      → 0 < m.type_size opts.datatype
      → All (Fits (m.type_size opts.datatype) procs) opts.msize_list
      → 0 < n_rep
      → n_rep < 2 ^ 31
      → (order : List ℕ) × (body : List (RunOutput T)) × (end : W) × (run_collective m proc_sync env
            n_rep junk rank procs opts n_rep coll_params w
          ≡ some (settings ∷ body ++ (final_info ∷ []), end))
        × IsOrder (length (jobs_of_options (pos n_rep) opts.msize_list opts.list_mpi_calls)) order
        × Reports (jobs_of_options (pos n_rep) opts.msize_list opts.list_mpi_calls) order body
  unfolding generated_jobs CanFinish
  accepted_options_complete opens flags opts junk rank procs n_rep coll_params w enough random r_ok
        small parsed no_file given sized fits some_reps int =
      let (root, r, jobs, output) =
        parse_common_options-IsInRange opens procs flags opts small parsed in
      run_collective_completes m law env n_rep junk rank procs opts enough random r_ok sized n_rep
        coll_params w (jobs_of_options (pos n_rep) opts.msize_list opts.list_mpi_calls)
        (rw no_file (ground arith)) (rw (no_file, to_int_small n_rep int) refl)
        (some_jobs opts n_rep no_file jobs)
        (jobs_of_options-All (pos n_rep) (Fits (m.type_size opts.datatype) procs)
          (λ i. i < n_mpi_calls) (Divides (m.type_size opts.datatype)) (λ s c fit known. fit.0)
          opts.msize_list opts.list_mpi_calls fits r.known_calls)
        (jobs_of_options-All (pos n_rep) (Fits (m.type_size opts.datatype) procs)
          (λ c. (c < n_mpi_calls) × HasRanks opts c) (CanFinish opts procs n_rep)
          (λ s c fit (known, ranks). (
            get_elem?_below collective_calls c known,
            (λ e. given_ranks procs opts r.ranks (ranks e)),
            (n_rep, refl, some_reps, omega arith, int),
            fit.1,
          ))
          opts.msize_list opts.list_mpi_calls fits
          (pair-All (λ c. c < n_mpi_calls) (HasRanks opts) opts.list_mpi_calls r.known_calls given))
