-- ===== src/Benchmark/Examples.antt =====
-- Runs of the whole benchmark at concrete options and files.
use Prim.{Unit, tt}
use mathlib.Core.Path.{subst}
use reprompi_dev.Prelude.{
  ℕ, ◌+◌, ◌≡◌, ◌≢◌, refl, Bool, true, Option, none, some, List, [], ◌∷◌, ◌++◌, All, arith,
}
use reprompi_dev.Prelude.Int.{ℤ, pos, negsuc}
use reprompi_dev.Prelude.Text.{Str, ascii}
use reprompi_dev.Buffers.{Params}
use reprompi_dev.Buffers.Fit.{IsPeer}
use reprompi_dev.Jobs.{Job, Scan, malformed, line, jobs_of_options}
use reprompi_dev.BarrierSync.{mpibarrier_sync}
use reprompi_dev.BarrierSync.Completion.{modules-AlwaysMeasures}
use reprompi_dev.Measure.Complete.{AlwaysMeasures}
use reprompi_dev.Options.Common.{Common}
use reprompi_dev.Options.Common.Sample.{
  flags, accepted, opens_all, flags_read, flags-HasSmallExponents,
}
use reprompi_dev.Benchmark.{
  Machine, Environment, RunOutput, settings, final_info, generated_jobs, run_collective,
}
use reprompi_dev.Benchmark.Jobs.{IsOrder}
use reprompi_dev.Benchmark.Complete.{CanFinish, Reports}
use reprompi_dev.Benchmark.Run.{run_collective_completes, accepted_options_complete}

abbrev job_file : Str → Option (List Scan)
job_file name =
    some (line (ascii "MPI_Bcast") 8 (pos 5) ∷ line (ascii "MPI_Scan") 16 (pos 2) ∷ malformed ∷ [])

abbrev machine : Machine
machine = record {
  file = job_file;
  type_size = λ t. 4;
  rand_max = 32767;
  rand = λ k. 20000;
  datatype = λ t. 1;
  operation = λ o. 2;
  extent = λ t. 4;
  memory = λ k n. true;
}

-- a clock that goes on by itself
abbrev ticking : Environment ℕ ℕ
ticking = record {
  get_time = λ w. (w, w + 1);
  mpi = λ calls w. w + 5;
  clear_cache = λ w. w;
  clocksync_init = λ w. w;
  clocksync_sync = λ w. w + 1000;
  clocksync_finalize = λ w. w;
  finalize_sync = λ w. w;
  cleanup_modules = λ w. w;
}

abbrev slow : ℕ → Option ℕ
slow w = some (w + 100)

slow-AlwaysMeasures : AlwaysMeasures (mpibarrier_sync slow)
slow-AlwaysMeasures = (modules-AlwaysMeasures slow (λ w. (w + 100, refl))).0

abbrev blank : Params
blank = record {
  count = 0;
  sbuf = none;
  rbuf = none;
  tmp_buf = none;
  nprocs = 0;
  root = 0;
  datatype = 0;
  datatype_extent = 0;
  op = 0;
  rank = 0;
  scount = 0;
  rcount = 0;
  counts_array = none;
  displ_array = none;
  pingpong_src = pos 0;
  pingpong_dst = pos 0;
}

abbrev IsGiven : ℤ × ℤ → Type 0
IsGiven ranks = elim ranks.0 [ pos i ↦ Unit {0} | negsuc n ↦ ⊥ ]

ranks_given : accepted.pingpong_ranks ≢ (negsuc 0, negsuc 0)
ranks_given e = subst IsGiven e tt

accepted_options_complete_example :
    (order : List ℕ) × (body : List (RunOutput ℕ)) × (end : ℕ) × (run_collective machine
        (mpibarrier_sync slow)
        ticking
        5
        0
        2
        4
        accepted
        5
        blank
        7
      ≡ some (settings ∷ body ++ (final_info ∷ []), end))
    × IsOrder 4 order
    × Reports (jobs_of_options (pos 5) (8 ∷ 16 ∷ []) (4 ∷ 10 ∷ [])) order body
unfolding jobs_of_options reprompi_dev.Jobs.jobs_of_size
accepted_options_complete_example =
    accepted_options_complete machine slow-AlwaysMeasures ticking opens_all flags accepted 0 2 4 5
      blank 7 (λ k n. refl) (λ k. omega arith) (omega arith) flags-HasSmallExponents flags_read refl
      ((λ e. ranks_given), ((λ e. ranks_given), tt)) (omega arith)
      ((refl, omega arith), ((refl, omega arith), tt)) (omega arith) (omega arith)

-- with --input-file=jobs and --shuffle-jobs, and without --nrep
abbrev from_file : Common
from_file = record accepted { input_file = some (ascii "jobs"); enable_job_shuffling = true }

abbrev listed : List Job
listed =
    record { call_index = 4; msize = 8; n_rep = pos 5 }
    ∷ record { call_index = 10; msize = 16; n_rep = pos 2 }
    ∷ []

file_read : generated_jobs machine 0 from_file (pos 0) (some (ascii "jobs")) ≡ some listed
unfolding generated_jobs reprompi_dev.Jobs.read_input_jobs reprompi_dev.Jobs.read_jobs
    reprompi_dev.Calls.get_call_index reprompi_dev.Calls.search_name reprompi_dev.Prelude.Text.same
    reprompi_dev.Jobs.append_job
file_read = refl

run_collective_completes_example :
    (order : List ℕ) × (body : List (RunOutput ℕ)) × (end : ℕ) × (run_collective machine
        (mpibarrier_sync slow)
        ticking
        9
        0
        2
        4
        from_file
        0
        blank
        7
      ≡ some (settings ∷ body ++ (final_info ∷ []), end))
    × IsOrder 2 order
    × Reports listed order body
unfolding CanFinish IsPeer reprompi_dev.Options.to_int
run_collective_completes_example =
    run_collective_completes machine slow-AlwaysMeasures ticking 9 0 2 4 from_file (λ k n. refl)
      (λ k. omega arith) (omega arith) (omega arith) 0 blank 7 listed refl file_read (omega arith)
      (refl, (refl, tt))
      (
        (
          (_, refl),
          (λ e. (omega arith, omega arith, refl)),
          (5, refl, omega arith, omega arith, omega arith),
          omega arith,
        ),
        (
          (
            (_, refl),
            (λ e. (omega arith, omega arith, refl)),
            (2, refl, omega arith, omega arith, omega arith),
            omega arith,
          ),
          tt,
        ),
      )
