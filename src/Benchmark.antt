-- ===== src/Benchmark.antt =====
-- A whole run of the benchmark: `run_collective` of src/benchmarkCollective.c behind its option
-- parsers, with `generate_job_list` of src/benchmark_job.c, over the components that it puts
-- together. It is the run of one process, with the job list as that process makes or receives it,
-- and with the output that rank 0 prints; `none` is an exit with an error, or a write outside of an
-- array. The synchronisation module, the clock library, the cache module and the calls of MPI are
-- parameters.
mod Jobs
mod Complete
pub mod Run
mod Examples
use mathlib.Core.List.{map}
use reprompi_dev.Prelude.{
  ℕ, ◌+◌, ◌-◌, ◌%◌, ◌^◌, Bool, true, false, Option, none, some, ◌>>=◌, List, [], ◌∷◌, ◌++◌, length,
  get_elem?, ltb, ◌==◌, if◌then◌else◌,
}
use reprompi_dev.Prelude.Int.{ℤ, pos, negsuc}
use reprompi_dev.Prelude.Text.{Str}
use reprompi_dev.Buffers.{
  Datatype, Op, Params, Info, Outcome, stopped, goes, CommonOptions, init_collective_basic_info,
}
use reprompi_dev.Buffers.Calls.{MpiCall}
use reprompi_dev.Buffers.Table.{CollectiveOps, collective_calls}
use reprompi_dev.Jobs.{Job, Scan, read_input_jobs, jobs_of_options, counts, job_indices}
use reprompi_dev.Measure.{SyncModule, SyncParams, Calls, Samples, run_job}
use reprompi_dev.Options.{to_int}
use reprompi_dev.Options.Common.{Basic, Operation, Common}

-- `job_list_t`; the member `count` of the jobs is a list of its own.
pub record JobList : Type 0 where
  pub jobs : List Job
  pub counts : List ℕ
  pub job_indices : List ℕ

-- What a process finds in its surroundings: the files, the size of a datatype, RAND_MAX and what
-- `rand` returns, the handles of MPI, MPI_Type_get_extent, and whether memory suffices.
pub record Machine : Type 0 where
  pub file : Str → Option (List Scan)
  pub type_size : Basic → ℕ
  pub rand_max : ℕ
  pub rand : ℕ → ℕ
  pub datatype : Basic → Datatype
  pub operation : Operation → Op
  pub extent : Datatype → ℕ
  pub memory : ℕ → ℕ → Bool

-- the lower 32 bits of a `long`
abbrev pub low_word : ℤ → ℕ
low_word (pos n) = n % 2 ^ 32
low_word (negsuc n) = 2 ^ 32 - 1 - n % 2 ^ 32

-- What another process receives of a job. The datatype of the broadcast describes 28 bytes from the
-- start of a `job_t` of 32: those up to the lower half of `n_rep`, on a machine that stores the lower
-- bytes first. The upper half stays 0, as `calloc` left it.
unfoldable pub received_job : Job → Job
received_job j = record j { n_rep = pos (low_word j.n_rep) }

abbrev pub broadcast_jobs : ℕ → List Job → List Job
broadcast_jobs rank jobs = if rank == 0 then jobs else map received_job jobs

-- the first part of `generate_job_list` on the process of a rank; an error of the input file is
-- an exit.
unfoldable pub generated_jobs : Machine → ℕ → Common → ℤ → Option Str → Option (List Job)
generated_jobs m rank opts n_rep (some name) = do
  (error, jobs) ← read_input_jobs (m.file name)
  if error == 0 then some (broadcast_jobs rank jobs) else none
generated_jobs m rank opts n_rep none =
    some (jobs_of_options n_rep opts.msize_list opts.list_mpi_calls)

-- `generate_job_list`
unfoldable pub generate_job_list : Machine → ℕ → Common → ℤ → Option JobList
generate_job_list m rank opts predefined_n_rep = do
  jobs ← generated_jobs m rank opts predefined_n_rep opts.input_file
  n_jobs ← if ltb 0 (length jobs) then some (length jobs) else none
  let size = m.type_size opts.datatype
  numbers ← if ltb 0 size then counts size jobs else none
  indices ← job_indices opts.enable_job_shuffling m.rand_max m.rand n_jobs
  some (record { jobs = jobs; counts = numbers; job_indices = indices })

-- the members of the options that the initialisation of the buffers reads
abbrev pub basic_options : Machine → Common → CommonOptions
basic_options m opts = record {
  datatype = m.datatype opts.datatype;
  operation = m.operation opts.operation;
  root_proc = opts.root_proc;
  pingpong_src = opts.pingpong_ranks.0;
  pingpong_dst = opts.pingpong_ranks.1;
}

-- The calls of other components that change the state `W` of the process and its surroundings.
pub record Environment (W T : Type 0) : Type 0 where
  pub get_time : W → T × W
  pub mpi : List MpiCall → W → W
  pub clear_cache : W → W
  pub clocksync_init : W → W
  pub clocksync_sync : W → W
  pub clocksync_finalize : W → W
  pub finalize_sync : W → W
  pub cleanup_modules : W → W

-- What a run prints: the settings with the header, the results of a job, the final line.
pub data RunOutput (T : Type 0) : Type 0 where
  settings : RunOutput T
  results : Job → Samples T → RunOutput T
  final_info : RunOutput T

-- What the loop over the jobs keeps: the output, `coll_params`, and the state.
pub record Progress (W T : Type 0) : Type 0 where
  pub printed : List (RunOutput T)
  pub coll_params : Params
  pub state : W

-- a step that does not end the process
abbrev pub gone : {A : Type 0} → Outcome A → Option A
gone (stopped s) = none
gone (goes a) = some a

-- `malloc(job.n_rep * sizeof(double))`: of a negative number, there is no memory; from 2 ^ 61 on the
-- product wraps around in `size_t`, and the array is too small for the measurements.
unfoldable pub array_size : ℤ → Option ℕ
array_size (pos n) = if ltb n (2 ^ 61) then some n else none
array_size (negsuc n) = none

-- `n_rep` of the options is not checked if there is an input file.
abbrev pub has_repetitions : Option Str → ℕ → Bool
has_repetitions (some name) n_rep = true
has_repetitions none n_rep = ltb 0 n_rep

module _ {W T : Type 0} (m : Machine) (proc_sync : SyncModule W) (env : Environment W T) where
  -- The clocks are initialised and synchronised between `init_sync` and `init_sync_round`.
  abbrev pub with_clocksync : SyncModule W
  with_clocksync = record proc_sync {
    init_sync_round = λ w. proc_sync.init_sync_round (env.clocksync_sync (env.clocksync_init w));
  }

  -- The collective call makes the same calls of MPI every time: `coll_params` does not change.
  abbrev pub job_calls : List MpiCall → Calls W T
  job_calls calls = record {
    get_time = env.get_time;
    collective_call = env.mpi calls;
    clear_cache = env.clear_cache;
  }

  -- The body of the loop over the jobs; `junk` is what `malloc` leaves, `fuel` is that of the
  -- measurement loop. The settings are printed before the first job (`jindex` is 0).
  unfoldable pub execute_job : ℕ → T → ℕ → Info → ℕ → Job → ℕ → Progress W T → Option (Progress W T)
  execute_job fuel junk rank info jindex job count p = do
    n_rep ← array_size job.n_rep
    ops ← get_elem? collective_calls job.call_index
    params ← gone (ops.initialize_data m.extent m.memory rank info count p.coll_params)
    calls ← gone (ops.collective_call params)
    let sync_params : SyncParams = record { nrep = n_rep; count = count }
    (samples, w) ← run_job with_clocksync (job_calls calls) fuel junk sync_params p.state
    let before = if jindex == 0 then p.printed ++ (settings ∷ []) else p.printed
    some (record {
      printed = before ++ (results job samples ∷ []);
      coll_params = ops.cleanup_data params;
      state = env.finalize_sync (env.clocksync_finalize w);
    })

  -- the loop over the jobs from index `jindex` on
  unfoldable pub execute_jobs :
      ℕ → T → ℕ → Info → JobList → ℕ → List ℕ → Progress W T → Option (Progress W T)
  execute_jobs fuel junk rank info jlist jindex [] p = some p
  execute_jobs fuel junk rank info jlist jindex (i ∷ indices) p = do
    job ← get_elem? jlist.jobs i
    count ← get_elem? jlist.counts i
    p' ← execute_job fuel junk rank info jindex job count p
    execute_jobs fuel junk rank info jlist (jindex + 1) indices p'

  -- `run_collective` after its option parsers; `generate_job_list` takes the number of repetitions as
  -- an `int`.
  unfoldable pub run_collective :
      ℕ → T → ℕ → ℕ → Common → ℕ → Params → W → Option (List (RunOutput T) × W)
  run_collective fuel junk rank procs opts n_rep coll_params w = do
    n_rep' ← if has_repetitions opts.input_file n_rep then some n_rep else none
    jlist ← generate_job_list m rank opts (to_int (pos n_rep'))
    let info = init_collective_basic_info (basic_options m opts) procs
    let start : Progress W T = record { printed = []; coll_params = coll_params; state = w }
    end ← execute_jobs fuel junk rank info jlist 0 jlist.job_indices start
    some (end.printed ++ (final_info ∷ []), env.cleanup_modules end.state)
