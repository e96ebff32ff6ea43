-- ===== src/Lib.antt =====
-- ReproMPI benchmark: a model of its options and jobs, of the operations that it measures, of its
-- process synchronisation, of the measurement loop and of the results that it computes, with
-- the theorems that make them correct. Paths are from the repository's root.
--
-- The program measures MPI functions. Its options are put into jobs and into a dictionary of key-value
-- pairs; before each measurement a synchronisation module brings the processes together, by a barrier
-- or by agreed start times, and the measured times are reduced and printed.
--
-- Dict models src/reprompi_bench/utils/keyvalue_store.c. A bin, a linked list in the source, is a List;
-- init_dictionary, add_element, get_value, remove_element, get_nkeys, get_keys, is_empty and has_key
-- are the functions of that name after `reprompib_` (and without `_to_dict` and the like). A call of
-- malloc is a Boolean that says whether it succeeds, a NULL argument is `none`, an error is the
-- return value 1. Dict.Table has the abstract map of a dictionary (`view`) and the invariant
-- (`IsValid`); the operations are compared with that map.
-- Barrier models src/reprompi_bench/sync/process_sync/dissem_barrier_impl.c. The ranks of every
-- MPI_Sendrecv, and Barrier.Safety.Run, the times of any run with blocking calls.
-- Collective models src/reprompi_bench/sync/process_sync/reprompi_collectives.c. The all-reduce is run by
-- all ranks in step over a network parameter; the broadcast is the plan of calls of each rank.
--
-- Measure models the loop of run_collective, src/benchmarkCollective.c, for one job, over a record of
-- the operations of a synchronisation module and one of the other calls; Measure.Kept describes what
-- a job reports by a recursion on the attempts made.
-- Benchmark puts the parts together: `generate_job_list` and, behind the option parsers, the whole of
-- run_collective with its loop over the jobs, over the buffers, the module for synchronisation and
-- the measurement loop of the others, with the job list as each process receives it and the output that
-- rank 0 prints, a list of values.
-- The interface of the synchronisation module is Measure.Complete.AlwaysMeasures, which the barrier
-- modules fill in BarrierSync.Completion.
-- Calls and Jobs model src/collective_ops/collectives.c (names and indices of the measured functions)
-- and src/benchmark_job.c with `shuffle` of src/reprompi_bench/misc.c (the list of jobs and the order in
-- which they run). What fscanf and rand return is an argument.
-- Buffers models the table of measured functions of src/collective_ops/collectives.c with the
-- initialisations, calls and cleanups of mpi_collectives.c and pingpong.c beside it, and
-- src/buf_manager/mem_allocation.c. Buffers.Fit says what MPI documents that each call reads
-- and writes. A process that ends by an assertion or by `exit` is a value `stopped`.
-- Pingpong runs the calls of two processes of a ping-pong against each other, one step at a time in
-- any order, as MPI documents them without buffering.
-- Registry models process_synchronization.c in src/reprompi_bench/sync/process_sync and the searches of
-- src/reprompi_bench/sync/common/sync_module_helpers.c: which module an option chooses.
-- BarrierSync models the modules that only use a barrier, barrier_sync.c, double_barrier_sync.c,
-- dissem_barrier_sync.c and proc_sync_none.c with barrier_sync_common.c beside them, as fillings of
-- the record that Measure takes.
-- Window and RoundTime model the modules window_sync.c and round_time_sync.c of
-- src/reprompi_bench/sync/process_sync: their static variables are a record, and the clock is a
-- sequence of readings. The polling loops run on fuel. Window.window_module fills the record that
-- Measure takes; RoundTime.stop_synchronization is run by all ranks over the all-reduce of Collective.
-- RoundTime.Bcast models the estimate of a broadcast, round_sync_common.c beside them.
--
-- Results models runtimes_computation.c and the summary of results_output.c in
-- src/reprompi_bench/output_management: the run-times that the root computes from the times of all
-- processes, the numbers it prints of them, and the rows of its verbose output. MPI_Reduce and GSL
-- are parameters.
-- Options models parse_options.c, and parse_common_options.c with its checks (Options.Common, and the
-- interval of message sizes in Options.Sizes, whose loop runs on as much fuel as it has steps),
-- parse_extra_key_value_options.c (Options.Extra) and parse_timing_options.c (Options.Timing), in
-- src/reprompi_bench/option_parser. Options.Common.Printed has get_mpi_operation_str of
-- src/reprompi_bench/output_management/bench_info_output.c. The options as getopt_long returns them,
-- and the tokens and numbers as strtok_r and strtol do, are arguments; an exit with an error is `none`.
--
-- Caching models caching.c and clear_cache_memset.c in src/reprompi_bench/caching.
--
-- Library models the benchmark as a library, src/reprompi_bench/benchmark_lib: of reproMPIbenchmark.c
-- the copy of the arguments (Library.Copy), those that an environment variable puts in their place
-- (Library.Argc, Library.Override) and the variables that a user adds to a job (Library.UserVars),
-- of results_output.c the rows of a job (Library.Row, Library.Output) and its summary
-- (Library.Summary), with MPI_Gather as a parameter too. Library.Settings has the parameters that a
-- user adds and the order of what the library prints, over Dict.
--
-- Loops without a structural bound run on fuel: 33 rounds for loops that double or halve an `int`,
-- 32 for the logarithm of a number of processes. The theorems state that the fuel is enough; for the
-- polling and measurement loops, which wait for a clock or for valid measurements, they name the
-- reading or the attempt that ends them.
--
-- Numbers are ℕ; unsigned words wrap by `% 2 ^ w`, and so does a `long` that goes into an `int`.
-- Theorems about loops and sums on `int` and `long` say up to which number of processes, number of
-- repetitions or step of an interval they hold; a sum that leaves `long`, or an exponent that
-- leaves `int`, has no result. MPI and malloc are parameters. Not modelled are the text of what is
-- printed, which is made of formats only, and, but for the buffers of the operations and the
-- variables of a job of the library, freeing; the calls of getopt_long, strtol and fscanf, which
-- are inputs; the broadcast of the job list, but for what arrives of each job; the parameter store
-- of the old synchronisation; the main program and the clocks, which are glue for MPI or the
-- hardware; the vendored log library; the C++ programs for clock synchronisation and for
-- performance guidelines; the separate programs for tests and sanity checks; and the Python tools.
pub mod Barrier
pub mod BarrierSync
pub mod Benchmark
pub mod Buffers
pub mod Caching
pub mod Calls
pub mod Collective
pub mod Dict
pub mod Jobs
pub mod Library
pub mod Measure
pub mod Options
pub mod Pingpong
pub mod Prelude
pub mod Registry
pub mod Results
pub mod RoundTime
pub mod Window
