-- ===== src/Measure.antt =====
-- The measurement loop of `run_collective`, src/benchmarkCollective.c, over any process
-- synchronisation module (`reprompib_proc_sync_module_t` of
-- src/reprompi_bench/sync/process_sync/process_synchronization.h).
pub mod Loop
pub mod Complete
pub mod Kept
pub mod Judge
pub mod Valid
mod Examples
use reprompi_dev.Prelude.{
  ℕ, zero, suc, ◌+◌, ◌-◌, Bool, true, false, Option, none, some, List, [], ◌∷◌, ltb, ◌==◌,
  if◌then◌else◌, ◌>>=◌, set, length, replicate,
}

-- What `stop_sync` returns: the `enum` of process_synchronization.h.
abbrev pub correct_measurement : ℕ
correct_measurement = 0

abbrev pub invalid_measurement : ℕ
invalid_measurement = 1

abbrev pub out_of_time_valid : ℕ
out_of_time_valid = 2

abbrev pub out_of_time_invalid : ℕ
out_of_time_invalid = 3

-- `reprompib_sync_params_t`
pub record SyncParams : Type 0 where
  pub nrep : ℕ
  pub count : ℕ

-- The operations of a module that a benchmark job calls, on the state `W` of the process and its
-- surroundings. `none` is a run that does not come back or leaves an array.
pub record SyncModule (W : Type 0) : Type 0 where
  pub init_sync : SyncParams → W → Option W
  pub init_sync_round : W → Option W
  pub start_sync : W → Option W
  pub stop_sync : W → Option (ℕ × W)

-- What the loop calls beside the module: the clock, the measured collective and the cache module.
pub record Calls (W T : Type 0) : Type 0 where
  pub get_time : W → T × W
  pub collective_call : W → W
  pub clear_cache : W → W

-- `job.n_rep`, the two arrays of `malloc`ed times and the index `i`.
pub record Samples (T : Type 0) : Type 0 where
  pub n_rep : ℕ
  pub i : ℕ
  pub tstart_sec : List T
  pub tend_sec : List T

-- `a[i] = x`
unfoldable pub store : {T : Type 0} → List T → ℕ → T → Option (List T)
store a i x = if ltb i (length a) then some (set a i x) else none

-- How an iteration goes on: the loop ends, or it runs again.
pub data Next (T : Type 0) : Type 0 where
  stop : Samples T → Next T
  again : Samples T → Next T

-- The tests on `is_invalid` and on `i == job.n_rep`. A `long` `i - 1` is below 0 for `i` = 0, where
-- MY_MAX gives 0, as the subtraction of ℕ does.
unfoldable pub judge : {T : Type 0} → ℕ → Samples T → Next T
judge is_invalid s =
    if is_invalid == invalid_measurement
    then (if s.i == s.n_rep then stop s else again s)
    else if is_invalid == out_of_time_valid
    then stop (record s { n_rep = s.i + 1 })
    else if is_invalid == out_of_time_invalid
    then stop (record s { n_rep = s.i - 1 })
    else if s.i + 1 == s.n_rep
    then stop (record s { i = s.i + 1 })
    else again (record s { i = s.i + 1 })

-- One pass through the loop body: the two times and what `stop_sync` returned.
pub record Attempt (T : Type 0) : Type 0 where
  pub tstart : T
  pub tend : T
  pub code : ℕ

module _ {W T : Type 0} (sync : SyncModule W) (calls : Calls W T) where
  unfoldable pub attempt : W → Option (Attempt T × W)
  attempt w = do
    w ← sync.start_sync w
    let (tstart, w) = calls.get_time w
    let (tend, w) = calls.get_time (calls.collective_call w)
    (code, w) ← sync.stop_sync w
    some (record { tstart = tstart; tend = tend; code = code }, w)

  -- The writes to the arrays stand before the call of `stop_sync` in the source, which does not
  -- read them.
  unfoldable pub iterate : W → Samples T → Option (Next T × W)
  iterate w s = do
    (a, w) ← attempt w
    starts ← store s.tstart_sec s.i a.tstart
    ends ← store s.tend_sec s.i a.tend
    some (judge a.code (record s { tstart_sec = starts; tend_sec = ends }), w)

  -- `while (1)`; `none` also means that the fuel ran out.
  unfoldable pub measure : ℕ → W → Samples T → Option (Samples T × W)
  measure zero w s = none
  measure (suc fuel) w s = elim (iterate w s) [
    | none ↦ none
    | some (next, w) ↦ elim next [
      | stop s ↦ some (s, w)
      | again s ↦ measure fuel (calls.clear_cache w) s
    ]
  ]

  -- `malloc` leaves `junk` in the arrays.
  unfoldable pub run_job : ℕ → T → SyncParams → W → Option (Samples T × W)
  run_job fuel junk params w = do
    w ← sync.init_sync params w
    w ← sync.init_sync_round w
    measure fuel w (record {
      n_rep = params.nrep;
      i = 0;
      tstart_sec = replicate params.nrep junk;
      tend_sec = replicate params.nrep junk;
    })
