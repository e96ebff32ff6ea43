-- ===== src/Window.antt =====
-- Window-based process synchronisation, src/reprompi_bench/sync/process_sync/window_sync.c, as one
-- process runs it. Times are doubles: any type with the operations that are used.
pub mod Polling
pub mod Job
pub mod Completion
mod Examples
use Prim.Native.Nat.{bit_or}
use reprompi_dev.Prelude.{
  ℕ, zero, suc, ◌+◌, Bool, true, false, Option, none, some, List, [], ◌∷◌, get_elem?, set,
  replicate, if◌then◌else◌, ◌>>=◌, ◌==◌,
}
use reprompi_dev.Prelude.Double.{Doubles}
use reprompi_dev.Measure.{SyncModule, SyncParams, Calls, correct_measurement}

abbrev pub flag_start_time_has_passed : ℕ
flag_start_time_has_passed = 1

abbrev pub flag_sync_win_expired : ℕ
flag_sync_win_expired = 2

-- What surrounds the process: the values that `REPROMPI_get_time` returns one after the other,
-- `get_global_time` of the clock synchronisation, the rank, and what `PMPI_Bcast` leaves in a buffer.
pub record Surroundings (T : Type 0) : Type 0 where
  pub time : ℕ → T
  pub get_global_time : T → T
  pub rank : ℕ
  pub bcast : T → T

-- The static variables, and how often the clock was read. `parameters.n_rep` is only the length of
-- `invalid`. The counter and the index of the loop that fills `invalid` are of type `int`: a job of
-- 2 ^ 31 repetitions or more is not described.
pub record Window (T : Type 0) : Type 0 where
  pub start_sync : T
  pub repetition_counter : ℕ
  pub invalid : List ℕ
  pub window_size_sec : T
  pub wait_time_sec : T
  pub reads : ℕ

module _ {T : Type 0} (double : Doubles T) (env : Surroundings T) where
  abbrev pub global_time : ℕ → T
  global_time n = env.get_global_time (env.time n)

  -- `invalid[repetition_counter] |= flag`
  unfoldable pub raise_flag : ℕ → Window T → Option (Window T)
  raise_flag flag w = do
    old ← get_elem? w.invalid w.repetition_counter
    some (record w { invalid = set w.invalid w.repetition_counter (bit_or old flag) })

  -- `window_init_synchronization`; `calloc` and the loop put 0 everywhere.
  unfoldable pub window_init_synchronization : SyncParams → Window T → Option (Window T)
  window_init_synchronization params w =
      some (record w { invalid = replicate params.nrep 0; repetition_counter = 0 })

  -- `window_init_sync_round`
  unfoldable pub window_init_sync_round : Window T → Option (Window T)
  window_init_sync_round w =
      if env.rank == 0
      then some (record w {
        start_sync = env.bcast (double.plus (global_time w.reads) w.wait_time_sec);
        reads = w.reads + 1;
      })
      else some (record w { start_sync = env.bcast w.start_sync })

  -- the polling loop, on fuel
  unfoldable pub poll : ℕ → Bool → Window T → Option (Window T)
  poll zero is_first w = none
  poll (suc fuel) is_first w =
      let read = record w { reads = w.reads + 1 } in
      elim (double.le w.start_sync (global_time w.reads)) [
        | true ↦ if is_first then raise_flag flag_start_time_has_passed read else some read
        | false ↦ poll fuel false read
      ]

  -- `window_start_synchronization`
  unfoldable pub window_start_synchronization : ℕ → Window T → Option (Window T)
  window_start_synchronization fuel w = poll fuel true w

  -- `window_stop_synchronization`
  unfoldable pub window_stop_synchronization : Window T → Option (ℕ × Window T)
  window_stop_synchronization w = do
    let end = double.plus w.start_sync w.window_size_sec
    let read = record w { reads = w.reads + 1 }
    w ←
        if double.lt end (global_time w.reads)
        then raise_flag flag_sync_win_expired read
        else some read
    some (
      correct_measurement,
      record w { start_sync = end; repetition_counter = w.repetition_counter + 1 },
    )

  -- `register_window_module`
  unfoldable pub window_module : ℕ → SyncModule (Window T)
  window_module fuel = record {
    init_sync = window_init_synchronization;
    init_sync_round = window_init_sync_round;
    start_sync = window_start_synchronization fuel;
    stop_sync = window_stop_synchronization;
  }

  -- The clock readings of the measurement loop. The measured collective and the cache module do not
  -- touch the variables of the synchronisation.
  abbrev pub window_calls : Calls (Window T) T
  window_calls = record {
    get_time = λ w. (env.time w.reads, record w { reads = w.reads + 1 });
    collective_call = λ w. w;
    clear_cache = λ w. w;
  }
