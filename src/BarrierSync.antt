-- ===== src/BarrierSync.antt =====
-- The synchronisation modules that only use barriers, or nothing at all:
-- barrier_sync_common.c, barrier_sync.c, double_barrier_sync.c, dissem_barrier_sync.c and
-- proc_sync_none.c of src/reprompi_bench/sync/process_sync. What a barrier does to the
-- process and its surroundings is a parameter; the functions that do nothing keep the state.
pub mod Completion
mod Examples
use reprompi_dev.Prelude.{ℕ, Option, none, some, ◌>>=◌}
use reprompi_dev.Measure.{SyncModule, SyncParams, correct_measurement}

module _ {W : Type 0} where
  -- `barrier_init_synchronization`, and `empty` for a round
  unfoldable pub barrier_init_synchronization : SyncParams → W → Option W
  barrier_init_synchronization params w = some w

  unfoldable pub empty : W → Option W
  empty w = some w

  -- `stop_sync`
  unfoldable pub stop_sync : W → Option (ℕ × W)
  stop_sync w = some (correct_measurement, w)

  -- `reprompi_register_common_barrier_functions`, with the start function that a module adds
  unfoldable pub register_common_barrier_functions : (W → Option W) → SyncModule W
  register_common_barrier_functions start = record {
    init_sync = barrier_init_synchronization;
    init_sync_round = empty;
    start_sync = start;
    stop_sync = stop_sync;
  }

  -- the start functions of the modules; a barrier that does not come back is `none`
  unfoldable pub mpibarrier_start_synchronization : (W → Option W) → W → Option W
  mpibarrier_start_synchronization barrier w = barrier w

  unfoldable pub double_mpibarrier_start_synchronization : (W → Option W) → W → Option W
  double_mpibarrier_start_synchronization barrier w = do w' ← barrier w; barrier w'

  unfoldable pub nosync : W → Option W
  nosync w = some w

  -- the modules
  unfoldable pub mpibarrier_sync : (W → Option W) → SyncModule W
  mpibarrier_sync mpi_barrier =
      register_common_barrier_functions (mpibarrier_start_synchronization mpi_barrier)

  unfoldable pub double_mpibarrier_sync : (W → Option W) → SyncModule W
  double_mpibarrier_sync mpi_barrier =
      register_common_barrier_functions (double_mpibarrier_start_synchronization mpi_barrier)

  unfoldable pub dissem_barrier_sync : (W → Option W) → SyncModule W
  dissem_barrier_sync dissemination_barrier =
      register_common_barrier_functions dissemination_barrier

  unfoldable pub procsync_none_sync : SyncModule W
  procsync_none_sync = register_common_barrier_functions nosync
