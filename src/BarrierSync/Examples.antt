-- ===== src/BarrierSync/Examples.antt =====
-- Jobs under a barrier that takes 100 units of time.
use reprompi_dev.Prelude.{ℕ, ◌+◌, refl, Option, some, arith}
use reprompi_dev.Measure.{SyncParams, Calls}
use reprompi_dev.Measure.Complete.{Completes}
use reprompi_dev.BarrierSync.{
  mpibarrier_sync, double_mpibarrier_sync, dissem_barrier_sync, procsync_none_sync,
}
use reprompi_dev.BarrierSync.Completion.{barrier_job}

abbrev clock_calls : Calls ℕ ℕ
clock_calls = record {
  get_time = λ w. (w, w + 1);
  collective_call = λ w. w + 5;
  clear_cache = λ w. w;
}

abbrev slow : ℕ → Option ℕ
slow w = some (w + 100)

abbrev two : SyncParams
two = record { nrep = 2; count = 8 }

barrier_job_example :
    Completes (mpibarrier_sync slow) clock_calls 0 two 7
    × Completes (double_mpibarrier_sync slow) clock_calls 0 two 7
    × Completes (dissem_barrier_sync slow) clock_calls 0 two 7
    × Completes procsync_none_sync clock_calls 0 two 7
barrier_job_example = barrier_job clock_calls slow (λ w. (w + 100, refl)) 0 two 7 (omega arith)
