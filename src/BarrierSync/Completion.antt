-- ===== src/BarrierSync/Completion.antt =====
-- A job under one of the barrier modules of src/reprompi_bench/sync/process_sync comes to its end.
use reprompi_dev.Prelude.{◌<◌, ◌≡◌, refl, Option, some, arith}
use reprompi_dev.Measure.{SyncParams, Calls}
use reprompi_dev.Measure.Complete.{AlwaysMeasures, Completes, run_job_completes}
use reprompi_dev.BarrierSync.{
  barrier_init_synchronization, empty, stop_sync, register_common_barrier_functions,
  mpibarrier_start_synchronization, double_mpibarrier_start_synchronization, nosync,
  mpibarrier_sync, double_mpibarrier_sync, dissem_barrier_sync, procsync_none_sync,
}

module _ {W : Type 0} where
  common-AlwaysMeasures :
      (start : W → Option W)
      → ((w : W) → (w' : W) × (start w ≡ some w'))
      → AlwaysMeasures (register_common_barrier_functions start)
  unfolding register_common_barrier_functions barrier_init_synchronization empty stop_sync
  common-AlwaysMeasures start returns = record {
    inits = λ params w. (w, refl);
    rounds = λ w. (w, refl);
    starts = returns;
    stops = λ w. (w, refl);
  }

  -- The four modules, with a barrier that always comes back
  pub modules-AlwaysMeasures :
      (barrier : W → Option W)
      → ((w : W) → (w' : W) × (barrier w ≡ some w'))
      → AlwaysMeasures (mpibarrier_sync barrier)
        × AlwaysMeasures (double_mpibarrier_sync barrier)
        × AlwaysMeasures (dissem_barrier_sync barrier)
        × AlwaysMeasures {W = W} procsync_none_sync
  unfolding mpibarrier_sync double_mpibarrier_sync dissem_barrier_sync procsync_none_sync
      mpibarrier_start_synchronization double_mpibarrier_start_synchronization nosync
  modules-AlwaysMeasures barrier returns = (
    common-AlwaysMeasures (mpibarrier_start_synchronization barrier) returns,
    common-AlwaysMeasures (double_mpibarrier_start_synchronization barrier) twice,
    common-AlwaysMeasures barrier returns,
    common-AlwaysMeasures nosync (λ v. (v, refl)),
  )
    where
      twice : (v : W) → (v' : W) × (double_mpibarrier_start_synchronization barrier v ≡ some v')
      twice v = let (v', e) = returns v in let (v'', e') = returns v' in rw (e, e') (v'', refl)

module _ {W T : Type 0} (calls : Calls W T) where
  -- A job of at least one repetition ends inside its arrays, with as many measurements as were
  -- wanted and none repeated, under each of the four modules, when the barrier that it uses
  -- always comes back.
  pub barrier_job :
      (barrier : W → Option W)
      → ((w : W) → (w' : W) × (barrier w ≡ some w'))
      → (junk : T) (params : SyncParams) (w : W) → 0 < params.nrep
      → Completes (mpibarrier_sync barrier) calls junk params w
        × Completes (double_mpibarrier_sync barrier) calls junk params w
        × Completes (dissem_barrier_sync barrier) calls junk params w
        × Completes procsync_none_sync calls junk params w
  barrier_job barrier returns junk params w some_reps =
      let (single, double, dissem, nothing) = modules-AlwaysMeasures barrier returns in
      (
        run_job_completes single calls params.nrep junk params w some_reps (omega arith),
        run_job_completes double calls params.nrep junk params w some_reps (omega arith),
        run_job_completes dissem calls params.nrep junk params w some_reps (omega arith),
        run_job_completes nothing calls params.nrep junk params w some_reps (omega arith),
      )
