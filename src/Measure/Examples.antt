-- ===== src/Measure/Examples.antt =====
-- Runs of the measurement loop on scripted return codes.
use reprompi_dev.Prelude.{ℕ, ◌+◌, ◌≡◌, refl, Option, none, some, List, [], ◌∷◌, arith, ◌≤◌, length}
use reprompi_dev.Measure.{SyncModule, SyncParams, Calls, Attempt, Samples, run_job}
use reprompi_dev.Measure.Kept.{reported, report}
use reprompi_dev.Measure.Loop.{attempts, run_job-report}
use reprompi_dev.Measure.Valid.{run_job_valid, valid_pairs, IsPrefix}

-- the time and the codes that `stop_sync` is going to return
abbrev Script : Type 0
Script = ℕ × List ℕ

abbrev next_code : Script → Option (ℕ × Script)
next_code (t, []) = none
next_code (t, c ∷ codes) = some (c, (t + 10, codes))

abbrev scripted : SyncModule Script
scripted = record {
  init_sync = λ p w. some w;
  init_sync_round = λ w. some w;
  start_sync = λ w. some (w.0 + 100, w.1);
  stop_sync = next_code;
}

abbrev script_calls : Calls Script ℕ
script_calls = record {
  get_time = λ w. (w.0, w);
  collective_call = λ w. (w.0 + 1, w.1);
  clear_cache = λ w. w;
}

abbrev three : SyncParams
three = record { nrep = 3; count = 8 }

abbrev at : ℕ → ℕ → Attempt ℕ
at t c = record { tstart = t; tend = t + 1; code = c }

-- a correct, an invalid, a correct and an out-of-time but valid attempt
run_job-report_example :
    (s : Samples ℕ) × (end : Script) × (run_job scripted script_calls 9 7 three
        (0, 0 ∷ 1 ∷ 0 ∷ 2 ∷ [])
      ≡ some (s, end))
    × (reported s ≡ (100, 101) ∷ (322, 323) ∷ (433, 434) ∷ [])
unfolding attempts reprompi_dev.Measure.attempt report
run_job-report_example =
    run_job-report scripted script_calls 4 9 7 three (0, 0 ∷ 1 ∷ 0 ∷ 2 ∷ []) _ _
      (at 100 0 ∷ at 211 1 ∷ at 322 0 ∷ at 433 2 ∷ []) _ (omega arith) (omega arith) refl refl refl
      refl

run_job_valid_example :
    (s : Samples ℕ) × (end : Script) × (run_job scripted script_calls 9 7 three
        (0, 0 ∷ 1 ∷ 0 ∷ 3 ∷ [])
      ≡ some (s, end))
    × IsPrefix (reported s) ((100, 101) ∷ (322, 323) ∷ [])
    × (length (reported s) ≤ 3)
unfolding valid_pairs attempts reprompi_dev.Measure.attempt report
run_job_valid_example =
    run_job_valid scripted script_calls 4 9 7 three (0, 0 ∷ 1 ∷ 0 ∷ 3 ∷ []) _ _
      (at 100 0 ∷ at 211 1 ∷ at 322 0 ∷ at 433 3 ∷ []) _ (omega arith) (omega arith) refl refl refl
      refl

-- Out of time at an invalid attempt, the loop reports one of the two valid measurements.
one_lost : report 3 [] (at 100 0 ∷ at 211 1 ∷ at 322 0 ∷ at 433 3 ∷ []) ≡ some ((100, 101) ∷ [])
unfolding report reprompi_dev.Measure.Kept.drop_last
one_lost = refl
