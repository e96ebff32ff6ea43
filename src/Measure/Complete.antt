-- ===== src/Measure/Complete.antt =====
-- Jobs of src/benchmarkCollective.c under a synchronisation module whose measurements are all valid.
use Prim.{tt}
use native.Mathlib.Decide.{dec_lt}
use reprompi_dev.Prelude.{
  ℕ, zero, suc, ◌+◌, ◌≡◌, ◌<◌, ◌≤◌, refl, ap, ◌∙◌, none, some, Option-cases, inl, inr, List, [],
  ◌∷◌, length, length-append, arith,
}
use reprompi_dev.Measure.{
  SyncParams, SyncModule, Calls, Attempt, Samples, attempt, store, iterate, measure, run_job,
  correct_measurement,
}
use reprompi_dev.Measure.Kept.{report, reported, report_full, report_more, all}
use reprompi_dev.Measure.Loop.{attempts, run_job-report}

module _ {T : Type 0} where
  -- every attempt is valid and in time
  abbrev pub AllCorrect : List (Attempt T) → Type 0
  AllCorrect [] = Unit
  AllCorrect (a ∷ rest) = (a.code ≡ correct_measurement) × AllCorrect rest

  pub report_all :
      (wanted : ℕ) (done : List (T × T)) (made : List (Attempt T))
      → AllCorrect made
      → length done + length made ≡ wanted
      → length done < wanted
      → (r : List (T × T)) × (report wanted done made ≡ some r) × (length r ≡ wanted)
  report_all wanted done [] ok e lt = absurd (omega arith)
  report_all wanted done (a ∷ rest) (c, ok) e lt =
      let now : length (all wanted done a rest) ≡ suc (length done) =
        omega (arith, length-append done ((a.tstart, a.tend) ∷ [])) in
      elim (dec_lt (suc (length done)) wanted) [
        | yes more ↦
            let (r, q, l) =
              report_all wanted (all wanted done a rest) rest ok (omega (arith, now, e))
                (omega (arith, now, more)) in
            (r, report_more wanted done a rest (ground arith) (omega (arith, now, more)) ∙ q, l)
        | no last ↦
            let full : length (all wanted done a rest) ≡ wanted = omega (arith, now, lt) in
            (all wanted done a rest, report_full wanted done a rest (ground arith) full, full)
      ]

-- A synchronisation module whose functions always come back, with every measurement valid.
pub record AlwaysMeasures {W : Type 0} (sync : SyncModule W) : Type 0 where
  pub inits : (params : SyncParams) (w : W) → (w' : W) × (sync.init_sync params w ≡ some w')
  pub rounds : (w : W) → (w' : W) × (sync.init_sync_round w ≡ some w')
  pub starts : (w : W) → (w' : W) × (sync.start_sync w ≡ some w')
  pub stops : (w : W) → (w' : W) × (sync.stop_sync w ≡ some (correct_measurement, w'))

-- The job ends inside its arrays, after at most as many passes as measurements were wanted, and reports
-- that many.
abbrev pub Completes : {W T : Type 0} → SyncModule W → Calls W T → T → SyncParams → W → Type 0
Completes {W} {T} sync calls junk params w =
    (s : Samples T) × (end : W) × (run_job sync calls params.nrep junk params w ≡ some (s, end))
    × (length (reported s) ≡ params.nrep)

module _ {W T : Type 0} {sync : SyncModule W} (law : AlwaysMeasures sync) (calls : Calls W T) where
  attempt_correct :
      (w : W)
      → (a : Attempt T) × (w' : W) × (attempt sync calls w ≡ some (a, w'))
        × (a.code ≡ correct_measurement)
  unfolding attempt
  attempt_correct w =
      let (w₁, e) = law.starts w in
      let (w₂, e') = law.stops (calls.get_time (calls.collective_call (calls.get_time w₁).1)).1 in
      rw (e, e') (_, _, refl, refl)

  attempts_correct :
      (n : ℕ) (w : W)
      → (made : List (Attempt T)) × (attempts sync calls n w ≡ some made)
        × AllCorrect made
        × (length made ≡ n)
  unfolding attempts
  attempts_correct zero w = ([], refl, tt, refl)
  attempts_correct (suc n) w =
      let (a, w', tried, good) = attempt_correct w in
      let (made, rest, correct, count) = attempts_correct n (calls.clear_cache w') in
      rw (tried, rest) (a ∷ made, refl, (good, correct), ap suc count)

  -- With such a module a job ends and reports as many measurements as were wanted.
  pub run_job_completes :
      (fuel : ℕ) (junk : T) (params : SyncParams) (w : W)
      → 0 < params.nrep
      → params.nrep ≤ fuel
      → (s : Samples T) × (end : W) × (run_job sync calls fuel junk params w ≡ some (s, end))
        × (length (reported s) ≡ params.nrep)
  run_job_completes fuel junk params w some_reps enough =
      let (w', i) = law.inits params w in
      let (w'', i') = law.rounds w' in
      let (made, attempted, correct, count) = attempts_correct params.nrep w'' in
      let (r, e, l) = report_all params.nrep [] made correct (omega arith) (omega arith) in
      let (s, end, ran, same) =
        run_job-report sync calls params.nrep fuel junk params w w' w'' made r some_reps enough i i'
          attempted e in
      (s, end, ran, ap length same ∙ l)

-- A job of no repetitions never comes to its end: its first times are written behind its arrays.
module _ {W T : Type 0} (sync : SyncModule W) (calls : Calls W T) where
  abbrev no_room : Samples T
  no_room = record { n_rep = 0; i = 0; tstart_sec = []; tend_sec = [] }

  measure-no_room : (fuel : ℕ) (w : W) → measure sync calls fuel w no_room ≡ none
  unfolding measure iterate store
  measure-no_room zero w = refl
  measure-no_room (suc fuel) w = elim (Option-cases (attempt sync calls w)) [
    | inl e ↦ rw (measure, e) refl
    | inr ((a, w'), e) ↦ rw (measure, e) refl
  ]

  run_job_without_room :
      (fuel count : ℕ) (junk : T) (w : W)
      → run_job sync calls fuel junk (record { nrep = 0; count = count }) w ≡ none
  unfolding run_job
  run_job_without_room fuel count junk w =
      elim (Option-cases (sync.init_sync (record { nrep = 0; count = count }) w)) [
        | inl e ↦ rw e refl
        | inr (w', e) ↦ elim (Option-cases (sync.init_sync_round w')) [
          | inl e' ↦ rw (e, e') refl
          | inr (w'', e') ↦ rw (e, e') (measure-no_room fuel w'')
        ]
      ]
