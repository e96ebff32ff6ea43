-- ===== src/Benchmark/Complete.antt =====
-- A run of src/benchmarkCollective.c goes through all of its jobs.
use Prim.{Unit, tt}
use mathlib.Core.List.{map}
use native.Mathlib.Nat.{mul-le-mul_right}
use reprompi_dev.Prelude.{
  ℕ, zero, suc, ◌+◌, ◌*◌, ◌%◌, ◌^◌, ◌≡◌, ◌<◌, ◌≤◌, inl, inr, Bool-cases, refl, sym, ap, ap₂, ◌∙◌,
  true, false, Option, some, List, [], ◌∷◌, ◌++◌, length, append_nil, snoc-append, get_elem?,
  get_elem?_below, All, All_at, ◌==◌, if◌then◌else◌, arith,
}
use reprompi_dev.Prelude.Int.{pos}
use reprompi_dev.Buffers.{Info, int_max, init_collective_basic_info}
use reprompi_dev.Buffers.Fit.{IsPair}
use reprompi_dev.Buffers.Table.{CollectiveOps, collective_calls}
use reprompi_dev.Buffers.Cycle.{is_pingpong, measured_operation}
use reprompi_dev.Jobs.{Job}
use reprompi_dev.Measure.{SyncModule, Samples}
use reprompi_dev.Measure.Kept.{reported}
use reprompi_dev.Measure.Complete.{AlwaysMeasures, run_job_completes}
use reprompi_dev.Options.Common.{Common}
use reprompi_dev.Benchmark.{
  Machine, JobList, Environment, RunOutput, settings, results, Progress, basic_options, array_size,
  low_word, received_job, broadcast_jobs, with_clocksync, job_calls, execute_job, execute_jobs,
}
use reprompi_dev.Benchmark.Jobs.{HasCounts}

-- The ranks for the ping-pong operations are two different processes.
abbrev pub HasPeers : Common → ℕ → Type 0
HasPeers opts procs = IsPair opts.pingpong_ranks.0 opts.pingpong_ranks.1 procs

-- A job of a measured operation, if that is a ping-pong with its ranks, with a positive number of
-- repetitions below 2 ^ 31 that the fuel is enough for, and a size that is below INT_MAX for all
-- processes together.
unfoldable pub CanFinish : Common → ℕ → ℕ → Job → Type 0
CanFinish opts procs fuel j =
    ((ops : CollectiveOps) × (get_elem? collective_calls j.call_index ≡ some ops))
    × (is_pingpong j.call_index ≡ true → HasPeers opts procs)
    × ((n : ℕ) × (j.n_rep ≡ pos n) × (0 < n) × (n ≤ fuel) × (n < 2 ^ 31))
    × (j.msize * procs < int_max)

-- The output has the results of the jobs in the order of execution, each with as many
-- measurements as the job wants.
unfoldable pub Reports : {T : Type 0} → List Job → List ℕ → List (RunOutput T) → Type 0
Reports jobs [] [] = Unit {0}
Reports jobs (i ∷ order) (results job s ∷ body) =
    (get_elem? jobs i ≡ some job)
    × (pos (length (reported s)) ≡ job.n_rep)
    × Reports jobs order body
Reports jobs _ _ = ⊥

array_size_small : (n : ℕ) → n < 2 ^ 31 → array_size (pos n) ≡ some n
unfolding array_size
array_size_small n h = ground arith

-- A job that can finish is received as it was sent.
received_job_lem :
    (opts : Common) (procs fuel : ℕ) (j : Job) → CanFinish opts procs fuel j → received_job j ≡ j
unfolding received_job CanFinish
received_job_lem opts procs fuel j (known, peers, (n, wanted, some_reps, fits, int), small) =
    let word : n % 2 ^ 32 ≡ n = omega arith in
    let same : pos (low_word j.n_rep) ≡ j.n_rep = rw wanted (ap pos word) in
    ap (λ z. record j { n_rep = z }) same

jobs_received :
    (opts : Common) (procs fuel : ℕ) (jobs : List Job)
    → All (CanFinish opts procs fuel) jobs
    → map received_job jobs ≡ jobs
jobs_received opts procs fuel [] all = refl
jobs_received opts procs fuel (j ∷ jobs) (can, all) =
    ap₂ (λ x xs. x ∷ xs) (received_job_lem opts procs fuel j can)
      (jobs_received opts procs fuel jobs all)

pub broadcast_jobs_lem :
    (opts : Common) (procs fuel rank : ℕ) (jobs : List Job)
    → All (CanFinish opts procs fuel) jobs
    → broadcast_jobs rank jobs ≡ jobs
broadcast_jobs_lem opts procs fuel rank jobs all = elim (Bool-cases (rank == 0)) [
  | inl root ↦ rw root refl
  | inr other ↦ rw other (jobs_received opts procs fuel jobs all)
]

count-le-msize : (count size msize : ℕ) → 0 < size → count * size ≡ msize → count ≤ msize
count-le-msize count zero msize h e = absurd (omega arith)
count-le-msize count (suc size) msize h e = omega arith

module _ {W T : Type 0} (m : Machine) {proc_sync : SyncModule W} (law : AlwaysMeasures proc_sync)
    (env : Environment W T) (fuel : ℕ) (junk : T) (rank procs : ℕ) (opts : Common)
    (enough : (k n : ℕ) → m.memory k n ≡ true) (r_ok : rank < procs) where
  abbrev info : Info
  info = init_collective_basic_info (basic_options m opts) procs

  clocked : AlwaysMeasures (with_clocksync m proc_sync env)
  clocked = record {
    inits = law.inits;
    rounds = λ w. law.rounds (env.clocksync_sync (env.clocksync_init w));
    starts = law.starts;
    stops = law.stops;
  }

  abbrev execute : ℕ → Job → ℕ → Progress W T → Option (Progress W T)
  execute = execute_job m proc_sync env fuel junk rank info

  execute_job_lem :
      (jindex count : ℕ) (job : Job) (p : Progress W T)
      → CanFinish opts procs fuel job
      → count ≤ job.msize
      → (p' : Progress W T) × (s : Samples T) × (execute jindex job count p ≡ some p')
        × (p'.printed
            ≡ (if jindex == 0 then p.printed ++ (settings ∷ []) else p.printed)
              ++ (results job s ∷ []))
        × (pos (length (reported s)) ≡ job.n_rep)
  unfolding execute_job CanFinish
  execute_job_lem jindex count job p ((ops, known), peers, (n, wanted, some_reps, fits, int), small)
        le =
      let limit : count * procs < int_max = omega (arith, mul-le-mul_right procs le) in
      let (q, calls, made, called, fit, released) =
        measured_operation job.call_index ops known m.extent m.memory (basic_options m opts) procs
          rank count p.coll_params enough r_ok limit peers in
      let (s, end, ran, l) =
        run_job_completes clocked (job_calls m proc_sync env calls) fuel junk
          (record { nrep = n; count = count }) p.state some_reps fits in
      rw (wanted, array_size_small n int, known, made, called, ran) (_, s, refl, refl, ap pos l)

  module _ (jlist : JobList) (size : ℕ) (sized : 0 < size)
      (runnable : All (CanFinish opts procs fuel) jlist.jobs)
      (counted : HasCounts size jlist.jobs jlist.counts) where
    -- one job of the list
    listed_job :
        (i jindex : ℕ) (p : Progress W T)
        → i < length jlist.jobs
        → (job : Job) × (count : ℕ) × (p' : Progress W T) × (s : Samples T) × (get_elem? jlist.jobs
              i
            ≡ some job)
          × (get_elem? jlist.counts i ≡ some count)
          × (execute jindex job count p ≡ some p')
          × (p'.printed
              ≡ (if jindex == 0 then p.printed ++ (settings ∷ []) else p.printed)
                ++ (results job s ∷ []))
          × (pos (length (reported s)) ≡ job.n_rep)
    unfolding HasCounts
    listed_job i jindex p lt =
        let (job, g) = get_elem?_below jlist.jobs i lt in
        let (count, g', whole) = counted i job g in
        let can = All_at (CanFinish opts procs fuel) jlist.jobs i job runnable g in
        let (p', s, e, o, l) =
          execute_job_lem jindex count job p can
            (count-le-msize count size job.msize sized whole) in
        (job, count, p', s, g, g', e, o, l)

    -- from the second job on
    later_jobs :
        (order : List ℕ) (jindex : ℕ) (p : Progress W T)
        → 0 < jindex
        → All (λ i. i < length jlist.jobs) order
        → (p' : Progress W T) × (body : List (RunOutput T)) × (execute_jobs m proc_sync env fuel
              junk rank info jlist jindex order p
            ≡ some p')
          × (p'.printed ≡ p.printed ++ body)
          × Reports jlist.jobs order body
    unfolding execute_jobs Reports
    later_jobs [] jindex p later all = (p, [], refl, sym (append_nil p.printed), tt)
    later_jobs (i ∷ order) jindex p later (lt, all) =
        let (job, count, p', s, g, g', e, o, l) = listed_job i jindex p lt in
        let (p'', body, e', o', r) = later_jobs order (jindex + 1) p' (omega arith) all in
        let first : (jindex == 0) ≡ false = ground arith in
        let printed : p'.printed ≡ p.printed ++ (results job s ∷ []) =
          o
          ∙ ap
              (λ b. (if b then p.printed ++ (settings ∷ []) else p.printed) ++ (results job s ∷ []))
              first in
        (
          p'',
          results job s ∷ body,
          rw (g, g', e) e',
          o' ∙ ap (λ xs. xs ++ body) printed ∙ sym (snoc-append p.printed (results job s) body),
          (g, l, r),
        )

    -- all jobs, with the settings before the first
    pub jobs_executed :
        (order : List ℕ) (p : Progress W T)
        → 0 < length order
        → p.printed ≡ []
        → All (λ i. i < length jlist.jobs) order
        → (p' : Progress W T) × (body : List (RunOutput T)) × (execute_jobs m proc_sync env fuel
              junk rank info jlist 0 order p
            ≡ some p')
          × (p'.printed ≡ settings ∷ body)
          × Reports jlist.jobs order body
    unfolding execute_jobs Reports
    jobs_executed [] p some_jobs start all = absurd (omega arith)
    jobs_executed (i ∷ order) p some_jobs start (lt, all) =
        let (job, count, p', s, g, g', e, o, l) = listed_job i 0 p lt in
        let (p'', body, e', o', r) = later_jobs order 1 p' (omega arith) all in
        (p'', results job s ∷ body, rw (g, g', e) e', o' ∙ rw (o, start) refl, (g, l, r))
