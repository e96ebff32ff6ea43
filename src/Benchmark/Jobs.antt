-- ===== src/Benchmark/Jobs.antt =====
-- The job list of a run of src/benchmarkCollective.c: the counts of the jobs, and the order in which
-- they are executed.
use Prim.{tt}
use reprompi_dev.Prelude.{
  ℕ, zero, suc, ◌*◌, ◌/◌, ◌≡◌, ◌<◌, ◌≤◌, refl, true, some, List, [], ◌∷◌, length, get_elem?, All,
  ltb, ◌==◌, if◌then◌else◌, arith, ==_iff,
}
use mathlib.Core.Option.{none-ne-some, some-injective}
use reprompi_dev.Jobs.{Job, counts}
use reprompi_dev.Jobs.Shuffle.{occurrences, job_indices_lem}
use reprompi_dev.Benchmark.{Machine, generated_jobs, generate_job_list}
use reprompi_dev.Options.Common.{Common}
use reprompi_dev.Prelude.Int.{ℤ}

-- Every job has a count, which makes up its message.
unfoldable pub HasCounts : ℕ → List Job → List ℕ → Type 0
HasCounts size jobs numbers =
    (i : ℕ) (j : Job)
    → get_elem? jobs i ≡ some j
    → (c : ℕ) × (get_elem? numbers i ≡ some c) × (c * size ≡ j.msize)

abbrev pub Divides : ℕ → Job → Type 0
Divides size j = j.msize / size * size ≡ j.msize

counts-HasCounts :
    (size : ℕ) (jobs : List Job)
    → All (Divides size) jobs
    → (numbers : List ℕ) × (counts size jobs ≡ some numbers) × HasCounts size jobs numbers
unfolding counts HasCounts
counts-HasCounts size [] all = ([], refl, λ i j h. absurd (none-ne-some j h))
counts-HasCounts size (j ∷ jobs) (whole, all) =
    let (numbers, e, each) = counts-HasCounts size jobs all in
    let equal : (j.msize / size * size == j.msize) ≡ true =
      (==_iff (j.msize / size * size) j.msize).1 whole in
    (
      j.msize / size ∷ numbers,
      rw (e, equal) refl,
      elim [
        | zero ↦ λ k h. (j.msize / size, refl, rw (← some-injective j k h) whole)
        | suc i ↦ λ k h. each i k h
      ],
    )

-- Numbers that occur only below a bound are below it.
occurring_below :
    (n : ℕ) (order : List ℕ) → ((i : ℕ) → 0 < occurrences i order → i < n) → All (λ i. i < n) order
unfolding occurrences
occurring_below n [] h = tt
occurring_below n (i ∷ order) h =
    (h i (ground arith), occurring_below n order (λ k p. h k (ground (arith, p))))

-- There are as many positions as jobs, and every job stands at one of them.
abbrev pub IsOrder : ℕ → List ℕ → Type 0
IsOrder n order = (length order ≡ n) × ((i : ℕ) → occurrences i order ≡ (if ltb i n then 1 else 0))

pub IsOrder-All : (n : ℕ) (order : List ℕ) → IsOrder n order → All (λ i. i < n) order
IsOrder-All n order (l, once) = occurring_below n order (λ i p. ground (arith, once i, p))

-- What a job list needs: some jobs, whose sizes are multiples of the datatype's.
pub generate_job_list_lem :
    (m : Machine) (rank : ℕ) (opts : Common) (n_rep : ℤ) (jobs : List Job)
    → generated_jobs m rank opts n_rep opts.input_file ≡ some jobs
    → 0 < length jobs
    → 0 < m.type_size opts.datatype
    → All (Divides (m.type_size opts.datatype)) jobs
    → ((k : ℕ) → m.rand k ≤ m.rand_max)
    → (numbers order : List ℕ) × (generate_job_list m rank opts n_rep
        ≡ some (record { jobs = jobs; counts = numbers; job_indices = order }))
      × HasCounts (m.type_size opts.datatype) jobs numbers
      × IsOrder (length jobs) order
unfolding generate_job_list
generate_job_list_lem m rank opts n_rep jobs made some_jobs sized all random =
    let (numbers, e, each) = counts-HasCounts (m.type_size opts.datatype) jobs all in
    let (order, e', l, once) =
      job_indices_lem opts.enable_job_shuffling m.rand_max m.rand (length jobs) random in
    let full : ltb 0 (length jobs) ≡ true = ground arith in
    let positive : ltb 0 (m.type_size opts.datatype) ≡ true = ground arith in
    (numbers, order, rw (made, full, positive, e, e') refl, each, (l, once))
