-- ===== src/Jobs.antt =====
-- The list of benchmark jobs: src/benchmark_job.c, and `shuffle` of src/reprompi_bench/misc.c.
pub mod Input
pub mod Order
pub mod Shuffle
mod Examples
use reprompi_dev.Prelude.{
  ℕ, zero, suc, ◌+◌, ◌-◌, ◌*◌, ◌/◌, ◌%◌, Bool, true, false, Option, none, some, List, [], ◌∷◌, ◌++◌,
  ltb, ◌==◌, if◌then◌else◌, ◌>>=◌, get_elem?, set, length,
}
use reprompi_dev.Prelude.Int.{ℤ, pos, negsuc}
use reprompi_dev.Prelude.Text.{Str}
use reprompi_dev.Calls.{get_call_index}

-- `job_t`, without the count, which is computed later
pub record Job : Type 0 where
  pub call_index : ℕ
  pub msize : ℕ
  pub n_rep : ℤ

-- What one `fscanf(file, "%s %zu %ld", ...)` finds; the end of the file is the end of the list.
pub data Scan : Type 0 where
  malformed : Scan
  line : Str → ℕ → ℤ → Scan

abbrev pub len_job_batch : ℕ
len_job_batch = 40

-- The array of jobs: its allocated size and what is written, from the front.
pub record JobArray : Type 0 where
  pub allocated : ℕ
  pub jobs : List Job

-- `jlist->jobs[len_jobs] = ...; len_jobs++`, and the reallocation; `none` is a write outside.
unfoldable pub append_job : Job → JobArray → Option JobArray
append_job job a =
    let jobs = a.jobs ++ (job ∷ []) in
    if ltb (length a.jobs) a.allocated
    then some (
        if length jobs % len_job_batch == 0
        then record { allocated = length jobs + len_job_batch; jobs = jobs }
        else record a { jobs = jobs })
    else none

-- the loop of `read_input_jobs`
unfoldable pub read_jobs : List Scan → JobArray → Option JobArray
read_jobs [] a = some a
read_jobs (malformed ∷ scans) a = some a
read_jobs (line mpi_call msize nrep ∷ scans) a = elim (get_call_index mpi_call) [
  | negsuc n ↦ read_jobs scans a
  | pos i ↦ do
    a ← append_job (record { call_index = i; msize = msize; n_rep = nrep }) a
    read_jobs scans a
]

-- `read_input_jobs`: the returned error and the jobs; `file` is `none` if it cannot be opened.
unfoldable pub read_input_jobs : Option (List Scan) → Option (ℕ × List Job)
read_input_jobs none = some (1, [])
read_input_jobs (some scans) = do
  a ← read_jobs scans (record { allocated = len_job_batch; jobs = [] })
  some (0, a.jobs)

-- the inner loop of `generate_job_list` over the calls
unfoldable pub jobs_of_size : ℤ → ℕ → List ℕ → List Job
jobs_of_size n_rep msize [] = []
jobs_of_size n_rep msize (c ∷ calls) =
    record { call_index = c; msize = msize; n_rep = n_rep } ∷ jobs_of_size n_rep msize calls

-- the two loops, of the sizes outside and of the calls inside
unfoldable pub jobs_of_options : ℤ → List ℕ → List ℕ → List Job
jobs_of_options n_rep [] calls = []
jobs_of_options n_rep (s ∷ msizes) calls =
    jobs_of_size n_rep s calls ++ jobs_of_options n_rep msizes calls

-- The counts of the jobs; `none` is the exit for a size that is no multiple of the datatype's.
unfoldable pub counts : ℕ → List Job → Option (List ℕ)
counts datatypesize [] = some []
counts datatypesize (j ∷ jobs) = do
  let count = j.msize / datatypesize
  rest ← counts datatypesize jobs
  if count * datatypesize == j.msize then some (count ∷ rest) else none

-- one step of the loop of `shuffle`; `rand_max` is RAND_MAX, `r` what `rand` returns. `none` is an
-- access outside the array.
unfoldable pub swap_step : ℕ → ℕ → ℕ → List ℕ → Option (List ℕ)
swap_step rand_max r i array = do
  let n = length array
  let j = i + r / (rand_max / (n - i) + 1)
  t ← get_elem? array j
  u ← get_elem? array i
  some (set (set array j u) i t)

-- the loop from `i` on, with `left` steps to make
unfoldable pub shuffle_from : ℕ → (ℕ → ℕ) → ℕ → ℕ → List ℕ → Option (List ℕ)
shuffle_from rand_max rand zero i array = some array
shuffle_from rand_max rand (suc left) i array = do
  array ← swap_step rand_max (rand i) i array
  shuffle_from rand_max rand left (i + 1) array

-- `shuffle`; `rand i` is what the `i`-th call of `rand` after `srand` returns.
unfoldable pub shuffle : ℕ → (ℕ → ℕ) → List ℕ → Option (List ℕ)
shuffle rand_max rand array =
    if ltb 1 (length array)
    then shuffle_from rand_max rand (length array - 1) 0 array
    else some array

-- `job_indices` before the shuffle: 0, 1, ...
unfoldable pub indices_from : ℕ → ℕ → List ℕ
indices_from i zero = []
indices_from i (suc n) = i ∷ indices_from (i + 1) n

-- the order of `n_jobs` jobs
unfoldable pub job_indices : Bool → ℕ → (ℕ → ℕ) → ℕ → Option (List ℕ)
job_indices enable_job_shuffling rand_max rand n_jobs =
    let indices = indices_from 0 n_jobs in
    if enable_job_shuffling then shuffle rand_max rand indices else some indices
