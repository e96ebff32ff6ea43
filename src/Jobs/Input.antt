-- ===== src/Jobs/Input.antt =====
-- Reading jobs from the input file.
use mathlib.Core.List.{append_assoc, append-nil}
use reprompi_dev.Prelude.{
  ℕ, suc, ◌+◌, ◌%◌, ◌≡◌, ◌<◌, ◌≤◌, refl, ap, sym, ◌∙◌, true, some, List, [], ◌∷◌, ◌++◌, ltb, ◌==◌,
  length, length-append, arith, Bool-cases, inl, inr,
}
use reprompi_dev.Prelude.Int.{ℤ, pos, negsuc}
use reprompi_dev.Prelude.Text.{Str}
use reprompi_dev.Calls.{get_call_index}
use reprompi_dev.Jobs.{
  Job, Scan, malformed, line, JobArray, len_job_batch, append_job, read_jobs, read_input_jobs,
}

-- The jobs of the lines before the first malformed one, those with an unknown name left out.
unfoldable pub listed : List Scan → List Job
listed [] = []
listed (malformed ∷ scans) = []
listed (line mpi_call msize nrep ∷ scans) =
    let rest = listed scans in
    elim (get_call_index mpi_call) [
      | negsuc n ↦ rest
      | pos i ↦ record { call_index = i; msize = msize; n_rep = nrep } ∷ rest
    ]

-- There is room for one more job. The array has whole batches, of which only the last has room.
record IsRoomy (a : JobArray) : Type 0 where
  room : length a.jobs < a.allocated
  batches : a.allocated % len_job_batch ≡ 0
  last : a.allocated ≤ length a.jobs + len_job_batch

append_job-IsRoomy :
    (job : Job) (a : JobArray)
    → IsRoomy a
    → (a' : JobArray) × (append_job job a ≡ some a') × (a'.jobs ≡ a.jobs ++ (job ∷ [])) × IsRoomy a'
unfolding append_job
append_job-IsRoomy job a p =
    let jobs = a.jobs ++ (job ∷ []) in
    let longer : length jobs ≡ suc (length a.jobs) =
      omega (arith, length-append a.jobs (job ∷ [])) in
    let inside : ltb (length a.jobs) a.allocated ≡ true = ground (arith, p.room) in
    elim (Bool-cases (length jobs % len_job_batch == 0)) [
      | inl full ↦ (
        record { allocated = length jobs + len_job_batch; jobs = jobs },
        rw (inside, full) refl,
        refl,
        record { room = omega arith; batches = ground (arith, full); last = omega arith },
      )
      | inr some_left ↦ (
        record { allocated = a.allocated; jobs = jobs },
        rw (inside, some_left) refl,
        refl,
        record {
          room = ground (arith, p.room, p.batches, p.last, longer, some_left);
          batches = p.batches;
          last = omega (arith, p.last, longer);
        },
      )
    ]

Reads : List Scan → JobArray → Type 0
Reads scans a = (a' : JobArray) × (read_jobs scans a ≡ some a') × (a'.jobs ≡ a.jobs ++ listed scans)

module _ (mpi_call : Str) (msize : ℕ) (nrep : ℤ) (scans : List Scan) (a : JobArray) where
  abbrev job : ℕ → Job
  job i = record { call_index = i; msize = msize; n_rep = nrep }

  unknown :
      (n : ℕ)
      → get_call_index mpi_call ≡ negsuc n
      → (read_jobs (line mpi_call msize nrep ∷ scans) a ≡ read_jobs scans a)
        × (listed (line mpi_call msize nrep ∷ scans) ≡ listed scans)
  unfolding read_jobs listed
  unknown n e = (ground arith, ground arith)

  known :
      (i : ℕ) (b : JobArray)
      → get_call_index mpi_call ≡ pos i
      → append_job (job i) a ≡ some b
      → (read_jobs (line mpi_call msize nrep ∷ scans) a ≡ read_jobs scans b)
        × (listed (line mpi_call msize nrep ∷ scans) ≡ job i ∷ listed scans)
  unfolding read_jobs listed
  known i b e m = (ground arith, ground arith)

  read_line :
      (z : ℤ)
      → get_call_index mpi_call ≡ z
      → ((a' : JobArray) → IsRoomy a' → Reads scans a')
      → IsRoomy a
      → Reads (line mpi_call msize nrep ∷ scans) a
  unfolding Reads
  read_line (negsuc n) e later p =
      let (a', m, j) = later a p in
      let (step, rest) = unknown n e in (a', step ∙ m, j ∙ ap (λ js. a.jobs ++ js) (sym rest))
  read_line (pos i) e later p =
      let (b, m, j, p') = append_job-IsRoomy (job i) a p in
      let (a', m', j') = later b p' in
      let (step, rest) = known i b e m in
      (
        a',
        step ∙ m',
        j'
            ∙ ap (λ js. js ++ listed scans) j
            ∙ append_assoc a.jobs (job i ∷ []) (listed scans)
            ∙ ap (λ js. a.jobs ++ js) (sym rest),
      )

read_jobs-listed : (scans : List Scan) (a : JobArray) → IsRoomy a → Reads scans a
read_jobs-listed [] a p = unfold Reads read_jobs listed in (a, refl, sym (append-nil a.jobs))
read_jobs-listed (malformed ∷ scans) a p =
    unfold Reads read_jobs listed in (a, refl, sym (append-nil a.jobs))
read_jobs-listed (line mpi_call msize nrep ∷ scans) a p =
    read_line mpi_call msize nrep scans a (get_call_index mpi_call) refl
      (λ a' p'. read_jobs-listed scans a' p') p

-- Reading a file that can be opened stays inside the array as it grows, and gives the jobs of the lines
-- before the first malformed one whose name is in the table, in their order.
pub read_input_jobs-listed :
    (scans : List Scan) → read_input_jobs (some scans) ≡ some (0, listed scans)
unfolding read_input_jobs Reads
read_input_jobs-listed scans =
    let first : IsRoomy (record { allocated = len_job_batch; jobs = [] }) = record {
      room = omega arith;
      batches = refl;
      last = omega arith;
    } in
    let (a, m, j) =
      read_jobs-listed scans (record { allocated = len_job_batch; jobs = [] }) first in
    rw m (ap (λ js. some (0, js)) j)
