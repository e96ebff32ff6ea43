-- ===== src/Jobs/Examples.antt =====
-- Job lists at concrete options and inputs.
use reprompi_dev.Prelude.{
  ℕ, ◌+◌, ◌*◌, ◌%◌, ◌≡◌, ◌≢◌, ◌<◌, ◌⊎◌, refl, true, none, some, List, [], ◌∷◌, length, get_elem?,
  get_or, map, if◌then◌else◌, ltb, arith,
}
use reprompi_dev.Prelude.Int.{pos}
use reprompi_dev.Prelude.Text.{ascii}
use reprompi_dev.Jobs.{Job, Scan, malformed, line, read_input_jobs, job_indices}
use reprompi_dev.Jobs.Input.{listed, read_input_jobs-listed}
use reprompi_dev.Jobs.Shuffle.{occurrences, job_indices_lem}

abbrev input_file : List Scan
input_file =
    line (ascii "MPI_Bcast") 8 (pos 5)
    ∷ line (ascii "MPI_Nothing") 8 (pos 5)
    ∷ line (ascii "MPI_Scan") 16 (pos 7)
    ∷ malformed
    ∷ line (ascii "MPI_Bcast") 32 (pos 5)
    ∷ []

-- of the five lines, the first and the third make jobs
two_jobs :
    listed input_file
    ≡ record { call_index = 4; msize = 8; n_rep = pos 5 }
      ∷ record { call_index = 10; msize = 16; n_rep = pos 7 }
      ∷ []
unfolding listed reprompi_dev.Calls.get_call_index reprompi_dev.Calls.search_name
    reprompi_dev.Prelude.Text.same
two_jobs = refl

read_input_jobs-listed_example : read_input_jobs (some input_file) ≡ some (0, listed input_file)
read_input_jobs-listed_example = read_input_jobs-listed input_file

abbrev odd_sizes : List Job
odd_sizes =
    record { call_index = 4; msize = 8; n_rep = pos 5 }
    ∷ record { call_index = 4; msize = 10; n_rep = pos 5 }
    ∷ []

job_indices_lem_example :
    (order : List ℕ) × (job_indices true 32767 (λ k. 20000) 6 ≡ some order)
    × (length order ≡ 6)
    × ((job : ℕ) → occurrences job order ≡ (if ltb job 6 then 1 else 0))
job_indices_lem_example = job_indices_lem true 32767 (λ k. 20000) 6 (λ k. omega arith)
