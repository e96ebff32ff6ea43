-- ===== src/Results/Verbose.antt =====
-- The rows of the verbose output: `print_measurement_results` of
-- src/reprompi_bench/output_management/results_output.c on all processes. MPI_Gather puts the part of
-- process `proc_id` behind those of the processes before it, so that the element
-- `proc_id * chunk_nrep + i` of a gathered array is element `i` of that part.
use reprompi_dev.Prelude.{
  ℕ, zero, suc, ◌+◌, ◌-◌, ◌*◌, ◌/◌, ◌%◌, Bool, ◌&&◌, not, Option, none, some, ◌>>=◌, List, [], ◌∷◌,
  ◌++◌, map, get_elem?, ◌==◌, if◌then◌else◌,
}
use reprompi_dev.Results.{Process}

-- `OUTPUT_NITERATIONS_CHUNK`
abbrev pub chunk_size : ℕ
chunk_size = 3000

pub record Row (T : Type 0) : Type 0 where
  pub proc_id : ℕ
  pub rep_id : ℕ
  pub errorcode : Option ℕ
  pub loc_tstart_sec : T
  pub loc_tend_sec : T
  pub global_times : Option (T × T)

-- the number of chunks, and the size of each: the last one may be smaller
unfoldable pub nchunks : ℕ → ℕ
nchunks n_rep = n_rep / chunk_size + (if n_rep % chunk_size == 0 then 0 else 1)

unfoldable pub chunk_nrep : ℕ → ℕ → ℕ
chunk_nrep n_rep chunk_id =
    if (chunk_id == nchunks n_rep - 1) && not (n_rep % chunk_size == 0)
    then n_rep % chunk_size
    else chunk_size

-- the loop that normalises the first times of an array in place
unfoldable pub normalise_front : {T : Type 0} → (T → T) → ℕ → List T → List T
normalise_front get_global_time zero times = times
normalise_front get_global_time (suc n) [] = []
normalise_front get_global_time (suc n) (t ∷ times) =
    get_global_time t ∷ normalise_front get_global_time n times

module _ {T : Type 0} (window clock : Bool) where
  -- a process after its global times of a chunk are computed
  unfoldable pub normalise : ℕ → Process T → Process T
  normalise n p =
      if clock
      then record p {
        tstart_sec = normalise_front p.get_global_time n p.tstart_sec;
        tend_sec = normalise_front p.get_global_time n p.tend_sec;
      }
      else p

  -- the columns of a row that are there only with codes or with a global clock
  unfoldable pub printed_code : ℕ → Process T → Option (Option ℕ)
  printed_code i p =
      if window then (get_elem? p.errorcodes i >>= (λ c. some (some c))) else some none

  unfoldable pub printed_times : ℕ → Process T → Option (Option (T × T))
  printed_times index p =
      if clock
      then (get_elem? p.tstart_sec index
          >>= (λ s. get_elem? p.tend_sec index >>= (λ e. some (some (s, e)))))
      else some none

  -- The rows of one process in a chunk, `n` of them from `i` on. The local times are gathered
  -- before the global ones are computed.
  unfoldable pub process_rows : ℕ → ℕ → ℕ → ℕ → Process T → Process T → Option (List (Row T))
  process_rows zero i chunk_id proc_id before after = some []
  process_rows (suc n) i chunk_id proc_id before after = do
    s ← get_elem? before.tstart_sec (chunk_id * chunk_size + i)
    e ← get_elem? before.tend_sec (chunk_id * chunk_size + i)
    code ← printed_code i before
    times ← printed_times (chunk_id * chunk_size + i) after
    rest ← process_rows n (i + 1) chunk_id proc_id before after
    some (
        record {
          proc_id = proc_id;
          rep_id = chunk_id * chunk_size + i;
          errorcode = code;
          loc_tstart_sec = s;
          loc_tend_sec = e;
          global_times = times;
        }
        ∷ rest)

  -- the loop over the processes of a chunk
  unfoldable pub chunk_rows : ℕ → ℕ → ℕ → List (Process T) → Option (List (Row T))
  chunk_rows n chunk_id proc_id [] = some []
  chunk_rows n chunk_id proc_id (p ∷ ps) = do
    rows ← process_rows n 0 chunk_id proc_id p (normalise n p)
    rest ← chunk_rows n chunk_id (proc_id + 1) ps
    some (rows ++ rest)

  -- the loop over the chunks, `left` of them from `chunk_id` on
  unfoldable pub all_rows : ℕ → ℕ → ℕ → List (Process T) → Option (List (Row T))
  all_rows n_rep zero chunk_id processes = some []
  all_rows n_rep (suc left) chunk_id processes = do
    rows ← chunk_rows (chunk_nrep n_rep chunk_id) chunk_id 0 processes
    rest ←
        all_rows n_rep left (chunk_id + 1) (map (normalise (chunk_nrep n_rep chunk_id)) processes)
    some (rows ++ rest)

  -- `print_measurement_results` with `verbose`
  unfoldable pub print_measurement_results : ℕ → List (Process T) → Option (List (Row T))
  print_measurement_results n_rep processes = all_rows n_rep (nchunks n_rep) 0 processes
