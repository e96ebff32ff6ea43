-- ===== src/Library/Output/Processes.antt =====
-- What the rows of the type "all" and those with `verbose` hold,
-- src/reprompi_bench/benchmark_lib/results_output.c: one for each repetition of each process.
use reprompi_dev.Prelude.{
  ℕ, zero, suc, ◌+◌, ◌*◌, ◌<◌, ◌≡◌, refl, Bool, Option, none, some, List, [], ◌∷◌, ◌++◌, length,
  get_elem?, tabulate, if◌then◌else◌, arith,
}
use reprompi_dev.Prelude.Int.{ℤ}
use reprompi_dev.Prelude.Text.{Str}
use reprompi_dev.Results.{Process}
use reprompi_dev.Library.{JobInfo}
use reprompi_dev.Library.Row.{
  RuntimeRow, TimesRow, Column, process, user_columns, read_code, runtime_rows,
}
use reprompi_dev.Library.Output.{rows_of_procs, read_global, times_rows, times_of_procs}
use reprompi_dev.Library.Output.Gathered.{Holds, Holds-here, Holds-next}
use reprompi_dev.Library.Output.Rows.{
  measured_start, measured_end, global_start, global_end, code_of,
}

module _ {T : Type 0} (job : JobInfo T) (user : List Str × List ℤ) where
  -- a row of values
  abbrev pub runtime_row : Column → (ℕ → Option ℕ) → (ℕ → T) → ℕ → RuntimeRow T
  runtime_row column c v i = record {
    user = user;
    timername = job.timername;
    column = column;
    errorcode = c i;
    rep = i;
    runtime_sec = v i;
  }

  -- the rows of all processes, the first of them of rank `k`
  abbrev pub described_rows :
      (Process T → ℕ → Option ℕ)
      → (Process T → ℕ → T)
      → ℕ
      → ℕ
      → List (Process T)
      → List (RuntimeRow T)
  described_rows c v n k [] = []
  described_rows c v n k (p ∷ ps) =
      tabulate (runtime_row (process k) (c p) (v p)) n 0 ++ described_rows c v n (k + 1) ps

  -- a row with `verbose`
  abbrev pub times_row : Bool → T → ℕ → Process T → ℕ → TimesRow T
  times_row window d k p i = record {
    user = user;
    timername = job.timername;
    proc_id = k;
    rep = i;
    errorcode = code_of d window p i;
    local_start_sec = measured_start d p i;
    local_end_sec = measured_end d p i;
    global_sec = if window then some (global_start d p i, global_end d p i) else none;
  }

  abbrev pub described_times : Bool → T → ℕ → ℕ → List (Process T) → List (TimesRow T)
  described_times window d n k [] = []
  described_times window d n k (p ∷ ps) =
      tabulate (times_row window d k p) n 0 ++ described_times window d n (k + 1) ps

module _ {T : Type 0} (job : JobInfo T) (user : List Str × List ℤ)
    (columns : user_columns job ≡ some user) where
  runtime_rows_lem :
      (column : Column) (xs : List T) (codes : Option (List ℕ)) (start n i : ℕ) (c : ℕ → Option ℕ)
      (v : ℕ → T)
      → ((j : ℕ) → j < i + n → read_code codes (start + j) ≡ some (c j))
      → ((j : ℕ) → j < i + n → get_elem? xs (start + j) ≡ some (v j))
      → runtime_rows job column xs codes start n i
        ≡ some (tabulate (runtime_row job user column c v) n i)
  unfolding runtime_rows
  runtime_rows_lem column xs codes start zero i c v hc hv = refl
  runtime_rows_lem column xs codes start (suc n) i c v hc hv =
      rw
        (
          columns,
          hc i (omega arith),
          hv i (omega arith),
          runtime_rows_lem column xs codes start n (i + 1) c v (λ j l. hc j (omega arith))
              (λ j l. hv j (omega arith)),
        )
        refl

  pub rows_of_procs_lem :
      (xs : List T) (codes : Option (List ℕ)) (c : Process T → ℕ → Option ℕ) (v : Process T → ℕ → T)
      (k : ℕ) (ps : List (Process T))
      → Holds (read_code codes) c job.n_rep k ps
      → Holds (get_elem? xs) v job.n_rep k ps
      → rows_of_procs job xs codes (length ps) k ≡ some (described_rows job user c v job.n_rep k ps)
  unfolding rows_of_procs
  rows_of_procs_lem xs codes c v k [] hc hv = refl
  rows_of_procs_lem xs codes c v k (p ∷ ps) hc hv =
      rw
        (
          runtime_rows_lem (process k) xs codes (k * job.n_rep) job.n_rep 0 (c p) (v p)
              (λ j l. Holds-here (read_code codes) c job.n_rep k p ps hc j (omega arith))
              (λ j l. Holds-here (get_elem? xs) v job.n_rep k p ps hv j (omega arith)),
          rows_of_procs_lem xs codes c v (k + 1) ps
              (Holds-next (read_code codes) c job.n_rep k p ps hc)
              (Holds-next (get_elem? xs) v job.n_rep k p ps hv),
        )
        refl

  module _ (window : Bool) (d : T) (local_sec global_sec : List T × List T)
      (codes : Option (List ℕ)) where
    times_rows_lem :
        (k : ℕ) (p : Process T) (n i : ℕ)
        → ((j : ℕ)
            → j < i + n
            → (read_code codes (k * job.n_rep + j) ≡ some (code_of d window p j))
              × (get_elem? local_sec.0 (k * job.n_rep + j) ≡ some (measured_start d p j))
              × (get_elem? local_sec.1 (k * job.n_rep + j) ≡ some (measured_end d p j))
              × (read_global job local_sec global_sec codes (k * job.n_rep + j)
                  ≡ some (if window then some (global_start d p j, global_end d p j) else none)))
        → times_rows job local_sec global_sec codes k n i
          ≡ some (tabulate (times_row job user window d k p) n i)
    unfolding times_rows
    times_rows_lem k p zero i h = refl
    times_rows_lem k p (suc n) i h =
        let (a, b, c, e) = h i (omega arith) in
        rw (columns, a, b, c, e, times_rows_lem k p n (i + 1) (λ j l. h j (omega arith))) refl

    -- the columns of the global times, which are there with windows only
    abbrev pub global_of : Process T → ℕ → Option (T × T)
    global_of p i = if window then some (global_start d p i, global_end d p i) else none

    pub times_of_procs_lem :
        (k : ℕ) (ps : List (Process T))
        → Holds (read_code codes) (code_of d window) job.n_rep k ps
        → Holds (get_elem? local_sec.0) (measured_start d) job.n_rep k ps
        → Holds (get_elem? local_sec.1) (measured_end d) job.n_rep k ps
        → Holds (read_global job local_sec global_sec codes) global_of job.n_rep k ps
        → times_of_procs job local_sec global_sec codes (length ps) k
          ≡ some (described_times job user window d job.n_rep k ps)
    unfolding times_of_procs
    times_of_procs_lem k [] hc hs he hg = refl
    times_of_procs_lem k (p ∷ ps) hc hs he hg =
        rw
          (
            times_rows_lem k p job.n_rep 0 (λ j l. (
              Holds-here (read_code codes) (code_of d window) job.n_rep k p ps hc j (omega arith),
              Holds-here (get_elem? local_sec.0) (measured_start d) job.n_rep k p ps hs j
                  (omega arith),
              Holds-here (get_elem? local_sec.1) (measured_end d) job.n_rep k p ps he j
                  (omega arith),
              Holds-here (read_global job local_sec global_sec codes) global_of job.n_rep k p ps hg
                  j (omega arith),
            )),
            times_of_procs_lem (k + 1) ps
                (Holds-next (read_code codes) (code_of d window) job.n_rep k p ps hc)
                (Holds-next (get_elem? local_sec.0) (measured_start d) job.n_rep k p ps hs)
                (Holds-next (get_elem? local_sec.1) (measured_end d) job.n_rep k p ps he)
                (Holds-next (read_global job local_sec global_sec codes) global_of job.n_rep k p ps
                  hg),
          )
          refl
