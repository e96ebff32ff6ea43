-- ===== src/Results/Rows.antt =====
-- What the verbose rows of src/reprompi_bench/output_management/results_output.c hold.
use Prim.{Unit, tt}
use mathlib.Core.List.{map}
use reprompi_dev.Prelude.{
  ℕ, zero, suc, ◌+◌, ◌*◌, ◌<◌, ◌≤◌, ◌≡◌, refl, Bool, Bool-cases, inl, inr, none, some, List, [],
  ◌∷◌, ◌++◌, length, get_or, get_elem?-get_or, tabulate, All, if◌then◌else◌, arith,
}
use reprompi_dev.Results.{Process}
use reprompi_dev.Results.Job.{HasTimes}
use reprompi_dev.Results.Normalised.{
  Later, chunk_inside, Later-read, global_read, Later-next, Later-stays, shown,
}
use reprompi_dev.Results.Verbose.{
  Row, chunk_size, nchunks, chunk_nrep, normalise, printed_code, printed_times, process_rows,
  chunk_rows, all_rows,
}

module _ {T : Type 0} (window clock : Bool) (d : T) where
  -- the row of a process for repetition `i` of a chunk, from the arrays as they were measured
  abbrev pub described : Process T → ℕ → ℕ → ℕ → Row T
  described p proc id i = record {
    proc_id = proc;
    rep_id = id * 3000 + i;
    errorcode = if window then some (get_or p.errorcodes i 0) else none;
    loc_tstart_sec = get_or p.tstart_sec (id * 3000 + i) d;
    loc_tend_sec = get_or p.tend_sec (id * 3000 + i) d;
    global_times =
        if clock
        then some (
          shown d id p.get_global_time (get_or p.tstart_sec (id * 3000 + i) d),
          shown d id p.get_global_time (get_or p.tend_sec (id * 3000 + i) d),
        )
        else none;
  }

  -- A process after `id` chunks
  pub IsAfter : ℕ → Process T → Process T → Type 0
  IsAfter id p q =
      (q.errorcodes ≡ p.errorcodes)
      × (q.get_global_time ≡ p.get_global_time)
      × Later d id p.tstart_sec q.tstart_sec
      × Later d id p.tend_sec q.tend_sec

  start-IsAfter : (p : Process T) → IsAfter 0 p p
  unfolding IsAfter Later
  start-IsAfter p = (refl, refl, (refl, λ j h. refl), (refl, λ j h. refl))

  code_read :
      (i : ℕ) (p q : Process T)
      → q.errorcodes ≡ p.errorcodes
      → i < length p.errorcodes
      → printed_code window clock i q
        ≡ some (if window then some (get_or p.errorcodes i 0) else none)
  unfolding printed_code
  code_read i p q same h = elim (Bool-cases window) [
    | inl on ↦ rw (on, same, get_elem?-get_or p.errorcodes i 0 h) refl
    | inr off ↦ rw off refl
  ]

  times_read :
      (id i n : ℕ) (p q : Process T)
      → IsAfter id p q
      → i < n
      → n ≤ chunk_size
      → id * chunk_size + i < length p.tstart_sec
      → id * chunk_size + i < length p.tend_sec
      → printed_times window clock (id * chunk_size + i) (normalise window clock n q)
        ≡ some (
            if clock
            then some (
              shown d id p.get_global_time (get_or p.tstart_sec (id * chunk_size + i) d),
              shown d id p.get_global_time (get_or p.tend_sec (id * chunk_size + i) d),
            )
            else none)
  unfolding printed_times normalise IsAfter
  times_read id i n p q (codes, clocks, starts, ends) below small a b = elim (Bool-cases clock) [
    | inl on ↦
        rw
          (
            on,
            clocks,
            global_read d id i n p.get_global_time p.tstart_sec q.tstart_sec starts below small a,
            global_read d id i n p.get_global_time p.tend_sec q.tend_sec ends below small b,
          )
          refl
    | inr off ↦ rw off refl
  ]

  process_rows_lem :
      (n i id proc whole : ℕ) (p q : Process T)
      → IsAfter id p q
      → i + n ≤ whole
      → whole ≤ chunk_size
      → id * chunk_size + whole ≤ length p.tstart_sec
      → id * chunk_size + whole ≤ length p.tend_sec
      → whole ≤ length p.errorcodes
      → process_rows window clock n i id proc q (normalise window clock whole q)
        ≡ some (tabulate (described p proc id) n i)
  unfolding process_rows IsAfter
  process_rows_lem zero i id proc whole p q after inside small a b c = refl
  process_rows_lem (suc n) i id proc whole p q after inside small a b c =
      let (codes, clocks, starts, ends) = after in
      rw
        (
          Later-read d id i p.tstart_sec q.tstart_sec starts (omega arith),
          Later-read d id i p.tend_sec q.tend_sec ends (omega arith),
          code_read i p q codes (omega arith),
          times_read id i whole p q after (omega arith) small (omega arith) (omega arith),
          process_rows_lem n (i + 1) id proc whole p q after (omega arith) small a b c,
        )
        refl

  -- the rows of a chunk, and of all chunks, as they are described
  abbrev pub described_chunk : ℕ → ℕ → ℕ → List (Process T) → List (Row T)
  described_chunk n id proc [] = []
  described_chunk n id proc (p ∷ ps) =
      tabulate (described p proc id) n 0 ++ described_chunk n id (proc + 1) ps

  abbrev pub described_rows : ℕ → ℕ → ℕ → List (Process T) → List (Row T)
  described_rows n_rep zero id ps = []
  described_rows n_rep (suc left) id ps =
      described_chunk (chunk_nrep n_rep id) id 0 ps ++ described_rows n_rep left (id + 1) ps

  -- All processes after `id` chunks
  pub AreAfter : ℕ → List (Process T) → List (Process T) → Type 0
  AreAfter id [] [] = Unit {0}
  AreAfter id (p ∷ ps) (q ∷ qs) = IsAfter id p q × AreAfter id ps qs
  AreAfter id _ _ = ⊥

  pub start-AreAfter : (ps : List (Process T)) → AreAfter 0 ps ps
  unfolding AreAfter
  start-AreAfter [] = tt
  start-AreAfter (p ∷ ps) = (start-IsAfter p, start-AreAfter ps)

  normalise-IsAfter :
      (id n : ℕ) (p q : Process T)
      → n ≤ chunk_size
      → IsAfter id p q
      → IsAfter (id + 1) p (normalise window clock n q)
  unfolding normalise IsAfter
  normalise-IsAfter id n p q small (codes, clocks, starts, ends) = elim (Bool-cases clock) [
    | inl on ↦ rw on (
      codes,
      clocks,
      Later-next d id n q.get_global_time p.tstart_sec q.tstart_sec small starts,
      Later-next d id n q.get_global_time p.tend_sec q.tend_sec small ends,
    )
    | inr off ↦ rw off (
      codes,
      clocks,
      Later-stays d id p.tstart_sec q.tstart_sec starts,
      Later-stays d id p.tend_sec q.tend_sec ends,
    )
  ]

  map-AreAfter :
      (id n : ℕ) (ps qs : List (Process T))
      → n ≤ chunk_size
      → AreAfter id ps qs
      → AreAfter (id + 1) ps (map (normalise window clock n) qs)
  unfolding AreAfter
  map-AreAfter id n [] [] small after = tt
  map-AreAfter id n [] (q ∷ qs) small after = absurd after
  map-AreAfter id n (p ∷ ps) [] small after = absurd after
  map-AreAfter id n (p ∷ ps) (q ∷ qs) small (a, rest) =
      (normalise-IsAfter id n p q small a, map-AreAfter id n ps qs small rest)

  chunk_rows_lem :
      (n_rep n id proc : ℕ) (ps qs : List (Process T))
      → AreAfter id ps qs
      → n ≤ chunk_size
      → id * chunk_size + n ≤ n_rep
      → All (HasTimes n_rep) ps
      → chunk_rows window clock n id proc qs ≡ some (described_chunk n id proc ps)
  unfolding chunk_rows AreAfter HasTimes
  chunk_rows_lem n_rep n id proc [] [] after small inside room = refl
  chunk_rows_lem n_rep n id proc [] (q ∷ qs) after small inside room = absurd after
  chunk_rows_lem n_rep n id proc (p ∷ ps) [] after small inside room = absurd after
  chunk_rows_lem n_rep n id proc (p ∷ ps) (q ∷ qs) (a, rest) small inside ((s, e, c), room) =
      rw
        (
          process_rows_lem n 0 id proc n p q a (omega arith) small (omega arith) (omega arith)
              (omega arith),
          chunk_rows_lem n_rep n id (proc + 1) ps qs rest small inside room,
        )
        refl

  pub all_rows_lem :
      (n_rep left id : ℕ) (ps qs : List (Process T))
      → AreAfter id ps qs
      → id + left ≡ nchunks n_rep
      → All (HasTimes n_rep) ps
      → all_rows window clock n_rep left id qs ≡ some (described_rows n_rep left id ps)
  unfolding all_rows
  all_rows_lem n_rep zero id ps qs after total room = refl
  all_rows_lem n_rep (suc left) id ps qs after total room =
      let (inside, small) = chunk_inside n_rep id (omega arith) in
      rw
        (
          chunk_rows_lem n_rep (chunk_nrep n_rep id) id 0 ps qs after small inside room,
          all_rows_lem n_rep left (id + 1) ps
              (map (normalise window clock (chunk_nrep n_rep id)) qs)
              (map-AreAfter id (chunk_nrep n_rep id) ps qs small after) (omega arith) room,
        )
        refl
