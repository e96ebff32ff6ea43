-- ===== src/Results/Pieces.antt =====
-- The verbose rows of src/reprompi_bench/output_management/results_output.c as pieces of the
-- repetitions, described without the code's own counts of chunks.
use reprompi_dev.Prelude.{
  ℕ, zero, suc, ◌+◌, ◌-◌, ◌*◌, ◌^◌, ◌<◌, ◌≤◌, ◌≡◌, refl, ap, ap₂, sym, ◌∙◌, Bool, false, some, List,
  [], ◌∷◌, ◌++◌, length, length-append, length-tabulate, tabulate, All, leb, ◌==◌, if◌then◌else◌,
  arith,
}
use reprompi_dev.Results.{Process}
use reprompi_dev.Results.Job.{HasTimes}
use reprompi_dev.Results.Verbose.{Row, nchunks, chunk_nrep, print_measurement_results}
use reprompi_dev.Results.Rows.{
  described, described_chunk, described_rows, start-AreAfter, all_rows_lem,
}

-- The chunks are the pieces of what is left.
chunks_end : (n_rep id : ℕ) → nchunks n_rep ≡ id → n_rep - id * 3000 ≡ 0
unfolding nchunks
chunks_end n_rep id h = ground arith

chunk_piece :
    (n_rep id : ℕ)
    → id < nchunks n_rep
    → (chunk_nrep n_rep id ≡ (if leb 3000 (n_rep - id * 3000) then 3000 else (n_rep - id * 3000)))
      × (0 < n_rep - id * 3000)
unfolding nchunks chunk_nrep
chunk_piece n_rep id h = ground arith

next_piece :
    (n_rep id : ℕ)
    → n_rep - id * 3000 - (if leb 3000 (n_rep - id * 3000) then 3000 else (n_rep - id * 3000))
      ≡ n_rep - (id + 1) * 3000
next_piece n_rep id = ground arith

right_distrib : (a b c : ℕ) → (a + b) * c ≡ a * c + b * c
right_distrib a b c = omega arith

module _ {T : Type 0} (window clock : Bool) (d : T) where
  -- The rows of the repetitions that are left, in pieces of 3000 and a last piece of what remains
  abbrev piece : ℕ → ℕ
  piece left = if leb 3000 left then 3000 else left

  abbrev pub described_left : ℕ → ℕ → ℕ → List (Process T) → List (Row T)
  described_left zero left id ps = []
  described_left (suc fuel) left id ps =
      let rest = described_left fuel (left - piece left) (id + 1) ps in
      if left == 0 then [] else (described_chunk window clock d (piece left) id 0 ps ++ rest)

  described_left_zero : (fuel id : ℕ) (ps : List (Process T)) → described_left fuel 0 id ps ≡ []
  described_left_zero zero id ps = refl
  described_left_zero (suc fuel) id ps = refl

  described_rows-left :
      (n_rep k fuel id left : ℕ) (ps : List (Process T))
      → nchunks n_rep ≡ id + k
      → left ≡ n_rep - id * 3000
      → left ≤ fuel
      → described_rows window clock d n_rep k id ps ≡ described_left fuel left id ps
  described_rows-left n_rep zero fuel id left ps total rest enough =
      let empty : left ≡ 0 = omega (arith, chunks_end n_rep id (omega arith)) in
      rw empty (sym (described_left_zero fuel id ps))
  described_rows-left n_rep (suc k) zero id left ps total rest enough =
      let (size, some_left) = chunk_piece n_rep id (omega arith) in absurd (omega (arith, rest))
  described_rows-left n_rep (suc k) (suc fuel) id left ps total rest enough =
      let (size, some_left) = chunk_piece n_rep id (omega arith) in
      let more : (left == 0) ≡ false = ground (arith, rest) in
      let as_piece : chunk_nrep n_rep id ≡ piece left = rw rest size in
      let after : left - piece left ≡ n_rep - (id + 1) * 3000 = rw rest (next_piece n_rep id) in
      let later : described_rows window clock d n_rep k (id + 1) ps
          ≡ described_left fuel (left - piece left) (id + 1) ps =
        described_rows-left n_rep k fuel (id + 1) (left - piece left) ps (omega arith) after
          (ground (arith, rest)) in
      rw (more, as_piece, later) refl

  length-described_chunk :
      (n id proc : ℕ) (ps : List (Process T))
      → length (described_chunk window clock d n id proc ps) ≡ n * length ps
  length-described_chunk n id proc [] = omega arith
  length-described_chunk n id proc (p ∷ ps) = omega (
    arith,
    length-append (tabulate (described window clock d p proc id) n 0)
        (described_chunk window clock d n id (proc + 1) ps),
    length-tabulate (described window clock d p proc id) n 0,
    length-described_chunk n id (proc + 1) ps,
  )

  length-described_left :
      (fuel left id : ℕ) (ps : List (Process T))
      → left ≤ fuel
      → length (described_left fuel left id ps) ≡ left * length ps
  length-described_left zero zero id ps enough = omega arith
  length-described_left zero (suc left) id ps enough = absurd (omega arith)
  length-described_left (suc fuel) zero id ps enough = omega arith
  length-described_left (suc fuel) (suc left) id ps enough =
      let later : length (described_left fuel (suc left - piece (suc left)) (id + 1) ps)
          ≡ (suc left - piece (suc left)) * length ps =
        length-described_left fuel (suc left - piece (suc left)) (id + 1) ps (ground arith) in
      let whole : piece (suc left) + (suc left - piece (suc left)) ≡ suc left = ground arith in
      let more : (suc left == 0) ≡ false = ground arith in
      rw more (
        length-append (described_chunk window clock d (piece (suc left)) id 0 ps)
          (described_left fuel (suc left - piece (suc left)) (id + 1) ps)
        ∙ ap₂ (λ a b. a + b) (length-described_chunk (piece (suc left)) id 0 ps) later
        ∙ sym (right_distrib (piece (suc left)) (suc left - piece (suc left)) (length ps))
        ∙ ap (λ n. n * length ps) whole)

  -- When the arrays of all processes have room for the repetitions, which are below 2^31, with less
  -- than 2^31 codes in 3000 repetitions of all processes: the verbose output has exactly
  -- one row for each repetition of each process. The rows stand in pieces of 3000 repetitions, the
  -- last one with the repetitions that remain, and in a piece process after process, each row
  -- with its measured times. The global times are those times on the global clock in the first
  -- piece only; in every later one they are the measured times again. The code is the one
  -- that stands at the position in the piece.
  pub print_measurement_results_lem :
      (n_rep : ℕ) (ps : List (Process T))
      → n_rep < 2 ^ 31
      → 3000 * length ps < 2 ^ 31
      → All (HasTimes n_rep) ps
      → (print_measurement_results window clock n_rep ps ≡ some (described_left n_rep n_rep 0 ps))
        × (length (described_left n_rep n_rep 0 ps) ≡ n_rep * length ps)
  unfolding print_measurement_results
  print_measurement_results_lem n_rep ps int few room = (
    all_rows_lem window clock d n_rep (nchunks n_rep) 0 ps ps (start-AreAfter window clock d ps)
          (omega arith) room
        ∙ ap (λ rows. some rows)
            (described_rows-left n_rep (nchunks n_rep) n_rep 0 n_rep ps (omega arith) (omega arith)
              (omega arith)),
    length-described_left n_rep n_rep 0 ps (omega arith),
  )
