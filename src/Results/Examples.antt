-- ===== src/Results/Examples.antt =====
-- Two processes and three repetitions, for
-- src/reprompi_bench/output_management/runtimes_computation.c and results_output.c.
use Prim.{tt}
use mathlib.Core.List.{foldr}
use mathlib.Core.Option.{none-ne-some, some-injective}
use reprompi_dev.Prelude.{
  ℕ, zero, suc, ◌+◌, ◌-◌, ◌*◌, ◌≤◌, ◌≡◌, refl, ap, ap₂, sym, ◌∙◌, Bool, true, false, Option, none,
  some, List, [], ◌∷◌, ◌>>=◌, >>=-eq-some, get_elem?, length, All, ltb, leb, arith, if◌then◌else◌,
}
use reprompi_dev.Prelude.Double.{Doubles}
use reprompi_dev.Results.{
  Process, Reductions, max_over_local_runtime, global_times, unknown_method, compute_runtimes,
  max_double, min_double, max_int,
}
use reprompi_dev.Results.Runtimes.{Reduces, column}
use reprompi_dev.Results.Job.{HasTimes, compute_runtimes_lem, code_at}
use reprompi_dev.Results.Summary.{Gsl, print_summary}
use reprompi_dev.Results.Verbose.{print_measurement_results}
use reprompi_dev.Results.Pieces.{described_left, print_measurement_results_lem}
use reprompi_dev.Results.Counted.{print_summary_lem}
use reprompi_dev.Results.Whole.{KeepsLength}

abbrev pub ticks : Doubles ℕ
ticks = record {
  plus = λ a b. a + b;
  minus = λ a b. a - b;
  times = λ a b. a * b;
  le = leb;
  lt = ltb;
}

-- A reduction that goes through the processes from the last one on
module _ {A : Type 0} (op : A → A → A) where
  abbrev pub zip : List A → List A → List A
  zip [] ys = []
  zip (x ∷ xs) [] = []
  zip (x ∷ xs) (y ∷ ys) = op x y ∷ zip xs ys

  zip_at :
      (xs ys : List A) (i : ℕ) (x y : A)
      → get_elem? xs i ≡ some x
      → get_elem? ys i ≡ some y
      → get_elem? (zip xs ys) i ≡ some (op x y)
  zip_at [] ys i x y h g = absurd (none-ne-some x h)
  zip_at (a ∷ xs) [] i x y h g = absurd (none-ne-some y g)
  zip_at (a ∷ xs) (b ∷ ys) zero x y h g =
      ap₂ (λ u v. some (op u v)) (some-injective _ _ h) (some-injective _ _ g)
  zip_at (a ∷ xs) (b ∷ ys) (suc i) x y h g = zip_at xs ys i x y h g

  abbrev pub reduction : List (List A) → List A
  reduction [] = []
  reduction (xs ∷ xss) = foldr zip xs xss

abbrev pub reductions : Reductions ℕ
reductions = record {
  on_doubles = λ op xss. reduction op xss;
  on_ints = λ op xss. reduction op xss;
}

pub reduction-Reduces :
    {A : Type 0} (op : A → A → A) → Reduces {A = A} (λ f xss. reduction f xss) op
unfolding Reduces
reduction-Reduces op xs [] i x others h g =
    let none_left : [] ≡ others = some-injective _ _ g in rw (← none_left) h
reduction-Reduces op xs (ys ∷ xss) i x others h g =
    let (y, at_y, rest) =
      >>=-eq-some (get_elem? ys i) (λ v. column xss i >>= (λ vs. some (v ∷ vs))) others g in
    let (vs, at_xss, whole) = >>=-eq-some (column xss i) (λ vs. some (y ∷ vs)) others rest in
    let split : y ∷ vs ≡ others = some-injective _ _ whole in
    rw (← split) (zip_at op ys _ i y _ at_y (reduction-Reduces op xs xss i x vs h at_xss))

length-zip :
    {A : Type 0} (op : A → A → A) (xs ys : List A)
    → length xs ≡ length ys
    → length (zip op xs ys) ≡ length ys
length-zip op [] ys h = h
length-zip op (x ∷ xs) [] h = absurd (omega arith)
length-zip op (x ∷ xs) (y ∷ ys) h = ap suc (length-zip op xs ys (omega arith))

pub reduction-KeepsLength :
    {A : Type 0} (op : A → A → A) → KeepsLength {A = A} (λ f xss. reduction f xss) op
unfolding KeepsLength
reduction-KeepsLength op xs [] same = refl
reduction-KeepsLength op xs (ys ∷ xss) (l, same) =
    length-zip op ys (reduction op (xs ∷ xss)) (l ∙ sym (reduction-KeepsLength op xs xss same))
    ∙ reduction-KeepsLength op xs xss same

abbrev pub first_process : Process ℕ
first_process = record {
  tstart_sec = 10 ∷ 20 ∷ 30 ∷ [];
  tend_sec = 15 ∷ 23 ∷ 39 ∷ [];
  errorcodes = 0 ∷ 0 ∷ 1 ∷ [];
  get_global_time = λ t. t;
}

abbrev pub second_process : Process ℕ
second_process = record {
  tstart_sec = 111 ∷ 121 ∷ 131 ∷ [];
  tend_sec = 114 ∷ 128 ∷ 136 ∷ [];
  errorcodes = 0 ∷ 0 ∷ 0 ∷ [];
  get_global_time = λ t. t - 100;
}

abbrev pub processes : List (Process ℕ)
processes = first_process ∷ second_process ∷ []

-- every value is the number of kept repetitions, or their sum
abbrev pub gsl : Gsl ℕ
gsl = record {
  sort = λ xs. xs;
  mean = λ xs. foldr (λ a b. a + b) 0 xs;
  median_from_sorted = λ xs. 0;
  variance = λ xs. 0;
  sd = λ xs. 0;
}

pub rooms : All (HasTimes 3) processes
unfolding HasTimes
rooms = ((omega arith, omega arith, omega arith), ((omega arith, omega arith, omega arith), tt))

local_times :
    compute_runtimes ticks reductions 3 true max_over_local_runtime processes
    ≡ some (5 ∷ 7 ∷ 9 ∷ [], some (0 ∷ 0 ∷ 1 ∷ []))
unfolding compute_runtimes reprompi_dev.Results.collect_errorcodes reprompi_dev.Results.slice
    reprompi_dev.Results.compute_by_method reprompi_dev.Results.compute_runtimes_local_clocks
    reprompi_dev.Results.differences
local_times = refl

compute_runtimes_lem_example :
    ((times : List ℕ) × (codes : Option (List ℕ)) × (compute_runtimes ticks reductions 3 true
          max_over_local_runtime processes
        ≡ some (times, codes))
      × (get_elem? times 1 ≡ some 7)
      × (code_at codes 1 ≡ some 0))
    × ((times : List ℕ) × (codes : Option (List ℕ)) × (compute_runtimes ticks reductions 3 true
            global_times processes
          ≡ some (times, codes))
        × (get_elem? times 1 ≡ some 8)
        × (code_at codes 1 ≡ some 0))
    × (compute_runtimes ticks reductions 3 true unknown_method processes ≡ none)
compute_runtimes_lem_example =
    compute_runtimes_lem ticks reductions 0 3 first_process (second_process ∷ []) rooms
      (reduction-Reduces (max_double ticks)) (reduction-Reduces (min_double ticks))
      (reduction-Reduces max_int) true 1 (omega arith)

print_summary_lem_example :
    (print_summary ticks reductions gsl 0 13 3 true max_over_local_runtime processes
      ≡ some (record { total_nrep = 3; valid_nrep = 2; values = 12 ∷ 5 ∷ 7 ∷ [] }))
    × (print_summary ticks reductions gsl 0 13 3 true global_times processes
        ≡ some (record { total_nrep = 3; valid_nrep = 2; values = 13 ∷ 5 ∷ 8 ∷ [] }))
    × (print_summary ticks reductions gsl 0 13 3 true unknown_method processes ≡ none)
unfolding reprompi_dev.Results.Summary.method_values reprompi_dev.Results.Summary.method_value
    reprompi_dev.Prelude.Text.same
print_summary_lem_example =
    print_summary_lem ticks reductions gsl 0 0 13 3 true first_process (second_process ∷ [])
      (omega arith) rooms (reduction-Reduces (max_double ticks))
      (reduction-KeepsLength (max_double ticks)) (reduction-Reduces (min_double ticks))
      (reduction-KeepsLength (min_double ticks)) (reduction-Reduces max_int)
      (reduction-KeepsLength max_int)

print_measurement_results_lem_example :
    (print_measurement_results true true 3 processes
      ≡ some (described_left true true 0 3 3 0 processes))
    × (length (described_left true true 0 3 3 0 processes) ≡ 6)
print_measurement_results_lem_example =
    print_measurement_results_lem true true 0 3 processes (omega arith) (omega arith) rooms
