-- ===== src/RoundTime/Bcast/Estimate.antt =====
-- That the estimate of src/reprompi_bench/sync/process_sync/round_sync_common.c is that of the
-- slowest process.
use Prim.{Unit, tt}
use mathlib.Core.List.{foldr, map}
use mathlib.Core.Path.{subst}
use mathlib.Core.Option.{none-ne-some, some-injective}
use reprompi_dev.Prelude.{
  ℕ, zero, suc, ◌+◌, ◌-◌, ◌*◌, ◌^◌, ◌<◌, ◌≡◌, refl, ap, ap₂, sym, ◌∙◌, ◌||◌, Bool, Bool-cases, inl,
  inr, true, false, Option, none, some, ◌>>=◌, List, [], ◌∷◌, length, length-tabulate, get_or,
  get_elem?-get_or, tabulate, All, if◌then◌else◌, arith,
}
use reprompi_dev.Prelude.Int.{ℤ, pos, negsuc}
use reprompi_dev.Prelude.Text.{Str, same, ascii, eq-same}
use reprompi_dev.Prelude.Double.{Doubles}
use reprompi_dev.Results.{Reductions, max_double}
use reprompi_dev.Results.Runtimes.{Reduces, reduce-tabulate, on_all_lem}
use reprompi_dev.Results.Summary.{Gsl}
use reprompi_dev.RoundTime.Bcast.{
  BcastMeasure, bcast_measure_mean, bcast_measure_median, bcast_measure_max, BcastParams, BcastFlag,
  bcast_mult, bcast_nrep, bcast_measure, other_bcast_flag, named_measure, parse_bcast_flags,
  positive_nrep, int_loop, parse_bcast_options, bcast_times, own_estimate, measure_bcast_runtime,
}

accepted :
    {P : Type 0} (t : Bool) (o : Option ℕ) (q p : P)
    → (if t then none else (o >>= (λ n. some q))) ≡ some p
    → (t ≡ false) × (n : ℕ) × (o ≡ some n) × (q ≡ p)
accepted true o q p h = absurd (none-ne-some p h)
accepted false none q p h = absurd (none-ne-some p h)
accepted false (some n) q p h = (refl, n, refl, some-injective q p h)

int_loop_lem : (n : ℕ) → n < 2 ^ 31 → int_loop n ≡ some n
unfolding int_loop
int_loop_lem n h = ground arith

-- a number that an `int` can hold
abbrev pub BelowInt : ℤ → Type 0
BelowInt (pos n) = n < 2 ^ 31
BelowInt (negsuc n) = Unit {0}

counted_lem : (z : ℤ) (n : ℕ) → positive_nrep z ≡ some n → (z ≡ pos n) × (0 < n)
unfolding positive_nrep
counted_lem (pos zero) n h = absurd (none-ne-some n h)
counted_lem (pos (suc k)) n h =
    let same : suc k ≡ n = some-injective (suc k) n h in (ap pos same, omega arith)
counted_lem (negsuc k) n h = absurd (none-ne-some n h)

trivially-All : {A : Type 0} (xs : List A) → All (λ x. Unit {0}) xs
trivially-All [] = tt
trivially-All (x ∷ xs) = (tt, trivially-All xs)

-- The name of the statistic that the options ask for: the last known one of them
abbrev is_known : Str → Bool
is_known arg = same arg (ascii "mean") || same arg (ascii "median") || same arg (ascii "max")

abbrev pub asked : {T : Type 0} → Str → List (BcastFlag T) → Str
asked name [] = name
asked name (bcast_mult x ∷ flags) = asked name flags
asked name (bcast_nrep n ∷ flags) = asked name flags
asked name (bcast_measure arg ∷ flags) = asked (if is_known arg then arg else name) flags
asked name (other_bcast_flag ∷ flags) = asked name flags

name_of : BcastMeasure → Str
name_of bcast_measure_mean = ascii "mean"
name_of bcast_measure_median = ascii "median"
name_of bcast_measure_max = ascii "max"

named_measure_lem :
    (arg : Str) (before : BcastMeasure)
    → name_of (named_measure arg before) ≡ (if is_known arg then arg else name_of before)
unfolding named_measure name_of
named_measure_lem arg before = elim (Bool-cases (same arg (ascii "mean"))) [
  | inl mean ↦ rw mean (sym (eq-same arg (ascii "mean") mean))
  | inr a ↦ elim (Bool-cases (same arg (ascii "median"))) [
    | inl median ↦ rw (a, median) (sym (eq-same arg (ascii "median") median))
    | inr b ↦ elim (Bool-cases (same arg (ascii "max"))) [
      | inl max ↦ rw (a, b, max) (sym (eq-same arg (ascii "max") max))
      | inr c ↦ rw (a, b, c) refl
    ]
  ]
]

parse_bcast_flags_lem :
    {T : Type 0} (flags : List (BcastFlag T)) (p : BcastParams T)
    → name_of (parse_bcast_flags flags p).bcast_meas ≡ asked (name_of p.bcast_meas) flags
unfolding parse_bcast_flags
parse_bcast_flags_lem [] p = refl
parse_bcast_flags_lem (bcast_mult x ∷ flags) p =
    parse_bcast_flags_lem flags (record p { bcast_multiplier = x })
parse_bcast_flags_lem (bcast_nrep n ∷ flags) p =
    parse_bcast_flags_lem flags (record p { bcast_n_rep = n })
parse_bcast_flags_lem (bcast_measure arg ∷ flags) p =
    parse_bcast_flags_lem flags (record p { bcast_meas = named_measure arg p.bcast_meas })
    ∙ ap (λ name. asked name flags) (named_measure_lem arg p.bcast_meas)
parse_bcast_flags_lem (other_bcast_flag ∷ flags) p = parse_bcast_flags_lem flags p

module _ {T : Type 0} (double : Doubles T) (gsl : Gsl T) (reduce : Reductions T)
    (one three d : T) where
  -- broadcast `i` lasts from reading `2 i + 1` of the clock to the next one.
  abbrev pub lasted : (ℕ → T) → ℕ → T
  lasted time i = double.minus (time (2 * i + 2)) (time (2 * i + 1))

  bcast_times-lasted :
      (time : ℕ → T) (n j : ℕ)
      → bcast_times double gsl reduce time n (2 * j + 1) ≡ tabulate (lasted time) n j
  unfolding bcast_times
  bcast_times-lasted time zero j = refl
  bcast_times-lasted time (suc n) j =
      let stop : 2 * j + 1 + 1 ≡ 2 * j + 2 = omega arith in
      let next : 2 * j + 1 + 2 ≡ 2 * (j + 1) + 1 = omega arith in
      ap₂ (λ k l. double.minus (time k) (time (2 * j + 1)) ∷ bcast_times double gsl reduce time n l)
        stop next
      ∙ ap (λ xs. lasted time j ∷ xs) (bcast_times-lasted time n (j + 1))

  -- a statistic by its name, of the times of one process
  abbrev pub statistic : Str → ℕ → (ℕ → T) → T
  statistic name n time =
      if same name (ascii "median")
      then gsl.median_from_sorted (gsl.sort (tabulate (lasted time) n 0))
      else if same name (ascii "max")
      then get_or (gsl.sort (tabulate (lasted time) n 0)) (n - 1) d
      else gsl.mean (gsl.sort (tabulate (lasted time) n 0))

  own_estimate_lem :
      (m : BcastMeasure) (n : ℕ) (time : ℕ → T)
      → ((xs : List T) → length (gsl.sort xs) ≡ length xs)
      → 0 < n
      → own_estimate double gsl reduce m n time ≡ some (statistic (name_of m) n time)
  unfolding own_estimate same name_of
  own_estimate_lem bcast_measure_mean n time keeps h = rw (bcast_times-lasted time n 0) refl
  own_estimate_lem bcast_measure_median n time keeps h = rw (bcast_times-lasted time n 0) refl
  own_estimate_lem bcast_measure_max n time keeps h = rw (bcast_times-lasted time n 0) (
      get_elem?-get_or (gsl.sort (tabulate (lasted time) n 0)) (n - 1) d
        (omega (arith, keeps (tabulate (lasted time) n 0), length-tabulate (lasted time) n 0)))

  estimate :
      (p : BcastParams T) (n : ℕ)
      → positive_nrep p.bcast_n_rep ≡ some n
      → 0 < n
      → n < 2 ^ 31
      → (time : ℕ → T) (times : List (ℕ → T)) → ((xs : List T) → length (gsl.sort xs) ≡ length xs)
      → Reduces reduce.on_doubles (max_double double)
      → measure_bcast_runtime double gsl reduce p (time ∷ times)
        ≡ some (
            foldr
              (max_double double)
              (statistic (name_of p.bcast_meas) n time)
              (map (statistic (name_of p.bcast_meas) n) times))
  unfolding measure_bcast_runtime
  estimate p n counted h int time times keeps documented =
      let f : (ℕ → T) → ℕ → T = λ t i. statistic (name_of p.bcast_meas) n t in
      let own : (t : ℕ → T)
          → Unit {0}
          → (own_estimate double gsl reduce p.bcast_meas n t >>= (λ x. some (x ∷ [])))
            ≡ some (tabulate (f t) 1 0) =
        λ t all. rw (own_estimate_lem p.bcast_meas n t keeps h) refl in
      rw
        (
          counted,
          int_loop_lem n int,
          on_all_lem _ (λ t. tabulate (f t) 1 0) (λ t. Unit {0}) own (time ∷ times)
              (trivially-All (time ∷ times)),
        )
        (reduce-tabulate reduce.on_doubles (max_double double) f 1 0 time times documented
          (omega arith))

  -- When the options are accepted with less than 2^31 broadcasts, sorting keeps the number of
  -- values and the reduction is as MPI documents it: the multiplier is not below one, at least one
  -- broadcast is measured, and the estimate is the greatest value, over all processes, of the
  -- statistic of its times: the one that the options name last among mean, median and max, the mean
  -- if none does. Time `i` of a process is the difference of the readings `2 i + 2` and `2 i + 1`
  -- of its clock, and the maximum is the last of the sorted times.
  pub measure_bcast_runtime_lem :
      (flags : List (BcastFlag T)) (p : BcastParams T) (time : ℕ → T) (times : List (ℕ → T))
      → parse_bcast_options double one three flags ≡ some p
      → BelowInt p.bcast_n_rep
      → ((xs : List T) → length (gsl.sort xs) ≡ length xs)
      → Reduces reduce.on_doubles (max_double double)
      → (double.lt p.bcast_multiplier one ≡ false)
        × (n : ℕ) × (p.bcast_n_rep ≡ pos n)
        × (0 < n)
        × (measure_bcast_runtime double gsl reduce p (time ∷ times)
            ≡ some (
                foldr
                  (max_double double)
                  (statistic (asked (ascii "mean") flags) n time)
                  (map (statistic (asked (ascii "mean") flags) n) times)))
  unfolding parse_bcast_options name_of
  measure_bcast_runtime_lem flags p time times parsed below keeps documented =
      let q : BcastParams T = parse_bcast_flags flags (record {
        bcast_n_rep = pos 10;
        bcast_multiplier = three;
        bcast_meas = bcast_measure_mean;
      }) in
      let (large, n, counted, parsed_as) =
        accepted (double.lt q.bcast_multiplier one) (positive_nrep q.bcast_n_rep) q p parsed in
      let (nrep, some_bcasts) = counted_lem q.bcast_n_rep n counted in
      let named = parse_bcast_flags_lem flags (record {
        bcast_n_rep = pos 10;
        bcast_multiplier = three;
        bcast_meas = bcast_measure_mean;
      }) in
      let int : n < 2 ^ 31 =
        subst BelowInt nrep (subst (λ r. BelowInt r.bcast_n_rep) (sym parsed_as) below) in
      let made = estimate q n counted some_bcasts int time times keeps documented in
      rw (← named, ← parsed_as) (large, n, nrep, some_bcasts, made)
