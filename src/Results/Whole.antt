-- ===== src/Results/Whole.antt =====
-- The whole arrays that src/reprompi_bench/output_management/runtimes_computation.c hands to the
-- output: what stands in them for every repetition.
use Prim.{tt}
use mathlib.Core.List.{foldr, map}
use mathlib.Core.Option.{some-injective}
use reprompi_dev.Prelude.{
  ℕ, zero, suc, ◌+◌, ◌<◌, ◌≡◌, refl, ap, ap₂, sym, ◌∙◌, some, List, [], ◌∷◌, length,
  length-tabulate, get_elem?, get_or, tabulate, get_elem?-tabulate, All, arith,
}
use reprompi_dev.Prelude.Double.{Doubles}
use reprompi_dev.Results.{
  Process, Reductions, max_over_local_runtime, global_times, compute_runtimes_global_clocks,
  collect_errorcodes, compute_by_method, max_double, min_double, max_int,
}
use reprompi_dev.Results.Runtimes.{
  Reduces, differences_lem, normalised_lem, on_all_lem, reduce-tabulate,
}
use reprompi_dev.Results.Job.{
  HasTimes, read_or, own, started, ended, code, over_all, local_clocks, codes_of_all,
}

-- What MPI documents of the result of a reduction: of arrays with the same number of elements, it
-- has as many.
unfoldable pub KeepsLength :
    {A : Type 0} → ((A → A → A) → List (List A) → List A) → (A → A → A) → Type 0
KeepsLength {A} reduce op =
    (xs : List A) (xss : List (List A))
    → All (λ ys. length ys ≡ length xs) xss
    → length (reduce op (xs ∷ xss)) ≡ length xs

same_lengths :
    {A B : Type 0} (f : A → ℕ → B) (n l : ℕ) (xs : List A)
    → l ≡ n
    → All (λ ys. length ys ≡ l) (map (λ y. tabulate (f y) n 0) xs)
same_lengths f n l [] e = tt
same_lengths f n l (x ∷ xs) e = (length-tabulate (f x) n 0 ∙ sym e, same_lengths f n l xs e)

-- A list is known by its elements.
elements :
    {A : Type 0} (xs : List A) (f : ℕ → A) (n k : ℕ)
    → length xs ≡ n
    → ((i : ℕ) → i < n → get_elem? xs i ≡ some (f (k + i)))
    → xs ≡ tabulate f n k
elements [] f zero k l h = refl
elements [] f (suc n) k l h = absurd (omega arith)
elements (x ∷ xs) f zero k l h = absurd (omega arith)
elements (x ∷ xs) f (suc n) k l h =
    let here : k + 0 ≡ k = omega arith in
    let next : (i : ℕ) → k + suc i ≡ k + 1 + i = λ i. omega arith in
    ap₂ (λ y ys. y ∷ ys) (some-injective x (f k) (h 0 (omega arith) ∙ ap (λ j. some (f j)) here))
      (elements xs f n (k + 1) (omega arith)
        (λ i lt. h (suc i) (omega arith) ∙ ap (λ j. some (f j)) (next i)))

reduced :
    {A B : Type 0} (reduce : (B → B → B) → List (List B) → List B) (op : B → B → B) (f : A → ℕ → B)
    (n : ℕ) (x : A) (xs : List A)
    → Reduces reduce op
    → KeepsLength reduce op
    → reduce op (map (λ y. tabulate (f y) n 0) (x ∷ xs))
      ≡ tabulate (λ i. foldr op (f x i) (map (λ y. f y i) xs)) n 0
unfolding KeepsLength
reduced reduce op f n x xs documented keeps =
    let same : (i : ℕ) → 0 + i ≡ i = λ i. omega arith in
    elements _ _ n 0
      (keeps _ _ (same_lengths f n _ xs (length-tabulate (f x) n 0)) ∙ length-tabulate (f x) n 0)
      (λ i lt.
        reduce-tabulate reduce op f n i x xs documented lt
        ∙ ap (λ j. some (foldr op (f x j) (map (λ y. f y j) xs))) (sym (same i)))

module _ {T : Type 0} (double : Doubles T) (reduce : Reductions T) (d : T) (p : Process T)
    (ps : List (Process T)) where
  -- from the first start to the last end on the global clock
  abbrev pub span : ℕ → T
  span i =
      double.minus (over_all double reduce d (max_double double) (ended double reduce d) p ps i)
        (over_all double reduce d (min_double double) (started double reduce d) p ps i)

module _ {T : Type 0} (double : Doubles T) (reduce : Reductions T) (d : T) (nrep : ℕ)
    (p : Process T) (ps : List (Process T)) (room : All (HasTimes nrep) (p ∷ ps)) where
  pub whole_codes :
      Reduces reduce.on_ints max_int
      → KeepsLength reduce.on_ints max_int
      → collect_errorcodes double reduce 0 nrep (p ∷ ps)
        ≡ some (tabulate (over_all double reduce d max_int (code double reduce d) p ps) nrep 0)
  whole_codes documented keeps =
      codes_of_all double reduce d nrep p ps room
      ∙ ap (λ xs. some xs)
          (reduced reduce.on_ints max_int (code double reduce d) nrep p ps documented keeps)

  module _ (max_documented : Reduces reduce.on_doubles (max_double double))
      (max_keeps : KeepsLength reduce.on_doubles (max_double double)) where
    pub whole_local :
        compute_by_method double reduce nrep max_over_local_runtime (p ∷ ps)
        ≡ some (
            tabulate
              (over_all double reduce d (max_double double) (own double reduce d) p ps)
              nrep
              0)
    unfolding compute_by_method
    whole_local =
        local_clocks double reduce d nrep p ps room
        ∙ ap (λ xs. some xs)
            (reduced reduce.on_doubles (max_double double) (own double reduce d) nrep p ps
              max_documented max_keeps)

    pub whole_global :
        Reduces reduce.on_doubles (min_double double)
        → KeepsLength reduce.on_doubles (min_double double)
        → compute_by_method double reduce nrep global_times (p ∷ ps)
          ≡ some (tabulate (span double reduce d p ps) nrep 0)
    unfolding compute_by_method compute_runtimes_global_clocks HasTimes
    whole_global min_documented min_keeps =
        let first : ℕ → T =
          over_all double reduce d (min_double double) (started double reduce d) p ps in
        let last : ℕ → T =
          over_all double reduce d (max_double double) (ended double reduce d) p ps in
        let same : (i : ℕ) → 0 + i ≡ i = λ i. omega arith in
        let at : (f : ℕ → T) (i : ℕ) → i < nrep → get_or (tabulate f nrep 0) i d ≡ f (0 + i) =
          λ f i lt.
            read_or (tabulate f nrep 0) i (f (0 + i)) d (get_elem?-tabulate f nrep 0 i lt) in
        let spans : tabulate
              (λ i.
                double.minus (get_or (tabulate last nrep 0) i d)
                  (get_or (tabulate first nrep 0) i d))
              nrep 0
            ≡ tabulate (span double reduce d p ps) nrep 0 =
          elements _ (span double reduce d p ps) nrep 0 (length-tabulate _ nrep 0) (λ i lt.
            get_elem?-tabulate _ nrep 0 i lt
            ∙ ap
                (λ j. some (
                  double.minus (get_or (tabulate last nrep 0) j d)
                    (get_or (tabulate first nrep 0) j d)))
                (same i)
            ∙ ap₂ (λ a b. some (double.minus a b)) (at last i lt) (at first i lt)) in
        rw
          (
            on_all_lem _ (λ q. tabulate (started double reduce d q) nrep 0) (HasTimes nrep)
                (λ q (a, b, c).
                  normalised_lem double d q.get_global_time nrep 0 q.tstart_sec (omega arith))
                (p ∷ ps) room,
            on_all_lem _ (λ q. tabulate (ended double reduce d q) nrep 0) (HasTimes nrep)
                (λ q (a, b, c).
                  normalised_lem double d q.get_global_time nrep 0 q.tend_sec (omega arith))
                (p ∷ ps) room,
            reduced reduce.on_doubles (min_double double) (started double reduce d) nrep p ps
                min_documented min_keeps,
            reduced reduce.on_doubles (max_double double) (ended double reduce d) nrep p ps
                max_documented max_keeps,
          )
          (differences_lem double d nrep 0 (tabulate first nrep 0) (tabulate last nrep 0)
              (omega (arith, length-tabulate first nrep 0))
              (omega (arith, length-tabulate last nrep 0))
            ∙ ap (λ xs. some xs) spans)
