-- ===== src/Library/Output/Reduced.antt =====
-- The run-times of a job, reduced over the processes:
-- src/reprompi_bench/benchmark_lib/results_output.c.
use mathlib.Core.List.{map}
use mathlib.Core.Path.{subst}
use mathlib.Core.Option.{some-injective}
use reprompi_dev.Prelude.{
  ℕ, ◌^◌, zero, suc, ◌<◌, ◌≤◌, ◌≡◌, refl, ap, ap₂, sym, ◌∙◌, Bool, true, false, Bool-cases, inl,
  inr, some, List, [], ◌∷◌, length, get_elem?, tabulate, All, if◌then◌else◌, arith,
}
use reprompi_dev.Prelude.Text.{Str, same, ascii}
use reprompi_dev.Prelude.Double.{Doubles}
use reprompi_dev.Results.{Process, Reductions, min_double, max_double}
use reprompi_dev.Results.Runtimes.{Reduces, differences_lem, on_all_lem, reduce-tabulate}
use reprompi_dev.Results.Job.{HasTimes, own, over_all, read_all}
use reprompi_dev.Library.Output.{
  operation, divide_front, compute_runtimes_local_clocks_with_reduction,
}

-- The division of the first values
divide_front_lem :
    {T : Type 0} (f : T → T) (n : ℕ) (xs : List T)
    → n ≤ length xs
    → (ys : List T) × (divide_front f n xs ≡ some ys)
      × ((i : ℕ) (x : T) → i < n → get_elem? xs i ≡ some x → get_elem? ys i ≡ some (f x))
unfolding divide_front
divide_front_lem f zero xs h = (xs, refl, λ i x l. absurd (omega arith))
divide_front_lem f (suc n) [] h = absurd (omega arith)
divide_front_lem {T} f (suc n) (x ∷ xs) h =
    let (ys, made, at) = divide_front_lem f n xs (omega arith) in
    rw made (f x ∷ ys, refl, entries ys at)
  where
    entries :
        (ys : List T)
        → ((i : ℕ) (z : T) → i < n → get_elem? xs i ≡ some z → get_elem? ys i ≡ some (f z))
        → (i : ℕ) (z : T) → i < suc n
        → get_elem? (x ∷ xs) i ≡ some z
        → get_elem? (f x ∷ ys) i ≡ some (f z)
    entries ys at zero z l e = ap (λ r. some (f r)) (some-injective x z e)
    entries ys at (suc i) z l e = at i z (omega arith) e

module _ {T : Type 0} (double : Doubles T) (divide : T → ℕ → T) (reduce : Reductions T)
    (d : T) where
  -- the operation of each name
  operation_mean :
      (op : Str) → same (ascii "mean") op ≡ true → operation double divide reduce op ≡ double.plus
  unfolding operation
  operation_mean op mean =
      ap
        (λ (t : Bool). λ (a b : T).
          if t
          then double.plus a b
          else if same (ascii "min") op
          then min_double double a b
          else max_double double a b)
        mean

  operation_min :
      (op : Str)
      → same (ascii "mean") op ≡ false
      → same (ascii "min") op ≡ true
      → operation double divide reduce op ≡ min_double double
  unfolding operation
  operation_min op other min =
      ap₂
        (λ (t u : Bool). λ (a b : T).
          if t then double.plus a b else if u then min_double double a b else max_double double a b)
        other min

  operation_max :
      (op : Str)
      → same (ascii "mean") op ≡ false
      → same (ascii "min") op ≡ false
      → operation double divide reduce op ≡ max_double double
  unfolding operation
  operation_max op other max =
      ap₂
        (λ (t u : Bool). λ (a b : T).
          if t then double.plus a b else if u then min_double double a b else max_double double a b)
        other max

  operation-Reduces :
      (op : Str)
      → Reduces reduce.on_doubles double.plus
      → Reduces reduce.on_doubles (min_double double)
      → Reduces reduce.on_doubles (max_double double)
      → Reduces reduce.on_doubles (operation double divide reduce op)
  operation-Reduces op sums least greatest = elim (Bool-cases (same (ascii "mean") op)) [
    | inl mean ↦ subst (λ f. Reduces reduce.on_doubles f) (sym (operation_mean op mean)) sums
    | inr other ↦ elim (Bool-cases (same (ascii "min") op)) [
      | inl min ↦ subst (λ f. Reduces reduce.on_doubles f) (sym (operation_min op other min)) least
      | inr max ↦
          subst (λ f. Reduces reduce.on_doubles f) (sym (operation_max op other max)) greatest
    ]
  ]

  -- When the arrays of all processes have room for the repetitions, which are below 2^31, and the
  -- reductions by sum, minimum and maximum are as MPI documents them, the run-time of a repetition
  -- is made from the own run-times of all processes: their sum divided by the number of processes
  -- for "mean", the least for "min" and else the greatest.
  pub reduced_runtimes_lem :
      (op : Str) (nrep : ℕ) (p : Process T) (ps : List (Process T))
      → nrep < 2 ^ 31
      → All (HasTimes nrep) (p ∷ ps)
      → Reduces reduce.on_doubles double.plus
      → Reduces reduce.on_doubles (min_double double)
      → Reduces reduce.on_doubles (max_double double)
      → (i : ℕ) → i < nrep
      → (xs : List T) × (compute_runtimes_local_clocks_with_reduction double divide reduce 0 nrep op
            (p ∷ ps)
          ≡ some xs)
        × (get_elem? xs i
            ≡ some (
                if same (ascii "mean") op
                then divide
                    (over_all double reduce d double.plus (own double reduce d) p ps i)
                    (length (p ∷ ps))
                else if same (ascii "min") op
                then over_all double reduce d (min_double double) (own double reduce d) p ps i
                else over_all double reduce d (max_double double) (own double reduce d) p ps i))
  unfolding compute_runtimes_local_clocks_with_reduction HasTimes
  reduced_runtimes_lem op nrep p ps int room sums least greatest i h =
      let documented = operation-Reduces op sums least greatest in
      let each : List (List T) = map (λ q. tabulate (own double reduce d q) nrep 0) (p ∷ ps) in
      let reduced : List T = reduce.on_doubles (operation double divide reduce op) each in
      let locals =
        on_all_lem _ (λ q. tabulate (own double reduce d q) nrep 0) (HasTimes nrep)
          (λ q (a, b, c).
            differences_lem double d nrep 0 q.tstart_sec q.tend_sec (omega arith) (omega arith))
          (p ∷ ps) room in
      let at = λ (j : ℕ) (l : j < nrep).
        reduce-tabulate reduce.on_doubles (operation double divide reduce op) (own double reduce d)
          nrep j p ps documented l in
      elim (Bool-cases (same (ascii "mean") op)) [
        | inl mean ↦
            let (ys, made, divided) =
              divide_front_lem (λ x. divide x (length (p ∷ ps))) nrep reduced
                (omega (arith, read_all reduced nrep _ at)) in
            let value =
              ap (λ f. over_all double reduce d f (own double reduce d) p ps i)
                (operation_mean op mean) in
            rw (mean, locals, made)
              (ys, refl, divided i _ h (at i h) ∙ ap (λ x. some (divide x (length (p ∷ ps)))) value)
        | inr other ↦ elim (Bool-cases (same (ascii "min") op)) [
          | inl min ↦
              let value =
                ap (λ f. over_all double reduce d f (own double reduce d) p ps i)
                  (operation_min op other min) in
              rw (other, locals, min) (reduced, refl, at i h ∙ ap some value)
          | inr max ↦
              let value =
                ap (λ f. over_all double reduce d f (own double reduce d) p ps i)
                  (operation_max op other max) in
              rw (other, locals, max) (reduced, refl, at i h ∙ ap some value)
        ]
      ]
