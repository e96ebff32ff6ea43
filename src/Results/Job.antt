-- ===== src/Results/Job.antt =====
-- The run-times of a whole job, by `compute_runtimes` of
-- src/reprompi_bench/output_management/runtimes_computation.c.
use mathlib.Core.List.{foldr, map}
use mathlib.Core.Option.{some-injective}
use reprompi_dev.Prelude.{
  ℕ, zero, suc, ◌+◌, ◌<◌, ◌≤◌, ◌≡◌, refl, ap, ap₂, sym, ◌∙◌, Bool, true, false, Option, none, some,
  List, ◌∷◌, length, get_elem?, get_or, get_elem?-get_or, get_elem?_lt, tabulate,
  get_elem?-tabulate, All, if◌then◌else◌, arith,
}
use reprompi_dev.Prelude.Double.{Doubles}
use reprompi_dev.Results.{
  Process, Reductions, TimingMethod, max_over_local_runtime, global_times, unknown_method,
  compute_runtimes_local_clocks, compute_runtimes_global_clocks, collect_errorcodes,
  compute_by_method, compute_runtimes, max_double, min_double, max_int,
}
use reprompi_dev.Results.Runtimes.{
  Reduces, differences_lem, normalised_lem, slice_lem, on_all_lem, reduce-tabulate,
}

-- The arrays of a process have room for the repetitions.
unfoldable pub HasTimes : {T : Type 0} → ℕ → Process T → Type 0
HasTimes n p = (n ≤ length p.tstart_sec) × (n ≤ length p.tend_sec) × (n ≤ length p.errorcodes)

pub read_all :
    {A : Type 0} (xs : List A) (n : ℕ) (f : ℕ → A)
    → ((i : ℕ) → i < n → get_elem? xs i ≡ some (f i))
    → n ≤ length xs
read_all xs zero f h = omega arith
read_all xs (suc n) f h = omega (arith, get_elem?_lt xs n (f n) (h n (omega arith)))

pub read_or :
    {A : Type 0} (xs : List A) (i : ℕ) (x d : A) → get_elem? xs i ≡ some x → get_or xs i d ≡ x
read_or xs i x d h = some-injective _ _ (sym (get_elem?-get_or xs i d (get_elem?_lt xs i x h)) ∙ h)

module _ {T : Type 0} (double : Doubles T) (reduce : Reductions T) (d : T) where
  -- What a process contributes at an index: its own run-time, and its times on the global clock
  abbrev pub own : Process T → ℕ → T
  own p i = double.minus (get_or p.tend_sec i d) (get_or p.tstart_sec i d)

  abbrev pub started : Process T → ℕ → T
  started p i = p.get_global_time (get_or p.tstart_sec i d)

  abbrev pub ended : Process T → ℕ → T
  ended p i = p.get_global_time (get_or p.tend_sec i d)

  abbrev pub code : Process T → ℕ → ℕ
  code p i = get_or p.errorcodes i 0

  -- the value over all processes, rank 0 first
  abbrev pub over_all :
      {A : Type 0} → (A → A → A) → (Process T → ℕ → A) → Process T → List (Process T) → ℕ → A
  over_all op f p ps i = foldr op (f p i) (map (λ q. f q i) ps)

  module _ (nrep : ℕ) (p : Process T) (ps : List (Process T))
      (room : All (HasTimes nrep) (p ∷ ps)) where
    pub local_clocks :
        compute_runtimes_local_clocks double reduce 0 nrep (p ∷ ps)
        ≡ some (reduce.on_doubles (max_double double) (map (λ q. tabulate (own q) nrep 0) (p ∷ ps)))
    unfolding compute_runtimes_local_clocks HasTimes
    local_clocks =
        rw
          (on_all_lem _ (λ q. tabulate (own q) nrep 0) (HasTimes nrep)
            (λ q (a, b, c).
              differences_lem double d nrep 0 q.tstart_sec q.tend_sec (omega arith) (omega arith))
            (p ∷ ps) room)
          refl

    pub codes_of_all :
        collect_errorcodes double reduce 0 nrep (p ∷ ps)
        ≡ some (reduce.on_ints max_int (map (λ q. tabulate (code q) nrep 0) (p ∷ ps)))
    unfolding collect_errorcodes HasTimes
    codes_of_all =
        rw
          (on_all_lem _ (λ q. tabulate (code q) nrep 0) (HasTimes nrep)
            (λ q (a, b, c). slice_lem 0 nrep 0 q.errorcodes (omega arith)) (p ∷ ps) room)
          refl

    module _ (max_documented : Reduces reduce.on_doubles (max_double double))
        (min_documented : Reduces reduce.on_doubles (min_double double)) where
      global_clocks :
          (i : ℕ)
          → i < nrep
          → (xs : List T) × (compute_runtimes_global_clocks double reduce 0 nrep (p ∷ ps) ≡ some xs)
            × (get_elem? xs i
                ≡ some (
                    double.minus
                      (over_all (max_double double) ended p ps i)
                      (over_all (min_double double) started p ps i)))
      unfolding compute_runtimes_global_clocks HasTimes
      global_clocks i h =
          let starts : List T =
            reduce.on_doubles (min_double double)
              (map (λ q. tabulate (started q) nrep 0) (p ∷ ps)) in
          let ends : List T =
            reduce.on_doubles (max_double double) (map (λ q. tabulate (ended q) nrep 0) (p ∷ ps)) in
          let starts_at : (j : ℕ)
              → j < nrep
              → get_elem? starts j ≡ some (over_all (min_double double) started p ps j) =
            λ j g.
              reduce-tabulate reduce.on_doubles (min_double double) started nrep j p ps
                min_documented g in
          let ends_at : (j : ℕ)
              → j < nrep
              → get_elem? ends j ≡ some (over_all (max_double double) ended p ps j) =
            λ j g.
              reduce-tabulate reduce.on_doubles (max_double double) ended nrep j p ps max_documented
                g in
          let same : 0 + i ≡ i = omega arith in
          let value : get_elem?
                (tabulate (λ k. double.minus (get_or ends k d) (get_or starts k d)) nrep 0) i
              ≡ some (
                  double.minus (over_all (max_double double) ended p ps i)
                    (over_all (min_double double) started p ps i)) =
            get_elem?-tabulate (λ k. double.minus (get_or ends k d) (get_or starts k d)) nrep 0 i h
            ∙ ap (λ k. some (double.minus (get_or ends k d) (get_or starts k d))) same
            ∙ ap₂ (λ a b. some (double.minus a b)) (read_or ends i _ d (ends_at i h))
                (read_or starts i _ d (starts_at i h)) in
          rw
            (
              on_all_lem _ (λ q. tabulate (started q) nrep 0) (HasTimes nrep)
                  (λ q (a, b, c).
                    normalised_lem double d q.get_global_time nrep 0 q.tstart_sec (omega arith))
                  (p ∷ ps) room,
              on_all_lem _ (λ q. tabulate (ended q) nrep 0) (HasTimes nrep)
                  (λ q (a, b, c).
                    normalised_lem double d q.get_global_time nrep 0 q.tend_sec (omega arith))
                  (p ∷ ps) room,
            )
            (
              _,
              differences_lem double d nrep 0 starts ends
                  (omega (arith, read_all starts nrep _ starts_at))
                  (omega (arith, read_all ends nrep _ ends_at)),
              value,
            )

-- the code that is printed with a repetition, if there is one
abbrev pub code_at : Option (List ℕ) → ℕ → Option ℕ
code_at none i = none
code_at (some codes) i = get_elem? codes i

module _ {T : Type 0} (double : Doubles T) (reduce : Reductions T) (d : T) where
  -- The codes beside the times, if the method computes times.
  with_codes :
      (nrep : ℕ) (p : Process T) (ps : List (Process T))
      → All (HasTimes nrep) (p ∷ ps)
      → Reduces reduce.on_ints max_int
      → (window : Bool) (method : TimingMethod) (i : ℕ) (times : List T) → i < nrep
      → compute_by_method double reduce nrep method (p ∷ ps) ≡ some times
      → (codes : Option (List ℕ)) × (compute_runtimes double reduce nrep window method (p ∷ ps)
          ≡ some (times, codes))
        × (code_at codes i ≡ (
            if window
            then some (over_all double reduce d max_int (code double reduce d) p ps i)
            else none))
  unfolding compute_runtimes
  with_codes nrep p ps room documented false method i times h e = rw e (none, refl, refl)
  with_codes nrep p ps room documented true method i times h e =
      rw (codes_of_all double reduce d nrep p ps room, e)
        (
          _,
          refl,
          reduce-tabulate reduce.on_ints max_int (code double reduce d) nrep i p ps documented h,
        )

  pub unknown_is_error :
      (nrep : ℕ) (p : Process T) (ps : List (Process T))
      → All (HasTimes nrep) (p ∷ ps)
      → (window : Bool) → compute_runtimes double reduce nrep window unknown_method (p ∷ ps) ≡ none
  unfolding compute_runtimes compute_by_method
  unknown_is_error nrep p ps room false = refl
  unknown_is_error nrep p ps room true = rw (codes_of_all double reduce d nrep p ps room) refl

  -- When the arrays of all processes have room for the repetitions and the reductions are as
  -- MPI documents them: by the method of local clocks, the run-time of a repetition is that
  -- of the slowest process; by that of global clocks, the time from the first start to the
  -- last end on the global clock; any other method is an error. Beside it stands, under
  -- window-based synchronisation only, the largest code of all processes.
  pub compute_runtimes_lem :
      (nrep : ℕ) (p : Process T) (ps : List (Process T))
      → All (HasTimes nrep) (p ∷ ps)
      → Reduces reduce.on_doubles (max_double double)
      → Reduces reduce.on_doubles (min_double double)
      → Reduces reduce.on_ints max_int
      → (window : Bool) (i : ℕ) → i < nrep
      → ((times : List T) × (codes : Option (List ℕ)) × (compute_runtimes double reduce nrep window
              max_over_local_runtime
              (p ∷ ps)
            ≡ some (times, codes))
          × (get_elem? times i
              ≡ some (over_all double reduce d (max_double double) (own double reduce d) p ps i))
          × (code_at codes i ≡ (
              if window
              then some (over_all double reduce d max_int (code double reduce d) p ps i)
              else none)))
        × ((times : List T) × (codes : Option (List ℕ)) × (compute_runtimes double reduce nrep
                window global_times
                (p ∷ ps)
              ≡ some (times, codes))
            × (get_elem? times i
                ≡ some (
                    double.minus
                      (over_all double reduce d (max_double double) (ended double reduce d) p ps i)
                      (over_all double reduce d
                        (min_double double)
                        (started double reduce d)
                        p
                        ps
                        i)))
            × (code_at codes i ≡ (
                if window
                then some (over_all double reduce d max_int (code double reduce d) p ps i)
                else none)))
        × (compute_runtimes double reduce nrep window unknown_method (p ∷ ps) ≡ none)
  unfolding compute_by_method
  compute_runtimes_lem nrep p ps room max_doc min_doc int_doc window i h =
      let l : List T =
        reduce.on_doubles (max_double double)
          (map (λ q. tabulate (own double reduce d q) nrep 0) (p ∷ ps)) in
      let (l_codes, l_made, l_code) =
        with_codes nrep p ps room int_doc window max_over_local_runtime i l h
          (local_clocks double reduce d nrep p ps room) in
      let (g, g_times, g_at) = global_clocks double reduce d nrep p ps room max_doc min_doc i h in
      let (g_codes, g_made, g_code) =
        with_codes nrep p ps room int_doc window global_times i g h g_times in
      (
        (
          l,
          l_codes,
          l_made,
          reduce-tabulate reduce.on_doubles (max_double double) (own double reduce d) nrep i p ps
              max_doc h,
          l_code,
        ),
        (g, g_codes, g_made, g_at, g_code),
        unknown_is_error nrep p ps room window,
      )
