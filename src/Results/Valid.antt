-- ===== src/Results/Valid.antt =====
-- That the loop of `print_summary`, src/reprompi_bench/output_management/results_output.c, keeps the
-- run-times of valid repetitions and no others.
use Prim.{Unit}
use reprompi_dev.Prelude.{
  ℕ, suc, ◌+◌, ◌^◌, ◌<◌, ◌≡◌, refl, ap, ap₂, sym, ◌∙◌, inl, inr, Bool, true, false, Option, none,
  some, List, [], ◌∷◌, ◌++◌, length, length-append, set-append, snoc-append, append_nil, get_elem?,
  set, take-append, ltb, lt→ltb, Bool-cases, ◌==◌, if◌then◌else◌, arith,
}
use reprompi_dev.Prelude.Double.{Doubles}
use reprompi_dev.Results.{Process, Reductions, TimingMethod, compute_runtimes}
use reprompi_dev.Results.Summary.{
  compact, remove_invalid, Gsl, method_values, summary_methods, int_count, print_summary,
}

-- The run-times whose code is 0, in order
abbrev pub valid : {T : Type 0} → List ℕ → List T → List T
valid [] times = []
valid (c ∷ codes) [] = []
valid (c ∷ codes) (t ∷ times) = let rest = valid codes times in if c == 0 then t ∷ rest else rest

module _ {A : Type 0} where
  get_elem?-append :
      (xs : List A) (y : A) (ys : List A) → get_elem? (xs ++ y ∷ ys) (length xs) ≡ some y
  get_elem?-append [] y ys = refl
  get_elem?-append (x ∷ xs) y ys = get_elem?-append xs y ys

  length-snoc : (xs : List A) (x : A) → length (xs ++ x ∷ []) ≡ length xs + 1
  length-snoc xs x = omega (arith, length-append xs (x ∷ []))

  -- reading behind two parts
  get_elem?-append_two :
      (xs ys : List A) (y : A) (zs : List A)
      → get_elem? (xs ++ (ys ++ y ∷ zs)) (length xs + length ys) ≡ some y
  get_elem?-append_two [] ys y zs =
      let same : 0 + length ys ≡ length ys = omega arith in rw same (get_elem?-append ys y zs)
  get_elem?-append_two (x ∷ xs) ys y zs =
      let same : suc (length xs) + length ys ≡ suc (length xs + length ys) = omega arith in
      rw same (get_elem?-append_two xs ys y zs)

module _ {T : Type 0} where
  -- One step of the loop, with what it keeps in front of what it has passed over
  abbrev array : List T → List T → List T → List T
  array kept passed left = kept ++ (passed ++ left)

  -- A valid run-time joins those that are kept, in place of the first one passed over.
  moved_array :
      (i : ℕ) (kept passed left : List T) (t : T)
      → i ≡ length kept + length passed
      → (passed' : List T) × (length passed' ≡ length passed)
        × ((if ltb (length kept) i
              then set (array kept passed (t ∷ left)) (length kept) t
              else array kept passed (t ∷ left))
            ≡ array (kept ++ t ∷ []) passed' left)
  moved_array i kept [] left t h =
      let still : ltb (length kept) i ≡ false = ground arith in
      rw still ([], refl, snoc-append kept t left)
  moved_array i kept (p ∷ passed) left t h =
      let behind : ltb (length kept) i ≡ true = lt→ltb (length kept) i (omega arith) in
      let grown : length (passed ++ t ∷ []) ≡ suc (length passed) =
        omega (arith, length-append passed (t ∷ [])) in
      rw behind (
        passed ++ t ∷ [],
        grown,
        set-append kept p t (passed ++ t ∷ left)
            ∙ snoc-append kept t (passed ++ t ∷ left)
            ∙ ap (λ zs. (kept ++ t ∷ []) ++ zs) (snoc-append passed t left),
      )

  -- The loop from a point on, with `kept` and `passed` behind it
  compact_from :
      (seen codes : List ℕ) (kept passed left : List T)
      → length codes ≡ length left
      → length seen ≡ length kept + length passed
      → (tail : List T) × (compact
            (length left)
            (length seen)
            (length kept)
            (seen ++ codes)
            (array kept passed left)
          ≡ some (length (kept ++ valid codes left), (kept ++ valid codes left) ++ tail))
  unfolding compact
  compact_from seen [] kept passed [] h g =
      rw (append_nil kept) (passed, ap (λ xs. some (length kept, kept ++ xs)) (append_nil passed))
  compact_from seen [] kept passed (t ∷ left) h g = absurd (omega arith)
  compact_from seen (c ∷ codes) kept passed [] h g = absurd (omega arith)
  compact_from seen (c ∷ codes) kept passed (t ∷ left) h g =
      let time_read : get_elem? (array kept passed (t ∷ left)) (length seen) ≡ some t =
        rw g (get_elem?-append_two kept passed t left) in
      elim (Bool-cases (c == 0)) [
        | inl good ↦
            let (passed', same, moved) = moved_array (length seen) kept passed left t g in
            rw
              (
                get_elem?-append seen c codes,
                time_read,
                good,
                moved,
                ← length-snoc seen c,
                ← length-snoc kept t,
                snoc-append seen c codes,
                snoc-append kept t (valid codes left),
              )
              (compact_from (seen ++ c ∷ []) codes (kept ++ t ∷ []) passed' left (omega arith)
                (omega (arith, length-snoc seen c, length-snoc kept t)))
        | inr bad ↦
            rw
              (
                get_elem?-append seen c codes,
                time_read,
                bad,
                ← length-snoc seen c,
                snoc-append seen c codes,
                snoc-append passed t left,
              )
              (compact_from (seen ++ c ∷ []) codes kept (passed ++ t ∷ []) left (omega arith)
                (omega (arith, length-snoc seen c, length-snoc passed t)))
      ]

pub int_count_small : (n : ℕ) → n < 2 ^ 31 → int_count n ≡ some n
unfolding int_count
int_count_small n h = ground arith

-- the valid run-times of a job, all of them where there are no codes
abbrev pub valid_times : {T : Type 0} → Option (List ℕ) → List T → List T
valid_times none times = times
valid_times (some codes) times = valid codes times

-- a code for each run-time, if there are codes
unfoldable pub HasCodes : Option (List ℕ) → ℕ → Type 0
HasCodes none n = Unit {0}
HasCodes (some codes) n = length codes ≡ n

remove_invalid_lem :
    {T : Type 0} (codes : Option (List ℕ)) (times : List T) (n_rep : ℕ)
    → length times ≡ n_rep
    → HasCodes codes n_rep
    → (tail : List T) × (remove_invalid n_rep codes times
        ≡ some (length (valid_times codes times), valid_times codes times ++ tail))
unfolding remove_invalid HasCodes
remove_invalid_lem none times n_rep h g =
    ([], ap₂ (λ n xs. some (n, xs)) (sym h) (sym (append_nil times)))
remove_invalid_lem (some codes) times n_rep h g =
    rw (← h) (compact_from [] codes [] [] times (omega arith) (omega arith))

-- The line from the run-times and the codes of all repetitions
pub summary_from :
    {T : Type 0} (double : Doubles T) (reduce : Reductions T) (gsl : Gsl T) (zero_sec : T)
    (methods n_rep : ℕ) (window : Bool) (method : TimingMethod) (processes : List (Process T))
    (times : List T) (codes : Option (List ℕ))
    → n_rep < 2 ^ 31
    → compute_runtimes double reduce n_rep window method processes ≡ some (times, codes)
    → length times ≡ n_rep
    → HasCodes codes n_rep
    → print_summary double reduce gsl zero_sec methods n_rep window method processes
      ≡ some (record {
        total_nrep = n_rep;
        valid_nrep = length (valid_times codes times);
        values =
            method_values gsl zero_sec methods
              (length (valid_times codes times))
              (gsl.sort (valid_times codes times))
              summary_methods;
      })
unfolding print_summary
summary_from double reduce gsl zero_sec methods n_rep window method processes times codes int made h
      g =
    let (tail, e) = remove_invalid_lem codes times n_rep h g in
    rw (int_count_small n_rep int, made, e, take-append (valid_times codes times) tail) refl
