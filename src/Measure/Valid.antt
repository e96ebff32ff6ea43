-- ===== src/Measure/Valid.antt =====
-- Only valid measurements are reported.
use mathlib.Core.List.{append_assoc}
use mathlib.Core.Option.{none-ne-some, some-injective}
use reprompi_dev.Prelude.{
  ℕ, suc, ◌≡◌, ◌≤◌, ◌<◌, refl, ap, sym, ◌∙◌, ◌⊎◌, true, some, List, [], ◌∷◌, ◌++◌, arith, length,
  length-append, if◌then◌else◌, ◌==◌, inl, inr,
}
use reprompi_dev.Measure.{
  SyncModule, SyncParams, Calls, Attempt, Samples, run_job, invalid_measurement, out_of_time_valid,
  out_of_time_invalid,
}
use reprompi_dev.Measure.Kept.{
  reported, drop_last, report, all, counts, report_redo, report_valid, report_invalid, report_full,
  report_more, verdicts,
}
use reprompi_dev.Measure.Loop.{attempts, run_job-report}
use native.Mathlib.Decide.{dec_lt}

module _ {T : Type 0} where
  -- the times of the attempts that were valid, in or out of time
  unfoldable pub valid_pairs : List (Attempt T) → List (T × T)
  valid_pairs [] = []
  valid_pairs (a ∷ rest) =
      let others = valid_pairs rest in
      if a.code == invalid_measurement
      then others
      else if a.code == out_of_time_invalid
      then others
      else (a.tstart, a.tend) ∷ others

  drop_last-append : (xs : List (T × T)) → (end : List (T × T)) × (drop_last xs ++ end ≡ xs)
  unfolding drop_last
  drop_last-append [] = ([], refl)
  drop_last-append (x ∷ []) = (x ∷ [], refl)
  drop_last-append (x ∷ y ∷ xs) =
      let (end, e) = drop_last-append (y ∷ xs) in (end, ap (λ r. x ∷ r) e)

  abbrev pub IsPrefix : List (T × T) → List (T × T) → Type 0
  IsPrefix xs ys = (end : List (T × T)) × (xs ++ end ≡ ys)

  IsPrefix-append : (xs ys zs : List (T × T)) → IsPrefix xs ys → IsPrefix xs (ys ++ zs)
  IsPrefix-append xs ys zs (end, e) =
      (end ++ zs, sym (append_assoc xs end zs) ∙ ap (λ t. t ++ zs) e)

  valid_skip :
      (a : Attempt T) (rest : List (Attempt T))
      → (a.code ≡ invalid_measurement) ⊎ (a.code ≡ out_of_time_invalid)
      → valid_pairs (a ∷ rest) ≡ valid_pairs rest
  unfolding valid_pairs
  valid_skip a rest h = ground arith

  valid_keep :
      (a : Attempt T) (rest : List (Attempt T))
      → (a.code ≡ out_of_time_valid) ⊎ (counts a ≡ true)
      → valid_pairs (a ∷ rest) ≡ (a.tstart, a.tend) ∷ valid_pairs rest
  unfolding valid_pairs
  valid_keep a rest h = ground arith

  Reports : ℕ → List (T × T) → List (Attempt T) → List (T × T) → Type 0
  Reports wanted done made r = IsPrefix r (done ++ valid_pairs made) × (length r ≤ wanted)

  -- the attempt is not kept
  skip :
      (wanted : ℕ) (done : List (T × T)) (a : Attempt T) (rest : List (Attempt T))
      (r : List (T × T))
      → (a.code ≡ invalid_measurement) ⊎ (a.code ≡ out_of_time_invalid)
      → Reports wanted done rest r
      → Reports wanted done (a ∷ rest) r
  unfolding Reports
  skip wanted done a rest r h q = rw (valid_skip a rest h) q

  -- the attempt is kept
  keep :
      (wanted : ℕ) (done : List (T × T)) (a : Attempt T) (rest : List (Attempt T))
      (r : List (T × T))
      → (a.code ≡ out_of_time_valid) ⊎ (counts a ≡ true)
      → Reports wanted (all wanted done a rest) rest r
      → Reports wanted done (a ∷ rest) r
  unfolding Reports
  keep wanted done a rest r h ((end, e), p) = (
    (
      end,
      e
          ∙ append_assoc done ((a.tstart, a.tend) ∷ []) (valid_pairs rest)
          ∙ ap (λ v. done ++ v) (sym (valid_keep a rest h)),
    ),
    p,
  )

  -- what is kept with this attempt is the report
  end_with :
      (wanted : ℕ) (done : List (T × T)) (a : Attempt T) (rest : List (Attempt T))
      (r : List (T × T))
      → (a.code ≡ out_of_time_valid) ⊎ (counts a ≡ true)
      → length done < wanted
      → all wanted done a rest ≡ r
      → Reports wanted done (a ∷ rest) r
  end_with wanted done a rest r h p e = keep wanted done a rest r h (
      unfold Reports in
      (
        (valid_pairs rest, ap (λ t. t ++ valid_pairs rest) (sym e)),
        omega (arith, length-append done ((a.tstart, a.tend) ∷ []), ap length e, p),
      ))

  report-valid :
      (wanted : ℕ) (done : List (T × T)) (made : List (Attempt T)) (r : List (T × T))
      → length done < wanted
      → report wanted done made ≡ some r
      → Reports wanted done made r
  report-valid wanted done [] r p e = unfold report in absurd (none-ne-some r e)
  report-valid wanted done (a ∷ rest) r p e =
      let now : length (all wanted done a rest) ≡ suc (length done) =
        omega (arith, length-append done ((a.tstart, a.tend) ∷ [])) in
      elim (verdicts a) [
        | inl h ↦
            skip wanted done a rest r (inl h)
              (report-valid wanted done rest r p (sym (report_redo wanted done a rest h) ∙ e))
        | inr (inl h) ↦
            end_with wanted done a rest r (inl h) p
              (some-injective _ r (sym (report_valid wanted done a rest h) ∙ e))
        | inr (inr (inl h)) ↦
            let m : drop_last done ≡ r =
              some-injective _ r (sym (report_invalid wanted done a rest h) ∙ e) in
            let (end, m') = drop_last-append done in
            unfold Reports in
            (
              rw (sym m) (IsPrefix-append (drop_last done) done (valid_pairs (a ∷ rest)) (end, m')),
              omega (arith, p, ap length m, ap length m', length-append (drop_last done) end),
            )
        | inr (inr (inr h)) ↦ elim (dec_lt (suc (length done)) wanted) [
          | yes lt ↦ keep wanted done a rest r (inr h) (
              report-valid wanted (all wanted done a rest) rest r (omega (arith, now, lt))
                (sym (report_more wanted done a rest h (omega (arith, now, lt))) ∙ e))
          | no ge ↦ end_with wanted done a rest r (inr h) p (
              some-injective _ r
                (sym (report_full wanted done a rest h (omega (arith, now, p))) ∙ e))
        ]
      ]

module _ {W T : Type 0} (sync : SyncModule W) (calls : Calls W T) where
  -- A job of at least one repetition whose first `n` passes through the loop body call for a report
  -- ends, with enough fuel for `n` passes. What it reports are the times of at most as many
  -- attempts as repetitions were wanted, all of them valid, in their order and from the first on
  -- with none left out.
  pub run_job_valid :
      (n fuel : ℕ) (junk : T) (params : SyncParams) (w w' w'' : W) (made : List (Attempt T))
      (r : List (T × T))
      → 0 < params.nrep
      → n ≤ fuel
      → sync.init_sync params w ≡ some w'
      → sync.init_sync_round w' ≡ some w''
      → attempts sync calls n w'' ≡ some made
      → report params.nrep [] made ≡ some r
      → (s : Samples T) × (end : W) × (run_job sync calls fuel junk params w ≡ some (s, end))
        × IsPrefix (reported s) (valid_pairs made)
        × (length (reported s) ≤ params.nrep)
  run_job_valid n fuel junk params w w' w'' made r p le i i' h e =
      let (s, end, m, q) =
        run_job-report sync calls n fuel junk params w w' w'' made r p le i i' h e in
      let (prefix, short) : IsPrefix r (valid_pairs made) × (length r ≤ params.nrep) =
        unfold Reports in report-valid params.nrep [] made r p e in
      (s, end, m, rw q prefix, rw q short)
