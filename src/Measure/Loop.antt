-- ===== src/Measure/Loop.antt =====
-- The measurement loop reports what the attempts call for.
use mathlib.Core.Option.{some-injective, none-ne-some}
use reprompi_dev.Prelude.{
  ℕ, zero, suc, ◌≡◌, ◌≤◌, ◌<◌, refl, ap, sym, ◌∙◌, Option, some, List, [], ◌∷◌, arith, length, set,
  length-replicate, ◌>>=◌, >>=-eq-some,
}
use reprompi_dev.Measure.{
  SyncModule, SyncParams, Calls, Samples, Attempt, Next, stop, again, store, judge, attempt,
  iterate, measure, run_job,
}
use reprompi_dev.Measure.Kept.{pairs, reported, report}
use reprompi_dev.Measure.Judge.{IsOpen, kept, written, Agrees, judge-report}

module _ {W T : Type 0} (sync : SyncModule W) (calls : Calls W T) where
  -- The first `n` passes through the loop body, with the cache cleared between them.
  unfoldable pub attempts : ℕ → W → Option (List (Attempt T))
  attempts zero w = some []
  attempts (suc n) w = do
    (a, w) ← attempt sync calls w
    rest ← attempts n (calls.clear_cache w)
    some (a ∷ rest)

  store_lem : (xs : List T) (i : ℕ) (x : T) → i < length xs → store xs i x ≡ some (set xs i x)
  unfolding store
  store_lem xs i x h = ground arith

  iterate_lem :
      (w : W) (s : Samples T) (a : Attempt T) (w' : W)
      → IsOpen s
      → attempt sync calls w ≡ some (a, w')
      → iterate sync calls w s ≡ some (judge a.code (written s a), w')
  unfolding iterate store
  iterate_lem w s a w' o h =
      rw
        (
          h,
          store_lem s.tstart_sec s.i a.tstart (omega (arith, o.room, o.starts)),
          store_lem s.tend_sec s.i a.tend (omega (arith, o.room, o.ends)),
        )
        refl

  attempts-suc :
      (n : ℕ) (w : W) (made : List (Attempt T))
      → attempts (suc n) w ≡ some made
      → (a : Attempt T) × (w' : W) × (rest : List (Attempt T)) × (attempt sync calls w
          ≡ some (a, w'))
        × (attempts n (calls.clear_cache w') ≡ some rest)
        × (made ≡ a ∷ rest)
  unfolding attempts
  attempts-suc n w made h =
      let ((a, w'), e, h') = >>=-eq-some (attempt sync calls w) _ made h in
      let (rest, e', h'') = >>=-eq-some (attempts n (calls.clear_cache w')) _ made h' in
      (a, w', rest, e, e', sym (some-injective (a ∷ rest) made h''))

  measure_stop :
      (fuel : ℕ) (w : W) (s s' : Samples T) (w' : W)
      → iterate sync calls w s ≡ some (stop s', w')
      → measure sync calls (suc fuel) w s ≡ some (s', w')
  unfolding measure
  measure_stop fuel w s s' w' h = ground arith

  measure_again :
      (fuel : ℕ) (w : W) (s s' : Samples T) (w' : W)
      → iterate sync calls w s ≡ some (again s', w')
      → measure sync calls (suc fuel) w s ≡ measure sync calls fuel (calls.clear_cache w') s'
  unfolding measure
  measure_again fuel w s s' w' h = ground arith

  Ends : ℕ → W → Samples T → List (T × T) → Type 0
  Ends fuel w s r =
      (s' : Samples T) × (w' : W) × (measure sync calls fuel w s ≡ some (s', w'))
      × (reported s' ≡ r)

  -- one pass, and what the later ones do
  follow :
      (fuel : ℕ) (w : W) (s : Samples T) (r : List (T × T)) (a : Attempt T) (w' : W)
      (rest : List (Attempt T))
      → iterate sync calls w s ≡ some (judge a.code (written s a), w')
      → report s.n_rep (kept s) (a ∷ rest) ≡ some r
      → ((s' : Samples T)
          → IsOpen s'
          → report s'.n_rep (kept s') rest ≡ some r
          → Ends fuel (calls.clear_cache w') s' r)
      → (next : Next T) → judge a.code (written s a) ≡ next
      → Agrees s a rest next
      → Ends (suc fuel) w s r
  unfolding Ends
  follow fuel w s r a w' rest i e later (stop s') j agrees = (
    s',
    w',
    measure_stop fuel w s s' w' (i ∙ ap (λ x. some (x, w')) j),
    some-injective (reported s') r (sym agrees ∙ e),
  )
  follow fuel w s r a w' rest i e later (again s') j (o', agrees) =
      let (s'', w'', m, q) = later s' o' (sym agrees ∙ e) in
      (s'', w'', measure_again fuel w s s' w' (i ∙ ap (λ x. some (x, w')) j) ∙ m, q)

  measure-report :
      (n fuel : ℕ) (w : W) (s : Samples T) (made : List (Attempt T)) (r : List (T × T))
      → IsOpen s
      → n ≤ fuel
      → attempts n w ≡ some made
      → report s.n_rep (kept s) made ≡ some r
      → Ends fuel w s r
  measure-report zero fuel w s made r o le h e =
      unfold attempts report in
      absurd (none-ne-some r (ap (report s.n_rep (kept s)) (some-injective [] made h) ∙ e))
  measure-report (suc n) zero w s made r o le h e = absurd (omega arith)
  measure-report (suc n) (suc fuel) w s made r o le h e =
      let (a, w', rest, h', h'', m) = attempts-suc n w made h in
      follow fuel w s r a w' rest (iterate_lem w s a w' o h')
        (ap (λ m. report s.n_rep (kept s) m) (sym m) ∙ e)
        (λ s' o' e'.
          measure-report n fuel (calls.clear_cache w') s' rest r o' (omega (arith, le)) h'' e')
        (judge a.code (written s a)) refl (judge-report s a rest o)

  -- A job of at least one repetition whose first `n` passes through the loop body call for the report
  -- `r` ends, with enough fuel for `n` passes, and reports `r`, whatever `malloc` left in the arrays.
  pub run_job-report :
      (n fuel : ℕ) (junk : T) (params : SyncParams) (w w' w'' : W) (made : List (Attempt T))
      (r : List (T × T))
      → 0 < params.nrep
      → n ≤ fuel
      → sync.init_sync params w ≡ some w'
      → sync.init_sync_round w' ≡ some w''
      → attempts n w'' ≡ some made
      → report params.nrep [] made ≡ some r
      → (s : Samples T) × (end : W) × (run_job sync calls fuel junk params w ≡ some (s, end))
        × (reported s ≡ r)
  unfolding run_job
  run_job-report n fuel junk params w w' w'' made r p le i i' h e =
      rw (i, i')
        (unfold Ends pairs in
          measure-report n fuel w'' _ made r
            (record {
              room = p;
              starts = length-replicate params.nrep junk;
              ends = length-replicate params.nrep junk;
            })
            le h e)
