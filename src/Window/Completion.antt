-- ===== src/Window/Completion.antt =====
-- A job under window synchronisation comes to its end, inside its arrays.
use reprompi_dev.Prelude.{
  ℕ, zero, suc, ◌^◌, ◌+◌, ◌≡◌, ◌<◌, ◌≤◌, refl, ap, ap₂, sym, ◌∙◌, some, List, [], ◌∷◌, get_elem?,
  arith, length, get_elem?-set_ne, get_elem?-replicate, replicate, if◌then◌else◌, ◌==◌, Bool-cases,
  inl, inr,
}
use mathlib.Core.Path.{subst}
use reprompi_dev.Prelude.Double.{Doubles}
use reprompi_dev.Measure.{Attempt, SyncParams, attempt, correct_measurement}
use reprompi_dev.Measure.Complete.{AllCorrect, Completes, report_all}
use reprompi_dev.Measure.Loop.{attempts, run_job-report}
use reprompi_dev.Window.{
  Surroundings, Window, global_time, window_module, window_calls, window_init_synchronization,
  window_init_sync_round,
}
use reprompi_dev.Window.Polling.{IsReachedAt}
use reprompi_dev.Window.Job.{attempt-window}

module _ {T : Type 0} (double : Doubles T) (env : Surroundings T) where
  -- the start of the `j`-th window, from that of the first one on
  unfoldable pub start_at : T → T → ℕ → T
  start_at first size zero = first
  start_at first size (suc j) = double.plus (start_at first size j) size

  -- With `n_rep` repetitions, a process that starts to poll for one of its windows reaches that
  -- window's start within `fuel` readings of the clock.
  abbrev pub ReachesAll : ℕ → ℕ → T → T → Type 0
  ReachesAll fuel n_rep first size =
      (j n : ℕ)
      → j < n_rep
      → (m : ℕ) × (m < fuel) × IsReachedAt double env (start_at first size j) n m

  module _ (fuel n_rep : ℕ) (first size : T) (reaches : ReachesAll fuel n_rep first size) where
    -- `j` measurements are made
    record IsAt (j : ℕ) (w : Window T) : Type 0 where
      counter : w.repetition_counter ≡ j
      start : w.start_sync ≡ start_at first size j
      window : w.window_size_sec ≡ size
      clear : (i : ℕ) → j ≤ i → i < n_rep → get_elem? w.invalid i ≡ some 0

    Moves : ℕ → Window T → Type 0
    Moves j w =
        (a : Attempt T) × (w' : Window T) × (attempt (window_module double env fuel)
            (window_calls double env) w
          ≡ some (a, w'))
        × (a.code ≡ correct_measurement)
        × IsAt (suc j) w'

    measures : (j : ℕ) (w : Window T) → j < n_rep → IsAt j w → Moves j w
    unfolding Moves start_at
    measures j w lt p =
        let (m, small, r) = reaches j w.reads lt in
        let r' : IsReachedAt double env w.start_sync w.reads m =
          subst (λ s. IsReachedAt double env s w.reads m) (sym p.start) r in
        let h : get_elem? w.invalid w.repetition_counter ≡ some 0 =
          ap (get_elem? w.invalid) p.counter ∙ p.clear j (omega arith) lt in
        (
          _,
          _,
          attempt-window double env m fuel w small r' h,
          refl,
          record {
            counter = omega (arith, p.counter);
            start = ap₂ double.plus p.start p.window;
            window = p.window;
            clear = λ i le lt'.
                get_elem?-set_ne w.invalid w.repetition_counter i _ (omega (arith, p.counter, le))
                ∙ p.clear i (omega (arith, le)) lt';
          },
        )

    all_measured :
        (k j : ℕ) (w : Window T)
        → j + k ≤ n_rep
        → IsAt j w
        → (made : List (Attempt T)) × (attempts
              (window_module double env fuel)
              (window_calls double env)
              k
              w
            ≡ some made)
          × (length made ≡ k)
          × AllCorrect made
    unfolding attempts Moves
    all_measured zero j w le p = ([], refl, refl, tt)
    all_measured (suc k) j w le p =
        let (a, w', e, c, p') = measures j w (omega (arith, le)) p in
        let (made, e', l, ok) = all_measured k (suc j) w' (omega (arith, le)) p' in
        (a ∷ made, rw (e, e') refl, ap suc l, (c, ok))

  -- the start of the first window: rank 0 computes it, the others receive it
  unfoldable pub first_start : Window T → T
  first_start w =
      if env.rank == 0
      then env.bcast (double.plus (global_time double env w.reads) w.wait_time_sec)
      else env.bcast w.start_sync

  init_round :
      (fuel : ℕ) (params : SyncParams) (w : Window T)
      → (w' : Window T) × (w'' : Window T) × (window_init_synchronization double env params w
          ≡ some w')
        × (window_init_sync_round double env w' ≡ some w'')
        × (w''.repetition_counter ≡ 0)
        × (w''.start_sync ≡ first_start w)
        × (w''.window_size_sec ≡ w.window_size_sec)
        × (w''.invalid ≡ replicate params.nrep 0)
  unfolding window_init_synchronization window_init_sync_round first_start
  init_round fuel params w =
      let blank = record w { invalid = replicate params.nrep 0; repetition_counter = 0 } in
      elim (Bool-cases (env.rank == 0)) [
        | inl h ↦ (
          blank,
          record blank {
            start_sync = env.bcast (double.plus (global_time double env w.reads) w.wait_time_sec);
            reads = w.reads + 1;
          },
          refl,
          rw h refl,
          refl,
          rw h refl,
          refl,
          refl,
        )
        | inr h ↦ (
          blank,
          record blank { start_sync = env.bcast w.start_sync },
          refl,
          rw h refl,
          refl,
          rw h refl,
          refl,
          refl,
        )
      ]

  -- A job of at least one and fewer than 2 ^ 31 repetitions, on any process whose polls reach their
  -- windows' starts within `fuel` readings of the clock, comes to its end without leaving an array,
  -- and reports as many measurements as repetitions were wanted.
  pub window_job :
      (fuel : ℕ) (junk : T) (params : SyncParams) (w : Window T)
      → 0 < params.nrep
      → params.nrep < 2 ^ 31
      → ReachesAll fuel params.nrep (first_start w) w.window_size_sec
      → Completes (window_module double env fuel) (window_calls double env) junk params w
  unfolding start_at window_module window_init_synchronization
  window_job fuel junk params w p fits reaches =
      let (w', w'', e, e', c, f, z, i) = init_round fuel params w in
      let at_first : IsAt fuel params.nrep (first_start w) w.window_size_sec reaches 0 w'' =
        record {
          counter = c;
          start = f;
          window = z;
          clear = λ j le lt. ap (λ xs. get_elem? xs j) i ∙ get_elem?-replicate params.nrep j 0 lt;
        } in
      let (made, e'', l, ok) =
        all_measured fuel params.nrep (first_start w) w.window_size_sec reaches params.nrep 0 w''
          (omega arith) at_first in
      let (r, q, l') = report_all params.nrep [] made ok (omega (arith, l)) p in
      let (s, end, m, q') =
        run_job-report (window_module double env fuel) (window_calls double env) params.nrep
          params.nrep junk params w w' w'' made r p (omega arith) e e' e'' q in
      (s, end, m, ap length q' ∙ l')
