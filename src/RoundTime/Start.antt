-- ===== src/RoundTime/Start.antt =====
-- The start of a measurement under round-time synchronisation.
use reprompi_dev.Prelude.{
  ℕ, zero, suc, ◌+◌, ◌≡◌, ◌≢◌, ◌<◌, refl, ap, ◌∙◌, Bool, true, false, some, arith, if◌then◌else◌,
  ◌==◌, Bool-cases, inl, inr,
}
use reprompi_dev.Prelude.Double.{Doubles}
use reprompi_dev.Measure.{correct_measurement, invalid_measurement}
use reprompi_dev.RoundTime.{
  Surroundings, RoundTime, global_time, poll, announce, start_synchronization,
}

module _ {T : Type 0} (double : Doubles T) (env : Surroundings T) where
  abbrev reached : T → ℕ → Bool
  reached start n = double.le start (global_time double env n)

  -- The start time is reached first at the `m`-th reading of the clock from reading `n` on.
  pub record IsReachedAt (start : T) (n m : ℕ) : Type 0 where
    pub early : (j : ℕ) → j < m → reached start (n + j) ≡ false
    pub late : reached start (n + m) ≡ true

  now : (start : T) (n : ℕ) → IsReachedAt start n 0 → reached start n ≡ true
  now start n r = let e : n ≡ n + 0 = omega arith in ap (reached start) e ∙ r.late

  not_yet : (start : T) (n m : ℕ) → IsReachedAt start n (suc m) → reached start n ≡ false
  not_yet start n m r =
      let e : n ≡ n + 0 = omega arith in ap (reached start) e ∙ r.early 0 (omega arith)

  later : (start : T) (n m : ℕ) → IsReachedAt start n (suc m) → IsReachedAt start (n + 1) m
  later start n m r = record {
    early = λ j lt.
        let e : n + 1 + j ≡ n + suc j = omega arith in
        ap (reached start) e ∙ r.early (suc j) (omega (arith, lt));
    late = let e : n + 1 + m ≡ n + suc m = omega arith in ap (reached start) e ∙ r.late;
  }

  abbrev read_more : ℕ → RoundTime T → RoundTime T
  read_more k s = record s { reads = s.reads + k }

  -- the judgement of a poll that ended at the `m`-th reading
  abbrev pub mark : ℕ → Bool → RoundTime T → RoundTime T
  mark zero true s = record s { invalid = invalid_measurement }
  mark zero false s = s
  mark (suc m) is_first s = s

  poll_end :
      (fuel : ℕ) (is_first : Bool) (s : RoundTime T)
      → reached s.start_sync s.reads ≡ true
      → poll double env (suc fuel) is_first s ≡ some (mark 0 is_first (read_more 1 s))
  unfolding poll
  poll_end fuel true s h = ground arith
  poll_end fuel false s h = ground arith

  poll_on :
      (fuel : ℕ) (is_first : Bool) (s : RoundTime T)
      → reached s.start_sync s.reads ≡ false
      → poll double env (suc fuel) is_first s ≡ poll double env fuel false (read_more 1 s)
  unfolding poll
  poll_on fuel is_first s h = ground arith

  poll_lem :
      (m fuel : ℕ) (is_first : Bool) (s : RoundTime T)
      → m < fuel
      → IsReachedAt s.start_sync s.reads m
      → poll double env fuel is_first s ≡ some (mark m is_first (read_more (suc m) s))
  poll_lem m zero is_first s lt r = absurd (omega arith)
  poll_lem zero (suc fuel) is_first s lt r = poll_end fuel is_first s (now s.start_sync s.reads r)
  poll_lem (suc m) (suc fuel) is_first s lt r =
      let e : s.reads + 1 + suc m ≡ s.reads + suc (suc m) = omega arith in
      poll_on fuel is_first s (not_yet s.start_sync s.reads m r)
      ∙ poll_lem m fuel false (read_more 1 s) (omega (arith, lt)) (later s.start_sync s.reads m r)
      ∙ unmarked m (read_more (suc m) (read_more 1 s))
      ∙ ap (λ n. some (record s { reads = n })) e
    where
      unmarked : (m : ℕ) (s : RoundTime T) → some (mark m false s) ≡ some s
      unmarked zero s = refl
      unmarked (suc m) s = refl

  start_poll :
      (fuel : ℕ) (s : RoundTime T)
      → s.barrier_sync_mode ≢ 1
      → start_synchronization double env fuel s ≡ poll double env fuel true (announce double env s)
  unfolding start_synchronization
  start_poll fuel s b = ground arith

  marked :
      (m : ℕ) (s : RoundTime T)
      → mark m true (read_more (suc m) (announce double env s)) ≡ record s {
        start_sync = (announce double env s).start_sync;
        reads = (announce double env s).reads + suc m;
        invalid = if m == 0 then invalid_measurement else correct_measurement;
      }
  unfolding announce
  marked zero s = elim (Bool-cases (env.rank == 0)) [ inl h ↦ rw h refl | inr h ↦ rw h refl ]
  marked (suc m) s =
      let e : (suc m == 0) ≡ false = ground arith in
      elim (Bool-cases (env.rank == 0)) [ inl h ↦ rw (h, e) refl | inr h ↦ rw (h, e) refl ]

  -- Unless it has switched to barriers, a process takes the announced start time, polls until its clock
  -- has reached that, and marks the measurement as invalid exactly if the first reading had already.
  pub start_synchronization_lem :
      (m fuel : ℕ) (s : RoundTime T)
      → s.barrier_sync_mode ≢ 1
      → m < fuel
      → IsReachedAt (announce double env s).start_sync (announce double env s).reads m
      → start_synchronization double env fuel s
        ≡ some (record s {
          start_sync = (announce double env s).start_sync;
          reads = (announce double env s).reads + suc m;
          invalid = if m == 0 then invalid_measurement else correct_measurement;
        })
  start_synchronization_lem m fuel s b lt r =
      start_poll fuel s b ∙ poll_lem m fuel true (announce double env s) lt r ∙ ap some (marked m s)
