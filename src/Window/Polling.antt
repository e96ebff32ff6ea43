-- ===== src/Window/Polling.antt =====
-- One measurement under window synchronisation: how long the process waits, and the flags it leaves.
use Prim.Native.Nat.{bit_or}
use reprompi_dev.Prelude.{
  ℕ, zero, suc, ◌+◌, ◌≡◌, ◌<◌, refl, ap, ◌∙◌, Bool, true, false, some, List, get_elem?, set, arith,
  Bool-cases, inl, inr, if◌then◌else◌,
}
use reprompi_dev.Prelude.Double.{Doubles}
use reprompi_dev.Measure.{correct_measurement}
use reprompi_dev.Window.{
  Surroundings, Window, global_time, raise_flag, poll, window_start_synchronization,
  window_stop_synchronization, flag_start_time_has_passed, flag_sync_win_expired,
}

module _ {T : Type 0} (double : Doubles T) (env : Surroundings T) where
  abbrev reached : T → ℕ → Bool
  reached start n = double.le start (global_time double env n)

  -- The window start is reached first at the `m`-th reading of the clock from reading `n` on.
  pub record IsReachedAt (start : T) (n m : ℕ) : Type 0 where
    pub early : (j : ℕ) → j < m → reached start (n + j) ≡ false
    pub late : reached start (n + m) ≡ true

  later : (start : T) (n m : ℕ) → IsReachedAt start n (suc m) → IsReachedAt start (n + 1) m
  later start n m r = record {
    early = λ j lt.
        let e : n + 1 + j ≡ n + suc j = omega arith in
        ap (reached start) e ∙ r.early (suc j) (omega (arith, lt));
    late = let e : n + 1 + m ≡ n + suc m = omega arith in ap (reached start) e ∙ r.late;
  }

  now : (start : T) (n : ℕ) → IsReachedAt start n 0 → reached start n ≡ true
  now start n r = let e : n ≡ n + 0 = omega arith in ap (reached start) e ∙ r.late

  not_yet : (start : T) (n m : ℕ) → IsReachedAt start n (suc m) → reached start n ≡ false
  not_yet start n m r =
      let e : n ≡ n + 0 = omega arith in ap (reached start) e ∙ r.early 0 (omega arith)

  abbrev read_more : Window T → ℕ → Window T
  read_more w k = record w { reads = w.reads + k }

  poll_late :
      (fuel : ℕ) (w : Window T)
      → reached w.start_sync w.reads ≡ true
      → poll double env (suc fuel) false w ≡ some (read_more w 1)
  unfolding poll
  poll_late fuel w h = ground arith

  poll_early :
      (fuel : ℕ) (first : Bool) (w : Window T)
      → reached w.start_sync w.reads ≡ false
      → poll double env (suc fuel) first w ≡ poll double env fuel false (read_more w 1)
  unfolding poll
  poll_early fuel first w h = ground arith

  poll_first :
      (fuel : ℕ) (w : Window T)
      → reached w.start_sync w.reads ≡ true
      → poll double env (suc fuel) true w
        ≡ raise_flag double env flag_start_time_has_passed (read_more w 1)
  unfolding poll
  poll_first fuel w h = ground arith

  poll_later :
      (m fuel : ℕ) (w : Window T)
      → m < fuel
      → IsReachedAt w.start_sync w.reads m
      → poll double env fuel false w ≡ some (read_more w (suc m))
  poll_later m zero w lt r = absurd (omega arith)
  poll_later zero (suc fuel) w lt r = poll_late fuel w (now w.start_sync w.reads r)
  poll_later (suc m) (suc fuel) w lt r =
      let e : w.reads + 1 + suc m ≡ w.reads + suc (suc m) = omega arith in
      poll_early fuel false w (not_yet w.start_sync w.reads m r)
      ∙ poll_later m fuel (read_more w 1) (omega (arith, lt)) (later w.start_sync w.reads m r)
      ∙ ap (λ n. some (record w { reads = n })) e

  -- the flags after a wait that was over at the `m`-th reading
  abbrev pub flags_started : ℕ → ℕ → Window T → List ℕ
  flags_started zero old w =
      set w.invalid w.repetition_counter (bit_or old flag_start_time_has_passed)
  flags_started (suc m) old w = w.invalid

  -- The polling loop ends at the first reading of the clock that has reached the window's start. It
  -- raises the flag for a start time that has passed exactly if that was its first reading.
  pub window_start_synchronization_lem :
      (m fuel old : ℕ) (w : Window T)
      → m < fuel
      → IsReachedAt w.start_sync w.reads m
      → get_elem? w.invalid w.repetition_counter ≡ some old
      → window_start_synchronization double env fuel w
        ≡ some (record w { reads = w.reads + suc m; invalid = flags_started m old w })
  unfolding window_start_synchronization raise_flag
  window_start_synchronization_lem m zero old w lt r h = absurd (omega arith)
  window_start_synchronization_lem zero (suc fuel) old w lt r h =
      poll_first fuel w (now w.start_sync w.reads r) ∙ rw h refl
  window_start_synchronization_lem (suc m) (suc fuel) old w lt r h =
      let e : w.reads + 1 + suc m ≡ w.reads + suc (suc m) = omega arith in
      poll_early fuel true w (not_yet w.start_sync w.reads m r)
      ∙ poll_later m fuel (read_more w 1) (omega (arith, lt)) (later w.start_sync w.reads m r)
      ∙ ap (λ n. some (record w { reads = n })) e

  -- The end of a measurement moves to the next window, and raises the flag for an expired window
  -- exactly if the clock is past the end of this one.
  pub window_stop_synchronization_lem :
      (old : ℕ) (w : Window T)
      → get_elem? w.invalid w.repetition_counter ≡ some old
      → window_stop_synchronization double env w
        ≡ some (
          correct_measurement,
          record w {
            start_sync = double.plus w.start_sync w.window_size_sec;
            repetition_counter = w.repetition_counter + 1;
            reads = w.reads + 1;
            invalid =
                if double.lt
                  (double.plus w.start_sync w.window_size_sec)
                  (global_time double env w.reads)
                then set w.invalid w.repetition_counter (bit_or old flag_sync_win_expired)
                else w.invalid;
          },
        )
  unfolding window_stop_synchronization raise_flag
  window_stop_synchronization_lem old w h =
      let end = double.plus w.start_sync w.window_size_sec in
      elim (Bool-cases (double.lt end (global_time double env w.reads))) [
        | inl p ↦ rw (p, h) refl
        | inr p ↦ rw p refl
      ]
