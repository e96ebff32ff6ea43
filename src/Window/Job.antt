-- ===== src/Window/Job.antt =====
-- A whole measurement, and a whole job, under window synchronisation.
use Prim.Native.Nat.{bit_or}
use reprompi_dev.Prelude.{
  ℕ, zero, suc, ◌+◌, ◌≡◌, ◌<◌, refl, sym, Bool, true, false, some, List, get_elem?, set, set-set,
  set-get_elem?, get_elem?-set_self, get_elem?_lt, if◌then◌else◌,
}
use reprompi_dev.Prelude.Double.{Doubles}
use reprompi_dev.Measure.{attempt, correct_measurement}
use reprompi_dev.Window.{
  Surroundings, Window, global_time, window_module, window_calls, flag_sync_win_expired,
}
use reprompi_dev.Window.Polling.{
  IsReachedAt, flags_started, window_start_synchronization_lem, window_stop_synchronization_lem,
}

-- The flags of a measurement: whether the first reading of the clock had already reached the window's
-- start (no reading before it), and whether the end was past the window.
abbrev pub flags : ℕ → Bool → ℕ
flags zero false = 1
flags zero true = 3
flags (suc m) false = 0
flags (suc m) true = 2

module _ {T : Type 0} (double : Doubles T) (env : Surroundings T) where
  -- the flag left at the start
  abbrev early_flag : ℕ → ℕ
  early_flag zero = 1
  early_flag (suc m) = 0

  flags_started_lem :
      (m : ℕ) (w : Window T)
      → get_elem? w.invalid w.repetition_counter ≡ some 0
      → flags_started double env m 0 w ≡ set w.invalid w.repetition_counter (early_flag m)
  flags_started_lem zero w h = refl
  flags_started_lem (suc m) w h = sym (set-get_elem? w.invalid w.repetition_counter 0 h)

  flags_stopped :
      (m : ℕ) (b : Bool) (xs : List ℕ) (i : ℕ)
      → (if b
          then set (set xs i (early_flag m)) i (bit_or (early_flag m) flag_sync_win_expired)
          else set xs i (early_flag m))
        ≡ set xs i (flags m b)
  flags_stopped zero false xs i = refl
  flags_stopped zero true xs i = set-set xs i 1 3
  flags_stopped (suc m) false xs i = refl
  flags_stopped (suc m) true xs i = set-set xs i 0 2

  -- A measurement that reaches its window's start at the `m`-th reading of the clock comes back, takes
  -- its two times right after, moves on to the next window and entry, and leaves in its own entry of
  -- the flags, 0 before, whether it came too late for the start or the end of its window.
  pub attempt-window :
      (m fuel : ℕ) (w : Window T)
      → m < fuel
      → IsReachedAt double env w.start_sync w.reads m
      → get_elem? w.invalid w.repetition_counter ≡ some 0
      → attempt (window_module double env fuel) (window_calls double env) w
        ≡ some (
          record {
            tstart = env.time (w.reads + suc m);
            tend = env.time (w.reads + suc m + 1);
            code = correct_measurement;
          },
          record w {
            start_sync = double.plus w.start_sync w.window_size_sec;
            repetition_counter = w.repetition_counter + 1;
            reads = w.reads + suc m + 1 + 1 + 1;
            invalid = set w.invalid w.repetition_counter (
                flags m (
                  double.lt
                    (double.plus w.start_sync w.window_size_sec)
                    (global_time double env (w.reads + suc m + 1 + 1))));
          },
        )
  unfolding attempt window_module
  attempt-window m fuel w lt r h =
      let c = w.repetition_counter in
      let kept : get_elem? (set w.invalid c (early_flag m)) c ≡ some (early_flag m) =
        get_elem?-set_self w.invalid c (early_flag m) (get_elem?_lt w.invalid c 0 h) in
      rw
        (
          window_start_synchronization_lem double env m fuel 0 w lt r h,
          flags_started_lem m w h,
          window_stop_synchronization_lem double env (early_flag m)
              (record w {
                invalid = set w.invalid c (early_flag m);
                reads = w.reads + suc m + 1 + 1;
              })
              kept,
          flags_stopped,
        )
        refl
