-- ===== src/Window/Examples.antt =====
-- Window synchronisation with times in whole ticks, on a clock that advances by one with each reading.
use reprompi_dev.Prelude.{ℕ, zero, suc, ◌+◌, ◌-◌, ◌*◌, ◌≡◌, refl, some, [], ◌∷◌, arith, leb, ltb}
use reprompi_dev.Prelude.Double.{Doubles}
use reprompi_dev.Measure.{attempt}
use reprompi_dev.Measure.Complete.{Completes}
use reprompi_dev.Window.{
  Surroundings, Window, window_module, window_calls, window_stop_synchronization,
}
use reprompi_dev.Window.Polling.{IsReachedAt, window_stop_synchronization_lem}
use reprompi_dev.Window.Job.{attempt-window}
use reprompi_dev.Window.Completion.{ReachesAll, first_start, start_at, window_job}

abbrev ticks : Doubles ℕ
ticks = record {
  plus = λ a b. a + b;
  minus = λ a b. a - b;
  times = λ a b. a * b;
  le = leb;
  lt = ltb;
}

abbrev steady : Surroundings ℕ
steady = record { time = λ n. n; get_global_time = λ t. t; rank = 0; bcast = λ t. t }

abbrev second : Window ℕ
second = record {
  start_sync = 20;
  repetition_counter = 1;
  invalid = 0 ∷ 0 ∷ 0 ∷ [];
  window_size_sec = 4;
  wait_time_sec = 9;
  reads = 17;
}

reached_late : (start n : ℕ) → IsReachedAt ticks steady start n (start - n)
reached_late start n = record { early = λ j lt. ground arith; late = ground arith }

window_stop_synchronization_lem_example :
    window_stop_synchronization ticks steady (record second { reads = 30 })
    ≡ some (
      0,
      record second {
        start_sync = 24;
        repetition_counter = 2;
        invalid = 0 ∷ 2 ∷ 0 ∷ [];
        reads = 31;
      },
    )
window_stop_synchronization_lem_example =
    window_stop_synchronization_lem ticks steady 0 (record second { reads = 30 }) refl

attempt-window_example :
    attempt
      (window_module ticks steady 5)
      (window_calls ticks steady)
      (record second { reads = 22 })
    ≡ some (
      record { tstart = 23; tend = 24; code = 0 },
      record second {
        start_sync = 24;
        repetition_counter = 2;
        invalid = 0 ∷ 3 ∷ 0 ∷ [];
        reads = 26;
      },
    )
attempt-window_example =
    attempt-window ticks steady 0 5 (record second { reads = 22 }) (omega arith)
      (reached_late 20 22) refl

always_reaches : ReachesAll ticks steady 100 3 9 4
unfolding start_at
always_reaches zero n lt = (9 - n, omega arith, reached_late 9 n)
always_reaches (suc zero) n lt = (13 - n, omega arith, reached_late 13 n)
always_reaches (suc (suc zero)) n lt = (17 - n, omega arith, reached_late 17 n)
always_reaches (suc (suc (suc j))) n lt = absurd (omega arith)

abbrev boot : Window ℕ
boot = record second { start_sync = 0; invalid = []; reads = 0 }

window_job_example :
    Completes
      (window_module ticks steady 100)
      (window_calls ticks steady)
      7
      (record { nrep = 3; count = 1 })
      boot
unfolding first_start
window_job_example =
    window_job ticks steady 100 7 (record { nrep = 3; count = 1 }) boot (omega arith) (omega arith)
      always_reaches
