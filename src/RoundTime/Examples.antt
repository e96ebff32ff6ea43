-- ===== src/RoundTime/Examples.antt =====
-- Round-time synchronisation with times in whole ticks, on clocks that advance by one with each
-- reading.
use reprompi_dev.Prelude.{
  ℕ, zero, suc, ◌+◌, ◌-◌, ◌*◌, ◌≡◌, ◌<◌, ◌≤◌, refl, some, List, [], ◌∷◌, arith, leb, ltb,
}
use reprompi_dev.Prelude.Int.{pos}
use reprompi_dev.Prelude.Double.{Doubles}
use reprompi_dev.Measure.{SyncParams}
use reprompi_dev.Collective.Allreduce.{Network}
use reprompi_dev.RoundTime.{Surroundings, RoundTime, Packet, stop_synchronization, check_time}
use reprompi_dev.RoundTime.Start.{IsReachedAt}
use reprompi_dev.RoundTime.Agreement.{Verdict, stop_synchronization_agrees}

abbrev ticks : Doubles ℕ
ticks = record {
  plus = λ a b. a + b;
  minus = λ a b. a - b;
  times = λ a b. a * b;
  le = leb;
  lt = ltb;
}

abbrev steady : ℕ → Surroundings ℕ
steady rank = record { time = λ n. n; get_global_time = λ t. t; rank = rank; bcast = λ t. t }

abbrev running : RoundTime ℕ
running = record {
  time_slot = 50;
  bcast_multiplier = 2;
  invalid = 0;
  start_sync = 0;
  bcast_runtime = 3;
  job_start_time = 4;
  stop_flag = 0;
  barrier_sync_mode = 0;
  switch_count = pos 100;
  reads = 10;
}

abbrev ideal : Network Packet
ideal = record {
  sendrecv = λ dest out source rank. out (source rank);
  delivers = λ d o s r e. refl;
}

reached_late : (start n : ℕ) → IsReachedAt ticks (steady 0) start n (start - n)
reached_late start n = record { early = λ j lt. ground arith; late = ground arith }

-- Rank 2 of 4 has an invalid measurement, and rank 1 is past the time slot.
abbrev four : ℕ → RoundTime ℕ
four (suc zero) = record running { reads = 60 }
four (suc (suc zero)) = record running { invalid = 1 }
four rank = running

not_stopped : (q : ℕ) → (four q).stop_flag ≤ 1
not_stopped zero = omega arith
not_stopped (suc zero) = omega arith
not_stopped (suc (suc zero)) = omega arith
not_stopped (suc (suc (suc q))) = omega arith

stop_synchronization_agrees_example :
    (codes : ℕ → ℕ) × (after : ℕ → RoundTime ℕ) × (stop_synchronization ticks ideal 4 steady
        (λ _. record { invalid = 9; stop_flag = 9 })
        four
      ≡ some (codes, after))
    × ((q : ℕ) → after q ≡ check_time ticks (steady q) (four q))
    × ((p q : ℕ) → p < 4 → q < 4 → codes p ≡ codes q)
    × ((p : ℕ)
        → p < 4
        → Verdict ticks ideal 4 steady (λ _. record { invalid = 9; stop_flag = 9 }) four codes p)
stop_synchronization_agrees_example =
    stop_synchronization_agrees ticks ideal 4 steady (λ _. record { invalid = 9; stop_flag = 9 })
      four (omega arith) (omega arith) (λ q lt. not_stopped q)

abbrev sizes : List SyncParams
sizes =
    record { nrep = 5; count = 8 }
    ∷ record { nrep = 5; count = 128 }
    ∷ record { nrep = 5; count = 8 }
    ∷ []
