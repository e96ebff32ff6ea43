-- ===== src/Barrier/Examples.antt =====
-- A run of the dissemination barrier by five processes in step.
use reprompi_dev.Prelude.{◌+◌, ◌%◌, ◌≤◌, ◌≡◌, refl, [], ◌∷◌, arith}
use reprompi_dev.Barrier.{
  nrounds, ceil_log2, send_rank, recv_rank, calls_from, dissemination_barrier,
}
use reprompi_dev.Barrier.Peers.{length-dissemination_barrier}
use reprompi_dev.Barrier.Safety.{Run, barrier_safe}

calls_of_one : dissemination_barrier 5 1 ≡ (2, 0) ∷ (3, 4) ∷ (0, 2) ∷ []
unfolding dissemination_barrier calls_from nrounds ceil_log2 send_rank recv_rank
calls_of_one = refl

rounds_of_five : nrounds 5 ≡ 3
unfolding nrounds ceil_log2
rounds_of_five = refl

abbrev in_step : Run 5
in_step = record {
  enter = λ p. p % 5;
  starts = λ p i. 10 + i;
  finishes = λ p i. 11 + i;
  leave = λ p. 14;
  entered = λ p i. omega arith;
  blocks = λ p i. omega arith;
  in_order = λ p i j h. omega arith;
  left = λ p i h. omega (arith, length-dissemination_barrier 5 p, rounds_of_five);
  entered_left = λ p. omega arith;
  receives = λ p q i to from hp hq a b. omega arith;
}

barrier_safe_example : 4 ≤ 14
barrier_safe_example = barrier_safe 5 (omega arith) in_step 0 4 (omega arith) (omega arith)
