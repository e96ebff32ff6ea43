-- ===== src/RoundTime/Bcast/Examples.antt =====
-- Three broadcasts on two processes.
use mathlib.Core.List.{foldr, map}
use reprompi_dev.Prelude.{
  ℕ, ◌+◌, ◌*◌, ◌<◌, ◌≡◌, refl, Bool, true, false, Option, none, some, List, [], ◌∷◌, ltb, arith,
}
use reprompi_dev.Prelude.Int.{pos}
use reprompi_dev.Prelude.Text.{Str, ascii}
use reprompi_dev.Results.{max_double}
use reprompi_dev.Results.Examples.{ticks, reductions, gsl, reduction-Reduces}
use reprompi_dev.RoundTime.Bcast.{
  BcastParams, BcastFlag, bcast_nrep, bcast_measure, bcast_mult, bcast_measure_max,
  parse_bcast_options, measure_bcast_runtime,
}
use reprompi_dev.RoundTime.Bcast.Estimate.{statistic, asked, measure_bcast_runtime_lem}

-- --bcast-nrep=3 --bcast-meas=max
abbrev flags : List (BcastFlag ℕ)
flags = bcast_nrep (pos 3) ∷ bcast_measure (ascii "max") ∷ []

abbrev params : BcastParams ℕ
params = record { bcast_n_rep = pos 3; bcast_multiplier = 3; bcast_meas = bcast_measure_max }

flags_read : parse_bcast_options ticks 1 3 flags ≡ some params
unfolding parse_bcast_options reprompi_dev.RoundTime.Bcast.parse_bcast_flags
    reprompi_dev.RoundTime.Bcast.positive_nrep reprompi_dev.RoundTime.Bcast.named_measure
    reprompi_dev.Prelude.Text.same
flags_read = refl

small_multiplier : parse_bcast_options ticks 1 3 (bcast_mult 0 ∷ []) ≡ none
unfolding parse_bcast_options reprompi_dev.RoundTime.Bcast.parse_bcast_flags
small_multiplier = refl

abbrev clock : ℕ → ℕ
clock k = k * k

abbrev other_clock : ℕ → ℕ
other_clock k = 5 * k

measure_bcast_runtime_lem_example :
    (ltb 3 1 ≡ false)
    × (n : ℕ) × (pos 3 ≡ pos n)
    × (0 < n)
    × (measure_bcast_runtime ticks gsl reductions params (clock ∷ other_clock ∷ [])
        ≡ some (
            foldr
              (max_double ticks)
              (statistic ticks gsl reductions 1 3 0 (asked (ascii "mean") flags) n clock)
              (map
                (statistic ticks gsl reductions 1 3 0 (asked (ascii "mean") flags) n)
                (other_clock ∷ []))))
measure_bcast_runtime_lem_example =
    measure_bcast_runtime_lem ticks gsl reductions 1 3 0 flags params clock (other_clock ∷ [])
      flags_read (omega arith) (λ xs. refl) (reduction-Reduces (max_double ticks))
