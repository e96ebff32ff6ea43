-- ===== src/RoundTime/Bcast.antt =====
-- How long a broadcast takes: src/reprompi_bench/sync/process_sync/round_sync_common.c, with the clock
-- of a process as the sequence of its readings. GSL and MPI_Reduce are parameters; the functions
-- that only synchronise or deliver a value are left out.
mod Estimate
mod Examples
use reprompi_dev.Prelude.{
  ℕ, zero, suc, ◌+◌, ◌-◌, ◌^◌, ltb, Bool, true, false, Option, none, some, ◌>>=◌, List, [], ◌∷◌,
  get_elem?, if◌then◌else◌,
}
use reprompi_dev.Prelude.Int.{ℤ, pos, negsuc}
use reprompi_dev.Prelude.Text.{Str, same, ascii}
use reprompi_dev.Prelude.Double.{Doubles}
use reprompi_dev.Results.{Reductions, on_all, max_double}
use reprompi_dev.Results.Summary.{Gsl}

pub data BcastMeasure : Type 0 where
  bcast_measure_mean : BcastMeasure
  bcast_measure_median : BcastMeasure
  bcast_measure_max : BcastMeasure

-- `reprompi_roundsync_bcast_params_t`
pub record BcastParams (T : Type 0) : Type 0 where
  pub bcast_n_rep : ℤ
  pub bcast_multiplier : T
  pub bcast_meas : BcastMeasure

-- an option, with what `atof` or `atol` reads
pub data BcastFlag (T : Type 0) : Type 0 where
  bcast_mult : T → BcastFlag T
  bcast_nrep : ℤ → BcastFlag T
  bcast_measure : Str → BcastFlag T
  other_bcast_flag : BcastFlag T

-- the chain of `strcmp`; an unknown name leads to a warning only.
unfoldable pub named_measure : Str → BcastMeasure → BcastMeasure
named_measure arg before =
    if same arg (ascii "mean")
    then bcast_measure_mean
    else if same arg (ascii "median")
    then bcast_measure_median
    else if same arg (ascii "max")
    then bcast_measure_max
    else before

-- the loop over the options
unfoldable pub parse_bcast_flags : {T : Type 0} → List (BcastFlag T) → BcastParams T → BcastParams T
parse_bcast_flags [] p = p
parse_bcast_flags (bcast_mult x ∷ flags) p =
    parse_bcast_flags flags (record p { bcast_multiplier = x })
parse_bcast_flags (bcast_nrep n ∷ flags) p = parse_bcast_flags flags (record p { bcast_n_rep = n })
parse_bcast_flags (bcast_measure arg ∷ flags) p =
    parse_bcast_flags flags (record p { bcast_meas = named_measure arg p.bcast_meas })
parse_bcast_flags (other_bcast_flag ∷ flags) p = parse_bcast_flags flags p

-- the number of broadcasts, which must be positive
unfoldable pub positive_nrep : ℤ → Option ℕ
positive_nrep (pos zero) = none
positive_nrep (pos (suc n)) = some (suc n)
positive_nrep (negsuc n) = none

-- An `int` counts the broadcasts, and overflows from 2 ^ 31 of them on.
unfoldable pub int_loop : ℕ → Option ℕ
int_loop n = if ltb n (2 ^ 31) then some n else none

module _ {T : Type 0} (double : Doubles T) (one three : T) where
  -- `roundsync_parse_bcast_options`; an exit with an error is `none`.
  unfoldable pub parse_bcast_options : List (BcastFlag T) → Option (BcastParams T)
  parse_bcast_options flags =
      let p = parse_bcast_flags flags (record {
        bcast_n_rep = pos 10;
        bcast_multiplier = three;
        bcast_meas = bcast_measure_mean;
      }) in
      if double.lt p.bcast_multiplier one
      then none
      else (positive_nrep p.bcast_n_rep >>= (λ n. some p))

module _ {T : Type 0} (double : Doubles T) (gsl : Gsl T) (reduce : Reductions T) where
  -- the loop of a process, `n` broadcasts with the clock read `k` times before
  unfoldable pub bcast_times : (ℕ → T) → ℕ → ℕ → List T
  bcast_times time zero k = []
  bcast_times time (suc n) k = double.minus (time (k + 1)) (time k) ∷ bcast_times time n (k + 2)

  -- what a process hands to the reduction; a read outside of the array is `none`.
  unfoldable pub own_estimate : BcastMeasure → ℕ → (ℕ → T) → Option T
  own_estimate bcast_measure_mean n time = some (gsl.mean (gsl.sort (bcast_times time n 1)))
  own_estimate bcast_measure_median n time =
      some (gsl.median_from_sorted (gsl.sort (bcast_times time n 1)))
  own_estimate bcast_measure_max n time = get_elem? (gsl.sort (bcast_times time n 1)) (n - 1)

  -- `measure_bcast_runtime` on the root, from the clocks of all processes
  unfoldable pub measure_bcast_runtime : BcastParams T → List (ℕ → T) → Option T
  measure_bcast_runtime p times = do
    nrep ← positive_nrep p.bcast_n_rep
    n ← int_loop nrep
    estimates ← on_all (λ time. own_estimate p.bcast_meas n time >>= (λ x. some (x ∷ []))) times
    get_elem? (reduce.on_doubles (max_double double) estimates) 0
