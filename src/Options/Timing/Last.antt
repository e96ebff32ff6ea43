-- ===== src/Options/Timing/Last.antt =====
-- Which option decides how run-times are computed:
-- src/reprompi_bench/option_parser/parse_timing_options.c.
use reprompi_dev.Prelude.{◌≡◌, refl, Option, none, some, ◌>>=◌, >>=-eq-some, List, [], ◌∷◌, ◌++◌}
use reprompi_dev.Results.{TimingMethod, max_over_local_runtime}
use reprompi_dev.Options.Timing.{
  TimingFlag, runtime_type, other_option, parse_runtime_type, parse_timing_options,
}

-- what an option asks for by itself
abbrev pub asked : TimingFlag → Option TimingMethod
asked (runtime_type arg) = parse_runtime_type arg
asked other_option = some max_over_local_runtime

-- When options are accepted and one more follows, this one alone decides: an option that is none of the
-- run-time type sets the method back to that of local clocks, and a wrong name is an error.
pub parse_timing_options_lem :
    (flags : List TimingFlag) (last : TimingFlag) (before method : TimingMethod)
    → parse_timing_options flags before ≡ some method
    → parse_timing_options (flags ++ last ∷ []) before ≡ asked last
unfolding parse_timing_options
parse_timing_options_lem [] (runtime_type arg) before method h = step (parse_runtime_type arg)
  where
    step : (o : Option TimingMethod) → (o >>= (λ m. some m)) ≡ o
    step none = refl
    step (some m) = refl
parse_timing_options_lem [] other_option before method h = refl
parse_timing_options_lem (runtime_type arg ∷ flags) last before method h =
    let (chosen, found, rest) =
      >>=-eq-some (parse_runtime_type arg) (parse_timing_options flags) method h in
    rw found (parse_timing_options_lem flags last chosen method rest)
parse_timing_options_lem (other_option ∷ flags) last before method h =
    parse_timing_options_lem flags last max_over_local_runtime method h
