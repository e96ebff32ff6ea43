-- ===== src/Options/Timing/Examples.antt =====
-- Options for the run-times.
use reprompi_dev.Prelude.{◌≡◌, refl, Option, none, some, List, [], ◌∷◌}
use reprompi_dev.Prelude.Text.{ascii}
use reprompi_dev.Results.{max_over_local_runtime, global_times}
use reprompi_dev.Options.Timing.{
  TimingFlag, runtime_type, other_option, parse_timing_options, get_timing_method_name,
}
use reprompi_dev.Options.Timing.Last.{parse_timing_options_lem}

abbrev flags : List TimingFlag
flags = runtime_type (ascii "global") ∷ []

flags_read : parse_timing_options flags max_over_local_runtime ≡ some global_times
unfolding parse_timing_options reprompi_dev.Options.Timing.search_type
    reprompi_dev.Prelude.Text.same
flags_read = refl

wrong_name : parse_timing_options (runtime_type (ascii "none") ∷ []) max_over_local_runtime ≡ none
unfolding parse_timing_options reprompi_dev.Options.Timing.search_type
    reprompi_dev.Prelude.Text.same
wrong_name = refl

name_of_global : get_timing_method_name global_times ≡ some (ascii "global")
unfolding reprompi_dev.Options.Timing.search_method
name_of_global = refl

-- --runtime-type=global --nrep=5
parse_timing_options_lem_example :
    parse_timing_options (runtime_type (ascii "global") ∷ other_option ∷ []) max_over_local_runtime
    ≡ some max_over_local_runtime
parse_timing_options_lem_example =
    parse_timing_options_lem flags other_option max_over_local_runtime global_times flags_read
