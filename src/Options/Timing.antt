-- ===== src/Options/Timing.antt =====
-- How run-times are computed: src/reprompi_bench/option_parser/parse_timing_options.c.
mod Last
mod Examples
use reprompi_dev.Prelude.{
  Bool, true, false, Option, none, some, ◌>>=◌, List, [], ◌∷◌, if◌then◌else◌,
}
use reprompi_dev.Prelude.Text.{Str, same, ascii}
use reprompi_dev.Results.{TimingMethod, max_over_local_runtime, global_times, unknown_method}

-- `runtime_type_t`
pub record RuntimeType : Type 0 where
  pub type : TimingMethod
  pub name : Str

-- `runtime_types`
abbrev pub runtime_types : List RuntimeType
runtime_types =
    record { type = max_over_local_runtime; name = ascii "local" }
    ∷ record { type = global_times; name = ascii "global" }
    ∷ []

abbrev pub same_method : TimingMethod → TimingMethod → Bool
same_method max_over_local_runtime max_over_local_runtime = true
same_method global_times global_times = true
same_method unknown_method unknown_method = true
same_method _ _ = false

-- `reprompib_get_timing_method_name`
unfoldable pub search_method : TimingMethod → List RuntimeType → Option Str
search_method method [] = none
search_method method (t ∷ types) =
    let rest = search_method method types in if same_method t.type method then some t.name else rest

abbrev pub get_timing_method_name : TimingMethod → Option Str
get_timing_method_name method = search_method method runtime_types

-- `parse_runtime_type`; an exit with an error is `none`.
unfoldable pub search_type : Str → List RuntimeType → Option TimingMethod
search_type arg [] = none
search_type arg (t ∷ types) =
    let rest = search_type arg types in if same t.name arg then some t.type else rest

abbrev pub parse_runtime_type : Str → Option TimingMethod
parse_runtime_type arg = search_type arg runtime_types

-- an option that `getopt_long` returns: that of the run-time type, or any other, which it does not know
pub data TimingFlag : Type 0 where
  runtime_type : Str → TimingFlag
  other_option : TimingFlag

-- `reprompib_parse_timing_options`, with the method before
unfoldable pub parse_timing_options : List TimingFlag → TimingMethod → Option TimingMethod
parse_timing_options [] method = some method
parse_timing_options (runtime_type arg ∷ flags) method = do
  chosen ← parse_runtime_type arg
  parse_timing_options flags chosen
parse_timing_options (other_option ∷ flags) method =
    parse_timing_options flags max_over_local_runtime
