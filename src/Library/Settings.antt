-- ===== src/Library/Settings.antt =====
-- The parameters that a user adds to the output of the library, and when they are printed:
-- reprompib_add_parameter_to_bench, print_dict_key_value_pairs and reprompib_print_bench_output of
-- src/reprompi_bench/benchmark_lib/reproMPIbenchmark.c, over its dictionary `params_dict`.
pub mod Session
use reprompi_dev.Prelude.{
  ℕ, zero, suc, Bool, true, false, Option, none, some, ◌>>=◌, List, [], ◌∷◌, ◌++◌, ltb,
  if◌then◌else◌,
}
use reprompi_dev.Prelude.Text.{Str}
use reprompi_dev.Dict.{Dictionary, add_element, get_value, get_keys}

-- A printed line `#@key=value`; the value NULL is `none`.
abbrev pub Line : Type 0
Line = Str × Option Str

-- the loop of `print_dict_key_value_pairs`, where `value` is what the variable holds
unfoldable pub print_keys : Dictionary → Option Str → List Str → List Line
print_keys d value [] = []
print_keys d value (k ∷ keynames) =
    let (ret, v) = get_value d (some k) value in (k, v) ∷ print_keys d v keynames

-- over the array of the keys and their number; the array NULL is `none`.
unfoldable pub print_array : Dictionary → Option Str → ℕ → Option (List Str) → Option (List Line)
print_array d value zero keynames = some []
print_array d value (suc n) none = none
print_array d value (suc n) (some keynames) = some (print_keys d value keynames)

-- `print_dict_key_value_pairs`
unfoldable pub print_dict_key_value_pairs : Bool → Dictionary → Option Str → Option (List Line)
print_dict_key_value_pairs alloc d value =
    let (ret, nkeys, keynames) = get_keys alloc d in print_array d value nkeys keynames

-- the static variables `params_dict` and `first_print_call`
pub record Bench : Type 0 where
  pub params_dict : Dictionary
  pub first_print_call : Bool

-- What the library prints; of the settings, the keys and values only
pub data Part : Type 0 where
  key_values : List Line → Part
  header : Part
  job_summary : Part
  job_results : Part

-- `reprompib_add_parameter_to_bench`
unfoldable pub add_parameter_to_bench : Bool → Str → Str → Bench → ℕ × Bench
add_parameter_to_bench alloc key val b =
    let (ret, d) = add_element alloc b.params_dict (some key) (some val) in
    (ret, record b { params_dict = d })

-- `reprompib_print_bench_output`, which prints the settings at its first call
unfoldable pub print_bench_output : Bool → Option Str → ℕ → Bench → Option (List Part × Bench)
print_bench_output alloc value print_summary_methods b = do
  let job = if ltb 0 print_summary_methods then job_summary else job_results
  settings ←
      if b.first_print_call
      then (do
        lines ← print_dict_key_value_pairs alloc b.params_dict value
        some (key_values lines ∷ header ∷ []))
      else some []
  some (settings ++ (job ∷ []), record b { first_print_call = false })
