-- ===== src/Library/Settings/Session.antt =====
-- Calls of the library in any order: which parameters its output shows.
use Prim.{tt}
use mathlib.Core.Path.{subst, fun_ext}
use native.Mathlib.Decide.{dec_lt}
use reprompi_dev.Prelude.{
  ℕ, ◌≡◌, refl, ap, ◌∙◌, true, false, Option, none, some, ◌>>=◌, List, [], ◌∷◌, ◌++◌, length, map,
  All, ltb, if◌then◌else◌, arith,
}
use reprompi_dev.Prelude.Int.{pos}
use reprompi_dev.Prelude.Text.{Str, same}
use reprompi_dev.Dict.{Dictionary, init_dictionary, get_value, get_nkeys, get_keys, is_empty}
use reprompi_dev.Dict.Table.{IsValid, view, get_value-view, init_dictionary-IsValid}
use reprompi_dev.Dict.Updates.{add_element-IsValid, add_element-with_bin, view-add_element}
use reprompi_dev.Dict.Keys.{occurrences, get_keys-view, is_empty-view}
use reprompi_dev.Options.Extra.Refinement.{Map}
use reprompi_dev.Library.Settings.{
  Line, print_keys, print_array, print_dict_key_value_pairs, Bench, Part, key_values, header,
  job_summary, job_results, add_parameter_to_bench, print_bench_output,
}

-- Every key with a value has one line, which shows its value, and there is no other line.
pub record Lists (m : Map) (lines : List Line) : Type 0 where
  pub once : (q : Str) → occurrences q (map (λ l. l.0) lines) ≡ elim (m q) [ none ↦ 0 | some _ ↦ 1 ]
  pub values : All (λ l. l.1 ≡ m l.0) lines

module _ {d : Dictionary} (valid : IsValid d) where
  print_keys-keys :
      (value : Option Str) (keys : List Str) → map (λ l. l.0) (print_keys d value keys) ≡ keys
  unfolding print_keys
  print_keys-keys value [] = refl
  print_keys-keys value (k ∷ keys) =
      ap (λ ks. k ∷ ks) (print_keys-keys (get_value d (some k) value).1 keys)

  print_keys-values :
      (value : Option Str) (keys : List Str) → All (λ l. l.1 ≡ view d l.0) (print_keys d value keys)
  unfolding print_keys
  print_keys-values value [] = tt
  print_keys-values value (k ∷ keys) = (
    ground (arith, get_value-view d k value valid.positive),
    print_keys-values (get_value d (some k) value).1 keys,
  )

  print_array_lem :
      (value : Option Str) (keys : List Str)
      → print_array d value (length keys) (some keys) ≡ some (print_keys d value keys)
  unfolding print_array print_keys
  print_array_lem value [] = refl
  print_array_lem value (k ∷ keys) = refl

  -- A valid dictionary is printed as the map that it stands for, with memory.
  print_dict-Lists :
      (value : Option Str)
      → (lines : List Line) × (print_dict_key_value_pairs true d value ≡ some lines)
        × Lists (view d) lines
  unfolding print_dict_key_value_pairs
  print_dict-Lists value = elim (dec_lt 0 (get_nkeys d)) [
    | yes some_keys ↦
        let (keys, e, each) = get_keys-view valid some_keys in
        (
          print_keys d value keys,
          rw e (print_array_lem value keys),
          record {
            once = λ q. ap (occurrences q) (print_keys-keys value keys) ∙ each q;
            values = print_keys-values value keys;
          },
        )
    | no none_there ↦
        let no_array : get_keys true d ≡ (0, 0, none) = unfold get_keys in ground arith in
        let no_values = (is_empty-view valid).0 (unfold is_empty in ground arith) in
        (
          [],
          rw no_array (unfold print_array in refl),
          record { once = λ q. unfold occurrences in rw (no_values q) refl; values = tt },
        )
  ]

-- The calls of a user, and what they print one after the other
pub data Call : Type 0 where
  add_parameter : Str → Str → Call
  print_output : ℕ → Call

module _ (value : Option Str) where
  unfoldable pub session : List Call → Bench → Option (List Part)
  session [] b = some []
  session (add_parameter key val ∷ calls) b =
      session calls (add_parameter_to_bench true key val b).1
  session (print_output methods ∷ calls) b = do
    (parts, b) ← print_bench_output true value methods b
    rest ← session calls b
    some (parts ++ rest)

-- the part of a job
abbrev pub job_part : ℕ → Part
job_part methods = if ltb 0 methods then job_summary else job_results

abbrev pub job_parts : List Call → List Part
job_parts [] = []
job_parts (add_parameter key val ∷ calls) = job_parts calls
job_parts (print_output methods ∷ calls) = job_part methods ∷ job_parts calls

-- Nothing is printed without a job; the first one is printed behind the settings, which list the
-- parameters added before it with their last values, and the later ones alone.
unfoldable pub Shows : Map → List Call → List Part → Type 0
Shows m [] parts = parts ≡ []
Shows m (add_parameter key val ∷ calls) parts =
    Shows (λ q. if same key q then some val else m q) calls parts
Shows m (print_output methods ∷ calls) parts =
    (lines : List Line) × (parts ≡ key_values lines ∷ header ∷ job_part methods ∷ job_parts calls)
    × Lists m lines

Lists-same :
    (m n : Map) (lines : List Line) → ((q : Str) → m q ≡ n q) → Lists m lines → Lists n lines
Lists-same m n lines h l = subst (λ (f : Map). Lists f lines) (fun_ext h) l

module _ (value : Option Str) where
  -- after the first output
  later_calls :
      (calls : List Call) (b : Bench)
      → b.first_print_call ≡ false
      → session value calls b ≡ some (job_parts calls)
  unfolding session print_bench_output add_parameter_to_bench
  later_calls [] b later = refl
  later_calls (add_parameter key val ∷ calls) b later = later_calls calls _ later
  later_calls (print_output methods ∷ calls) b later =
      rw (later, later_calls calls (record b { first_print_call = false }) refl) refl

  calls_shown :
      (calls : List Call) (b : Bench) (m : Map)
      → IsValid b.params_dict
      → b.first_print_call ≡ true
      → ((q : Str) → view b.params_dict q ≡ m q)
      → (parts : List Part) × (session value calls b ≡ some parts) × Shows m calls parts
  unfolding session Shows print_bench_output add_parameter_to_bench
  calls_shown [] b m valid first same_map = ([], refl, refl)
  calls_shown (add_parameter key val ∷ calls) b m valid first same_map =
      calls_shown calls (add_parameter_to_bench true key val b).1
        (λ q. if same key q then some val else m q) (add_element-IsValid valid key val).1 first
        (λ q.
          ap (λ (r : ℕ × Dictionary). view r.1 q) (add_element-with_bin valid key val)
          ∙ view-add_element valid key val q
          ∙ ap (λ x. if same key q then some val else x) (same_map q))
  calls_shown (print_output methods ∷ calls) b m valid first same_map =
      let (lines, e, listed) = print_dict-Lists valid value in
      let after = later_calls calls (record b { first_print_call = false }) refl in
      (
        key_values lines ∷ header ∷ job_part methods ∷ job_parts calls,
        rw (first, e, after) refl,
        (lines, refl, Lists-same (view b.params_dict) m lines same_map listed),
      )

  -- After the initialisation of its dictionary with memory, for any calls of a user, in any order, the
  -- library prints one part for each job in their order, and the settings once, before the first of
  -- them. They list the keys of the parameters added before that first output, each once, with
  -- the value that was added last for it.
  pub session_lem :
      (old : Dictionary) (calls : List Call)
      → (parts : List Part) × (session value calls (record {
        params_dict = (init_dictionary true old (pos 100)).1;
        first_print_call = true;
      })
          ≡ some parts)
        × Shows (λ q. none) calls parts
  session_lem old calls =
      let (ok, size, valid, nothing) = init_dictionary-IsValid old 99 in
      calls_shown calls
        (record { params_dict = (init_dictionary true old (pos 100)).1; first_print_call = true })
        (λ q. none) valid refl nothing
