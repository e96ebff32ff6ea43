-- ===== src/Library/Examples.antt =====
-- The library on small inputs.
use reprompi_dev.Prelude.{
  ℕ, ◌+◌, ◌≡◌, refl, none, some, List, [], ◌∷◌, map, take, ltb, if◌then◌else◌, All, get_elem?,
  arith, Option, true,
}
use reprompi_dev.Prelude.Int.{pos}
use reprompi_dev.Prelude.Text.{Str, ascii}
use reprompi_dev.Dict.{Dictionary, init_dictionary}
use reprompi_dev.Library.Settings.{Part}
use reprompi_dev.Library.Settings.Session.{
  Call, add_parameter, print_output, session, Shows, session_lem,
}
use reprompi_dev.Library.{
  compute_argc, tokens, Argv, check_and_override_lib_env_params, JobInfo, initialize_job,
  cleanup_job, Vars,
}
use Prim.{tt}
use reprompi_dev.Library.Copy.{make_argv_copy}
use reprompi_dev.Library.Copy.Strings.{IsText, strings_at, make_argv_copy-strings_at}
use reprompi_dev.Library.Argc.{words_given}
use reprompi_dev.Library.Override.{check_and_override_lem, no_words}
use reprompi_dev.Library.UserVars.{
  Added, svar, ivar, svars_of, ivars_of, add_all, with_vars, add_all_lem,
}

-- two options with their values, the last one of several characters
abbrev two_options : Str
two_options = ascii "--a=1 --b=2"

compute_argc_two : compute_argc two_options ≡ 2
unfolding compute_argc reprompi_dev.Library.scan_all reprompi_dev.Library.scan
compute_argc_two = refl

-- a last word of one character is not counted
compute_argc_short : compute_argc (ascii "-n 5") ≡ 1
unfolding compute_argc reprompi_dev.Library.scan_all reprompi_dev.Library.scan
compute_argc_short = refl

-- nor is one before a space
compute_argc_space : compute_argc (ascii "--a=1 --b=2 ") ≡ 1
unfolding compute_argc reprompi_dev.Library.scan_all reprompi_dev.Library.scan
compute_argc_space = refl

-- one word before a space: the write to `argvnew[1]` is out of bounds
override_space :
    check_and_override_lib_env_params (some (ascii "--a=1 ")) (ascii "prog") 1 [] ≡ none
unfolding check_and_override_lib_env_params reprompi_dev.Library.put compute_argc
    reprompi_dev.Library.scan_all reprompi_dev.Library.scan reprompi_dev.Library.put_tokens
    reprompi_dev.Library.tokens_from
override_space = refl

override_unset : check_and_override_lib_env_params none (ascii "prog") 1 [] ≡ some (1, [])
unfolding check_and_override_lib_env_params
override_unset = refl

check_and_override_lem_example :
    check_and_override_lib_env_params (some two_options) (ascii "prog") 1 [] ≡ (
      let n = words_given two_options in
      if ltb 0 n
      then some (n + 1, some (ascii "prog") ∷ map some (take n (tokens two_options)))
      else if no_words (tokens two_options)
      then some (n + 1, some (ascii "prog") ∷ [])
      else none)
check_and_override_lem_example = check_and_override_lem two_options (ascii "prog") 1 []

-- five variables of text, so that the array grows, and an integer
abbrev variables : List Added
variables =
    svar (ascii "a") (ascii "1")
    ∷ svar (ascii "b") (ascii "2")
    ∷ svar (ascii "c") (ascii "3")
    ∷ ivar (ascii "n") (pos 7)
    ∷ svar (ascii "d") (ascii "4")
    ∷ svar (ascii "e") (ascii "5")
    ∷ []

abbrev new_job : JobInfo ℕ
new_job = initialize_job 2 (1 ∷ 4 ∷ []) (2 ∷ 9 ∷ []) (ascii "max") (ascii "t") (ascii "all")

add_all_lem_example :
    add_all variables new_job ≡ some (with_vars new_job (svars_of variables) (ivars_of variables))
add_all_lem_example =
    add_all_lem 2 (1 ∷ 4 ∷ []) (2 ∷ 9 ∷ []) (ascii "max") (ascii "t") (ascii "all") variables

-- what is left of a job with variables: the freed names in an array
cleanup_kept :
    (cleanup_job (with_vars new_job ((ascii "a", ascii "1") ∷ []) [])).svars
    ≡ record { n_user = 0; user = none; names = some (none ∷ none ∷ none ∷ none ∷ []) }
unfolding cleanup_job reprompi_dev.Library.cleanup_vars
cleanup_kept = refl

abbrev arguments : List Str
arguments = ascii "ab" ∷ [] ∷ ascii "c" ∷ []

arguments-IsText : All IsText arguments
arguments-IsText = (((omega arith), ((omega arith), tt)), (tt, (((omega arith), tt), tt)))

make_argv_copy-strings_at_example :
    (pointers : List (Option ℕ)) × (block : List ℕ) × (make_argv_copy true arguments
      ≡ some (pointers, block))
    × (strings_at pointers block ≡ arguments)
    × (get_elem? pointers 3 ≡ some none)
make_argv_copy-strings_at_example = make_argv_copy-strings_at arguments arguments-IsText

copied :
    make_argv_copy true arguments
    ≡ some (some 0 ∷ some 3 ∷ some 4 ∷ none ∷ [], 97 ∷ 98 ∷ 0 ∷ 0 ∷ 99 ∷ 0 ∷ [])
unfolding make_argv_copy reprompi_dev.Library.Copy.copy_args reprompi_dev.Library.Copy.memcpy
    reprompi_dev.Library.Copy.strlen_sum
copied = refl

-- two values for one key before the first output, and another key after it
abbrev calls : List Call
calls =
    add_parameter (ascii "node") (ascii "a")
    ∷ add_parameter (ascii "node") (ascii "b")
    ∷ print_output 0
    ∷ add_parameter (ascii "run") (ascii "7")
    ∷ print_output 3
    ∷ []

abbrev no_bins : Dictionary
no_bins = record { size = 0; table = [] }

session_lem_example :
    (parts : List Part) × (session none calls (record {
      params_dict = (init_dictionary true no_bins (pos 100)).1;
      first_print_call = true;
    })
      ≡ some parts)
    × Shows (λ q. none) calls parts
session_lem_example = session_lem none no_bins calls
