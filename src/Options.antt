-- ===== src/Options.antt =====
-- The options of the benchmark, src/reprompi_bench/option_parser/parse_options.c, and the ranks of a
-- ping-pong, parse_common_options.c beside it. The options in the order in which getopt_long
-- returns them, the indices that getsubopt returns and the tokens of strtok_r with the
-- numbers that strtol reads in them are the input; an exit with an error is `none`.
mod Ranges
pub mod Ranks
pub mod Sizes
pub mod Common
pub mod Extra
pub mod Timing
mod Examples
use Prim.Native.Nat.{bit_or}
use reprompi_dev.Prelude.{
  ℕ, ◌+◌, ◌-◌, ◌^◌, ◌%◌, Bool, true, false, ◌||◌, ◌&&◌, not, Option, none, some, ◌>>=◌, List, [],
  ◌∷◌, ◌++◌, length, get_elem?, ltb, leb, ◌==◌, if◌then◌else◌,
}
use reprompi_dev.Prelude.Int.{ℤ, pos, negsuc, ltb_ℤ, leb_ℤ, eqb_ℤ}
use reprompi_dev.Results.Summary.{SummaryMethod, summary_methods}

-- An option with its argument: a number is `none` if `reprompib_str_to_long` fails, the list of
-- methods is `none` without argument.
pub data Flag : Type 0 where
  nrep : Option ℤ → Flag
  max_nrep : Option ℤ → Flag
  summary : Option (List ℤ) → Flag
  verbose_flag : Flag
  unknown : Flag

-- `reprompib_options_t`; its numbers are never negative.
pub record Options : Type 0 where
  pub n_rep : ℕ
  pub verbose : ℕ
  pub print_summary_methods : ℕ
  pub max_n_rep : ℕ

-- `init_parameters`
abbrev pub init_parameters : Options
init_parameters = record { n_rep = 0; verbose = 0; print_summary_methods = 0; max_n_rep = 0 }

-- a number that must be positive
unfoldable pub positive : Option ℤ → Option ℕ
positive none = none
positive (some (negsuc n)) = none
positive (some (pos n)) = if ltb 0 n then some n else none

-- the mask of the method that `getsubopt` names
unfoldable pub method_mask : ℤ → Option ℕ
method_mask (negsuc i) = none
method_mask (pos i) = do m ← get_elem? summary_methods i; some m.mask

-- the loop over the sub-options
unfoldable pub add_methods : List ℤ → ℕ → Option ℕ
add_methods [] mask = some mask
add_methods (i ∷ indices) mask = do m ← method_mask i; add_methods indices (bit_or mask m)

-- the loop over the table
unfoldable pub all_methods : List SummaryMethod → ℕ → ℕ
all_methods [] mask = mask
all_methods (m ∷ ms) mask = all_methods ms (bit_or mask m.mask)

-- `parse_summary_list`
unfoldable pub parse_summary_list : Option (List ℤ) → ℕ → Option ℕ
parse_summary_list subopts mask = do
  given ← elim subopts [ none ↦ some mask | some indices ↦ add_methods indices mask ]
  some (if given == 0 then all_methods summary_methods given else given)

-- the `switch` over one option
unfoldable pub parse_flag : Flag → Options → Option Options
parse_flag (nrep number) o = do nreps ← positive number; some (record o { n_rep = nreps })
parse_flag (max_nrep number) o = do nreps ← positive number; some (record o { max_n_rep = nreps })
parse_flag (summary subopts) o = do
  mask ← parse_summary_list subopts o.print_summary_methods
  some (record o { print_summary_methods = mask })
parse_flag verbose_flag o = some (record o { verbose = 1 })
parse_flag unknown o = some o

unfoldable pub parse_flags : List Flag → Options → Option Options
parse_flags [] o = some o
parse_flags (f ∷ flags) o = do o' ← parse_flag f o; parse_flags flags o'

-- the checks after the loop
unfoldable pub check_max_nrep : Options → Option Options
check_max_nrep o =
    if ltb 0 o.max_n_rep
    then (if ltb o.max_n_rep o.n_rep then none else some o)
    else some (record o { max_n_rep = o.n_rep })

-- `reprompib_parse_options`
unfoldable pub parse_options : List Flag → Option Options
parse_options flags = do o ← parse_flags flags init_parameters; check_max_nrep o

-- A `long` stored in an `int`
unfoldable pub to_int : ℤ → ℤ
to_int (pos n) =
    if ltb (n % 2 ^ 32) (2 ^ 31) then pos (n % 2 ^ 32) else negsuc (2 ^ 32 - 1 - n % 2 ^ 32)
to_int (negsuc n) =
    if ltb (n % 2 ^ 32) (2 ^ 31) then negsuc (n % 2 ^ 32) else pos (2 ^ 32 - 1 - n % 2 ^ 32)

-- the loop over the tokens, with the ranks read so far; a token without a number is `none`
unfoldable pub read_ranks : ℕ → List (Option ℤ) → List ℤ → Option (List ℤ)
read_ranks nprocs [] ranks = some ranks
read_ranks nprocs (none ∷ tokens) ranks = none
read_ranks nprocs (some number ∷ tokens) ranks =
    let rest = read_ranks nprocs tokens (ranks ++ to_int number ∷ []) in
    if ltb_ℤ (to_int number) (pos 0) || leb_ℤ (pos nprocs) (to_int number)
    then none
    else if leb 2 (length ranks)
    then none
    else rest

-- the checks of the number of ranks and of their difference
unfoldable pub two_different : List ℤ → Option (ℤ × ℤ)
two_different (a ∷ b ∷ []) = if eqb_ℤ a b then none else some (a, b)
two_different ranks = none

-- `parse_pingpong_ranks`
unfoldable pub parse_pingpong_ranks : ℕ → List (Option ℤ) → Option (ℤ × ℤ)
parse_pingpong_ranks nprocs tokens = do ranks ← read_ranks nprocs tokens []; two_different ranks
