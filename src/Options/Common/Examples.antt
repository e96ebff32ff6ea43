-- ===== src/Options/Common/Examples.antt =====
-- Options for MPI functions, src/reprompi_bench/option_parser/parse_common_options.c.
use Prim.{tt}
use mathlib.Core.List.{map}
use reprompi_dev.Prelude.{ℕ, ◌≡◌, refl, none, some, List, [], ◌∷◌, All, arith}
use reprompi_dev.Prelude.Int.{pos}
use reprompi_dev.Buffers.Fit.{IsPeer}
use reprompi_dev.Jobs.{jobs_of_options}
use reprompi_dev.Options.Common.{
  Common, mpi_sum, mpi_int, CommonFlag, calls_list, msizes_list, root_proc_flag, operation_flag,
  datatype_flag, pingpong_ranks_flag, output_file_flag, n_mpi_calls, parse_call_list,
  parse_msize_list, parse_common_options,
}
use reprompi_dev.Options.Common.Sample.{
  flags, accepted, opens_all, flags_read, flags-HasSmallExponents,
}
use reprompi_dev.Options.Common.{mpi_land, parse_operation}
use reprompi_dev.Options.Common.Printed.{
  get_mpi_operation_str, parse_operation-get_mpi_operation_str,
}
use reprompi_dev.Options.Common.Listed.{lists_accepted}
use reprompi_dev.Options.Common.Checked.{IsInRange}
use reprompi_dev.Options.Common.Accepted.{
  GivesJobs, CanWrite, CanRun, parse_common_options-IsInRange, accepted_jobs-CanRun,
}

no_calls : parse_common_options opens_all 4 (msizes_list (some (pos 8) ∷ []) ∷ []) ≡ none
unfolding parse_common_options reprompi_dev.Options.Common.parse_common_flags
    reprompi_dev.Options.Common.parse_common_flag parse_msize_list
    reprompi_dev.Options.Common.read_msizes reprompi_dev.Options.positive
    reprompi_dev.Options.Common.append_entry reprompi_dev.Options.Common.finished
    reprompi_dev.Options.Common.check_root reprompi_dev.Options.Common.check_lists
no_calls = refl

bad_root : parse_common_options opens_all 4 (root_proc_flag (pos 4) ∷ []) ≡ none
unfolding parse_common_options reprompi_dev.Options.Common.parse_common_flags
    reprompi_dev.Options.Common.parse_common_flag reprompi_dev.Options.Common.check_root
bad_root = refl

parse_common_options-IsInRange_example :
    IsPeer (pos 1) 4 × IsInRange 4 accepted × GivesJobs none accepted × CanWrite opens_all none
parse_common_options-IsInRange_example =
    parse_common_options-IsInRange opens_all 4 flags accepted flags-HasSmallExponents flags_read

accepted_jobs-CanRun_example : All CanRun (jobs_of_options (pos 5) (8 ∷ 16 ∷ []) (4 ∷ 10 ∷ []))
accepted_jobs-CanRun_example =
    accepted_jobs-CanRun opens_all 4 flags accepted (pos 5) flags-HasSmallExponents flags_read

-- eleven calls, so that the array grows
abbrev eleven : List ℕ
eleven = 0 ∷ 1 ∷ 2 ∷ 3 ∷ 4 ∷ 5 ∷ 6 ∷ 7 ∷ 8 ∷ 9 ∷ 17 ∷ []

lists_accepted_example :
    (parse_call_list (map pos eleven) ≡ some eleven)
    × (parse_msize_list (map (λ s. some (pos s)) (8 ∷ 16 ∷ [])) ≡ some (8 ∷ 16 ∷ []))
lists_accepted_example =
    lists_accepted eleven (8 ∷ 16 ∷ [])
      (
        omega arith,
        (
          omega arith,
          (
            omega arith,
            (
              omega arith,
              (
                omega arith,
                (
                  omega arith,
                  (omega arith, (omega arith, (omega arith, (omega arith, (omega arith, tt))))),
                ),
              ),
            ),
          ),
        ),
      )
      (omega arith) (omega arith, (omega arith, tt)) (omega arith)

parse_operation-get_mpi_operation_str_example :
    parse_operation (some (get_mpi_operation_str mpi_land)) ≡ none
parse_operation-get_mpi_operation_str_example = parse_operation-get_mpi_operation_str mpi_land
