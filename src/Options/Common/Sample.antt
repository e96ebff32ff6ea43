-- ===== src/Options/Common/Sample.antt =====
-- Accepted options for MPI functions, for the examples.
use Prim.{tt}
use reprompi_dev.Prelude.{
  ℕ, ◌<◌, ◌≡◌, refl, sym, ap, Bool, true, false, Option, none, some, List, [], ◌∷◌, length, All,
  arith,
}
use reprompi_dev.Prelude.Int.{pos}
use reprompi_dev.Prelude.Text.{Str, ascii}
use reprompi_dev.Options.Common.{
  Common, mpi_sum, mpi_int, CommonFlag, calls_list, msizes_list, root_proc_flag, operation_flag,
  datatype_flag, pingpong_ranks_flag, output_file_flag, n_mpi_calls, parse_call_list,
  parse_msize_list, parse_common_options,
}
use reprompi_dev.Options.Common.Checked.{HasSmallExponents}

-- --calls-list=MPI_Bcast,MPI_Scan --msizes-list=8,16 --root-proc=1 --operation=MPI_SUM
-- --datatype=MPI_INT --pingpong-ranks=0,3
abbrev pub flags : List CommonFlag
flags =
    calls_list (pos 4 ∷ pos 10 ∷ [])
    ∷ msizes_list (some (pos 8) ∷ some (pos 16) ∷ [])
    ∷ root_proc_flag (pos 1)
    ∷ operation_flag (some (ascii "MPI_SUM"))
    ∷ datatype_flag (some (ascii "MPI_INT"))
    ∷ pingpong_ranks_flag (some (pos 0) ∷ some (pos 3) ∷ [])
    ∷ []

abbrev pub accepted : Common
accepted = record {
  list_mpi_calls = 4 ∷ 10 ∷ [];
  msize_list = 8 ∷ 16 ∷ [];
  enable_job_shuffling = false;
  datatype = mpi_int;
  operation = mpi_sum;
  root_proc = pos 1;
  input_file = none;
  output_file = none;
  pingpong_ranks = (pos 0, pos 3);
}

abbrev pub opens_all : Str → Bool
opens_all f = true

pub flags_read : parse_common_options opens_all 4 flags ≡ some accepted
unfolding parse_common_options reprompi_dev.Options.Common.parse_common_flags
    reprompi_dev.Options.Common.parse_common_flag parse_call_list
    reprompi_dev.Options.Common.read_calls reprompi_dev.Options.Common.append_entry
    reprompi_dev.Options.Common.finished parse_msize_list reprompi_dev.Options.Common.read_msizes
    reprompi_dev.Options.positive reprompi_dev.Options.Common.parse_operation
    reprompi_dev.Prelude.Text.same reprompi_dev.Options.Common.parse_datatype
    reprompi_dev.Options.parse_pingpong_ranks reprompi_dev.Options.read_ranks
    reprompi_dev.Options.to_int reprompi_dev.Options.two_different
    reprompi_dev.Options.Common.check_root reprompi_dev.Options.Common.check_lists
    reprompi_dev.Options.Common.check_output
flags_read = refl

pub flags-HasSmallExponents : All HasSmallExponents flags
unfolding HasSmallExponents
flags-HasSmallExponents = (tt, (tt, (tt, (tt, (tt, (tt, tt))))))
