-- ===== src/Options/Common.antt =====
-- The options of the benchmark on MPI functions, `reprompib_parse_common_options` of
-- src/reprompi_bench/option_parser/parse_common_options.c. An exit with an error, a write behind the
-- end of an array included, is `none`.
pub mod Listed
pub mod Checked
pub mod Accepted
pub mod Sample
mod Printed
mod Examples
use reprompi_dev.Prelude.{
  ℕ, zero, suc, ◌+◌, ◌-◌, ◌*◌, ◌%◌, Bool, true, false, ◌&&◌, ◌||◌, not, Option, none, some, ◌>>=◌,
  List, [], ◌∷◌, ◌++◌, length, ltb, ◌==◌, if◌then◌else◌,
}
use reprompi_dev.Prelude.Int.{ℤ, pos, negsuc, ltb_ℤ, leb_ℤ}
use reprompi_dev.Prelude.Text.{Str, same, ascii}
use reprompi_dev.Options.{positive, parse_pingpong_ranks}
use reprompi_dev.Options.Sizes.{SubOption, parse_msize_interval}

-- the operations and the datatypes that an option can name
pub data Operation : Type 0 where
  mpi_bor : Operation
  mpi_band : Operation
  mpi_lor : Operation
  mpi_land : Operation
  mpi_max : Operation
  mpi_min : Operation
  mpi_sum : Operation
  mpi_prod : Operation

pub data Basic : Type 0 where
  mpi_byte : Basic
  mpi_char : Basic
  mpi_int : Basic
  mpi_float : Basic
  mpi_double : Basic

-- `reprompib_common_options_t`; the counts are the lengths of the lists.
pub record Common : Type 0 where
  pub list_mpi_calls : List ℕ
  pub msize_list : List ℕ
  pub enable_job_shuffling : Bool
  pub datatype : Basic
  pub operation : Operation
  pub root_proc : ℤ
  pub input_file : Option Str
  pub output_file : Option Str
  pub pingpong_ranks : ℤ × ℤ

-- `init_parameters`
abbrev pub init_parameters : Common
init_parameters = record {
  list_mpi_calls = [];
  msize_list = [];
  enable_job_shuffling = false;
  datatype = mpi_byte;
  operation = mpi_bor;
  root_proc = pos 0;
  input_file = none;
  output_file = none;
  pingpong_ranks = (negsuc 0, negsuc 0);
}

-- `LEN_MPICALLS_BATCH` and `LEN_MSIZES_BATCH`
abbrev pub len_batch : ℕ
len_batch = 10

-- an array with its allocated size and what is written, from the front
pub record Growing : Type 0 where
  pub allocated : ℕ
  pub written : List ℕ

-- the write of the next entry, and the reallocation; `none` is a write outside
unfoldable pub append_entry : ℕ → Growing → Option Growing
append_entry x a =
    let written = a.written ++ x ∷ [] in
    if ltb (length a.written) a.allocated
    then some (
        if length written % len_batch == 0
        then record { allocated = length written + len_batch; written = written }
        else record a { written = written })
    else none

-- the list at the end of a loop, which must not be empty
unfoldable pub finished : Growing → Option (List ℕ)
finished a = if ltb 0 (length a.written) then some a.written else none

abbrev pub no_entries : Growing
no_entries = record { allocated = len_batch; written = [] }

-- `N_MPI_CALLS`
abbrev pub n_mpi_calls : ℕ
n_mpi_calls = 18

-- the loop of `parse_call_list`, over the indices that `getsubopt` returns
unfoldable pub read_calls : List ℤ → Growing → Option Growing
read_calls [] a = some a
read_calls (negsuc n ∷ indices) a = none
read_calls (pos i ∷ indices) a = do
  a' ← if ltb i n_mpi_calls then append_entry i a else none
  read_calls indices a'

unfoldable pub parse_call_list : List ℤ → Option (List ℕ)
parse_call_list indices = do a ← read_calls indices no_entries; finished a

-- the loop of `parse_msize_list`, over the tokens with what `reprompib_str_to_long` reads in them
unfoldable pub read_msizes : List (Option ℤ) → Growing → Option Growing
read_msizes [] a = some a
read_msizes (number ∷ tokens) a = do
  msize ← positive number
  a' ← append_entry msize a
  read_msizes tokens a'

unfoldable pub parse_msize_list : List (Option ℤ) → Option (List ℕ)
parse_msize_list tokens = do a ← read_msizes tokens no_entries; finished a

-- the chain of `strcmp` of `parse_operation`, and that of `parse_datatype`; an empty or missing
-- argument has no name
unfoldable pub parse_operation : Option Str → Option Operation
parse_operation none = none
parse_operation (some arg) =
    if same (ascii "MPI_BOR") arg
    then some mpi_bor
    else if same (ascii "MPI_BAND") arg
    then some mpi_band
    else if same (ascii "MPI_LOR") arg
    then some mpi_lor
    else if same (ascii "MPI_LAND") arg
    then some mpi_land
    else if same (ascii "MPI_MAX") arg
    then some mpi_max
    else if same (ascii "MPI_MIN") arg
    then some mpi_min
    else if same (ascii "MPI_SUM") arg
    then some mpi_sum
    else if same (ascii "MPI_PROD") arg
    then some mpi_prod
    else none

unfoldable pub parse_datatype : Option Str → Option Basic
parse_datatype none = none
parse_datatype (some arg) =
    if same (ascii "MPI_BYTE") arg
    then some mpi_byte
    else if same (ascii "MPI_CHAR") arg
    then some mpi_char
    else if same (ascii "MPI_INT") arg
    then some mpi_int
    else if same (ascii "MPI_FLOAT") arg
    then some mpi_float
    else if same (ascii "MPI_DOUBLE") arg
    then some mpi_double
    else none

-- an option with its argument, as far as the parts above read it
pub data CommonFlag : Type 0 where
  input_file_flag : Str → CommonFlag
  calls_list : List ℤ → CommonFlag
  msizes_list : List (Option ℤ) → CommonFlag
  msize_interval : List SubOption → CommonFlag
  root_proc_flag : ℤ → CommonFlag
  operation_flag : Option Str → CommonFlag
  datatype_flag : Option Str → CommonFlag
  shuffle_jobs : CommonFlag
  output_file_flag : Str → CommonFlag
  pingpong_ranks_flag : List (Option ℤ) → CommonFlag
  other_flag : CommonFlag

-- the `switch` over one option
unfoldable pub parse_common_flag : ℕ → CommonFlag → Common → Option Common
parse_common_flag nprocs (input_file_flag f) o = some (record o { input_file = some f })
parse_common_flag nprocs (calls_list indices) o = do
  calls ← parse_call_list indices
  some (record o { list_mpi_calls = calls })
parse_common_flag nprocs (msizes_list tokens) o = do
  sizes ← parse_msize_list tokens
  some (record o { msize_list = sizes })
parse_common_flag nprocs (msize_interval subopts) o = do
  sizes ← parse_msize_interval subopts
  some (record o { msize_list = sizes })
parse_common_flag nprocs (root_proc_flag r) o = some (record o { root_proc = r })
parse_common_flag nprocs (operation_flag arg) o = do
  op ← parse_operation arg
  some (record o { operation = op })
parse_common_flag nprocs (datatype_flag arg) o = do
  d ← parse_datatype arg
  some (record o { datatype = d })
parse_common_flag nprocs shuffle_jobs o = some (record o { enable_job_shuffling = true })
parse_common_flag nprocs (output_file_flag f) o = some (record o { output_file = some f })
parse_common_flag nprocs (pingpong_ranks_flag tokens) o = do
  ranks ← parse_pingpong_ranks nprocs tokens
  some (record o { pingpong_ranks = ranks })
parse_common_flag nprocs other_flag o = some o

unfoldable pub parse_common_flags : ℕ → List CommonFlag → Common → Option Common
parse_common_flags nprocs [] o = some o
parse_common_flags nprocs (f ∷ flags) o = do
  o' ← parse_common_flag nprocs f o
  parse_common_flags nprocs flags o'

-- the checks after the loop: the root, the lists without an input file, and the output file, which
-- rank 0 can open or not
unfoldable pub check_root : ℕ → Common → Option Common
check_root nprocs o =
    if ltb_ℤ o.root_proc (pos 0) || leb_ℤ (pos nprocs) o.root_proc then none else some o

unfoldable pub check_lists : Option Str → Common → Option Common
check_lists (some f) o = some o
check_lists none o =
    if ltb 0 (length o.msize_list) && ltb 0 (length o.list_mpi_calls) then some o else none

unfoldable pub check_output : (Str → Bool) → Option Str → Common → Option Common
check_output opens none o = some o
check_output opens (some f) o = if opens f then some o else none

-- `reprompib_parse_common_options`
unfoldable pub parse_common_options : (Str → Bool) → ℕ → List CommonFlag → Option Common
parse_common_options opens nprocs flags = do
  o ← parse_common_flags nprocs flags init_parameters
  with_root ← check_root nprocs o
  with_lists ← check_lists with_root.input_file with_root
  check_output opens with_lists.output_file with_lists
