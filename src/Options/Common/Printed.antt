-- ===== src/Options/Common/Printed.antt =====
-- The operation in the printed settings: `get_mpi_operation_str` of
-- src/reprompi_bench/output_management/bench_info_output.c, beside the parser of --operation.
use reprompi_dev.Prelude.{ℕ, ◌≡◌, refl, Bool, true, false, none, some, ◌==◌, if◌then◌else◌}
use reprompi_dev.Prelude.Text.{Str, ascii, same}
use reprompi_dev.Options.Common.{
  Operation, mpi_bor, mpi_band, mpi_lor, mpi_land, mpi_max, mpi_min, mpi_sum, mpi_prod,
  parse_operation,
}

-- the handles of MPI, which are different
abbrev handle : Operation → ℕ
handle mpi_bor = 0
handle mpi_band = 1
handle mpi_lor = 2
handle mpi_land = 3
handle mpi_max = 4
handle mpi_min = 5
handle mpi_sum = 6
handle mpi_prod = 7

-- `get_mpi_operation_str`, where the third and the fourth test repeat the first two
unfoldable pub get_mpi_operation_str : Operation → Str
get_mpi_operation_str op =
    if handle op == handle mpi_band
    then ascii "MPI_BAND"
    else if handle op == handle mpi_bor
    then ascii "MPI_BOR"
    else if handle op == handle mpi_band
    then ascii "MPI_LAND"
    else if handle op == handle mpi_bor
    then ascii "MPI_LOR"
    else if handle op == handle mpi_max
    then ascii "MPI_MAX"
    else if handle op == handle mpi_min
    then ascii "MPI_MIN"
    else if handle op == handle mpi_sum
    then ascii "MPI_SUM"
    else if handle op == handle mpi_prod
    then ascii "MPI_PROD"
    else ascii "unknown_mpi_op"

-- the two logical operations
abbrev pub is_logical : Operation → Bool
is_logical mpi_lor = true
is_logical mpi_land = true
is_logical op = false

-- The name that the settings show for an operation is the one that the option takes for it, but for the
-- logical or and the logical and: their names in the settings are not accepted by the option.
pub parse_operation-get_mpi_operation_str :
    (op : Operation)
    → parse_operation (some (get_mpi_operation_str op)) ≡ (if is_logical op then none else some op)
unfolding parse_operation get_mpi_operation_str same
parse_operation-get_mpi_operation_str mpi_bor = refl
parse_operation-get_mpi_operation_str mpi_band = refl
parse_operation-get_mpi_operation_str mpi_lor = refl
parse_operation-get_mpi_operation_str mpi_land = refl
parse_operation-get_mpi_operation_str mpi_max = refl
parse_operation-get_mpi_operation_str mpi_min = refl
parse_operation-get_mpi_operation_str mpi_sum = refl
parse_operation-get_mpi_operation_str mpi_prod = refl
