-- ===== src/Buffers/Examples.antt =====
-- Concrete operations of src/collective_ops/ on small communicators.
use reprompi_dev.Prelude.{ℕ, ◌^◌, ◌≡◌, refl, Bool, true, none, some, List, [], ◌∷◌, arith}
use reprompi_dev.Prelude.Int.{pos}
use reprompi_dev.Buffers.{
  Datatype, Info, Params, Outcome, stopped, goes, CommonOptions, init_collective_basic_info,
  one_process_only, invalid_pingpong_ranks, assertion_failed,
}
use reprompi_dev.Buffers.Calls.{MpiCall, execute_Scatter}
use reprompi_dev.Buffers.Inits.{
  initialize_data_Scatter, initialize_data_Alltoall, cleanup_data_Scatter,
}
use reprompi_dev.Buffers.Pingpong.{initialize_data_pingpong}
use reprompi_dev.Buffers.Fit.{AllFit, IsPeer}
use reprompi_dev.Buffers.Table.{entry}
use reprompi_dev.Buffers.Room.Whole.{call_fits}
use reprompi_dev.Buffers.Cycle.{HasNoBlocks, measured_operation}

-- a structure before its initialisation
abbrev blank : Params
blank = record {
  count = 0;
  sbuf = none;
  rbuf = none;
  tmp_buf = none;
  nprocs = 0;
  root = 0;
  datatype = 0;
  datatype_extent = 0;
  op = 0;
  rank = 0;
  scount = 0;
  rcount = 0;
  counts_array = none;
  displ_array = none;
  pingpong_src = pos 0;
  pingpong_dst = pos 0;
}

abbrev plenty : ℕ → ℕ → Bool
plenty k n = true

abbrev two_bytes : Datatype → ℕ
two_bytes t = 2

-- a root that is out of range
abbrev opts : CommonOptions
opts = record {
  datatype = 5;
  operation = 6;
  root_proc = pos 9;
  pingpong_src = pos 0;
  pingpong_dst = pos 1;
}

abbrev info : Info
info = record {
  nprocs = 3;
  root = 0;
  datatype = 5;
  op = 6;
  pingpong_src = pos 0;
  pingpong_dst = pos 1;
}

basic_info : init_collective_basic_info opts 3 ≡ info
unfolding init_collective_basic_info reprompi_dev.Buffers.valid_root
basic_info = refl

abbrev scattered : Params
scattered = record blank {
  count = 1;
  sbuf = some (0 ∷ 0 ∷ 0 ∷ 0 ∷ 0 ∷ 0 ∷ []);
  rbuf = some (0 ∷ 0 ∷ []);
  nprocs = 3;
  datatype = 5;
  datatype_extent = 2;
  op = 6;
  rank = 2;
  scount = 3;
  rcount = 1;
  pingpong_dst = pos 1;
}

scatter_data : initialize_data_Scatter two_bytes plenty 2 info 1 blank ≡ goes scattered
unfolding initialize_data_Scatter reprompi_dev.Buffers.initialize_common_data
    reprompi_dev.Buffers.check reprompi_dev.Buffers.allocate reprompi_dev.Buffers.reprompi_calloc
scatter_data = refl

-- Without the 64 bits for the product the assertions of MPI_Alltoall see no large count.
alltoall_overflow :
    (q : Params) × (initialize_data_Alltoall two_bytes plenty 0
        (record info { nprocs = 4 })
        (2 ^ 62)
        blank
      ≡ goes q)
    × (q.sbuf ≡ some [])
unfolding initialize_data_Alltoall reprompi_dev.Buffers.initialize_common_data
    reprompi_dev.Buffers.check reprompi_dev.Buffers.allocate reprompi_dev.Buffers.reprompi_calloc
alltoall_overflow = (_, refl, refl)

same_ranks :
    initialize_data_pingpong two_bytes plenty 0 (record info { pingpong_dst = pos 0 }) 1 blank
    ≡ stopped invalid_pingpong_ranks
unfolding initialize_data_pingpong reprompi_dev.Buffers.initialize_common_data
    reprompi_dev.Buffers.check reprompi_dev.Buffers.Pingpong.check_ranks
    reprompi_dev.Buffers.Pingpong.invalid_ranks reprompi_dev.Buffers.Pingpong.outside
same_ranks = refl

alone :
    initialize_data_pingpong two_bytes plenty 0 (record info { nprocs = 1 }) 1 blank
    ≡ stopped one_process_only
unfolding initialize_data_pingpong reprompi_dev.Buffers.initialize_common_data
    reprompi_dev.Buffers.check reprompi_dev.Buffers.Pingpong.check_ranks
alone = refl

call_fits_example :
    (calls : List MpiCall) × (execute_Scatter scattered ≡ goes calls) × AllFit two_bytes 3 2 calls
call_fits_example =
    call_fits 11 (entry execute_Scatter initialize_data_Scatter cleanup_data_Scatter) refl two_bytes
      plenty 2 info 1 blank scattered (omega arith) (omega arith) (omega arith) scatter_data

measured_operation_example :
    (q : Params) × (calls : List MpiCall) × (initialize_data_Scatter two_bytes plenty 2
        (init_collective_basic_info opts 3)
        7
        blank
      ≡ goes q)
    × (execute_Scatter q ≡ goes calls)
    × AllFit two_bytes 3 2 calls
    × HasNoBlocks (cleanup_data_Scatter q)
unfolding IsPeer
measured_operation_example =
    measured_operation 11 (entry execute_Scatter initialize_data_Scatter cleanup_data_Scatter) refl
      two_bytes plenty opts 3 2 7 blank (λ k n. refl) (omega arith) (omega arith)
      (λ e. (omega arith, omega arith, refl))
