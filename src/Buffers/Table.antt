-- ===== src/Buffers/Table.antt =====
-- `collective_calls` of src/collective_ops/collectives.c.
use reprompi_dev.Prelude.{List, [], ◌∷◌}
use reprompi_dev.Buffers.{Params, cleanup_data_default}
use reprompi_dev.Buffers.Inits.{
  Initializer, initialize_data_default, initialize_data_Scatter, initialize_data_Gather,
  initialize_data_Allgather, initialize_data_Reduce_scatter, initialize_data_Reduce_scatter_block,
  initialize_data_Alltoall, cleanup_data_Scatter, cleanup_data_Gather, cleanup_data_Allgather,
  cleanup_data_Reduce_scatter, cleanup_data_Reduce_scatter_block, cleanup_data_Alltoall,
}
use reprompi_dev.Buffers.Pingpong.{initialize_data_pingpong, cleanup_data_pingpong}
use reprompi_dev.Buffers.Calls.{
  Execution, execute_Scan, execute_Allreduce, execute_Exscan, execute_Reduce, execute_Barrier,
  execute_Bcast, execute_Scatter, execute_Gather, execute_Allgather, execute_Reduce_scatter,
  execute_Reduce_scatter_block, execute_Alltoall, execute_Empty, execute_pingpong_Send_Recv,
  execute_pingpong_Isend_Recv, execute_pingpong_Isend_Irecv, execute_pingpong_Send_Irecv,
  execute_pingpong_Sendrecv,
}

-- `collective_ops_t`
pub record CollectiveOps : Type 0 where
  pub collective_call : Execution
  pub initialize_data : Initializer
  pub cleanup_data : Params → Params

-- an entry of the table
abbrev pub entry : Execution → Initializer → (Params → Params) → CollectiveOps
entry call initialize cleanup = record {
  collective_call = call;
  initialize_data = initialize;
  cleanup_data = cleanup;
}

-- `collective_calls`, in the order of the `enum` of collectives.h
abbrev pub collective_calls : List CollectiveOps
collective_calls =
    entry execute_Allgather initialize_data_Allgather cleanup_data_Allgather
    ∷ entry execute_Allreduce initialize_data_default cleanup_data_default
    ∷ entry execute_Alltoall initialize_data_Alltoall cleanup_data_Alltoall
    ∷ entry execute_Barrier initialize_data_default cleanup_data_default
    ∷ entry execute_Bcast initialize_data_default cleanup_data_default
    ∷ entry execute_Exscan initialize_data_default cleanup_data_default
    ∷ entry execute_Gather initialize_data_Gather cleanup_data_Gather
    ∷ entry execute_Reduce initialize_data_default cleanup_data_default
    ∷ entry execute_Reduce_scatter initialize_data_Reduce_scatter cleanup_data_Reduce_scatter
    ∷ entry execute_Reduce_scatter_block initialize_data_Reduce_scatter_block
        cleanup_data_Reduce_scatter_block
    ∷ entry execute_Scan initialize_data_default cleanup_data_default
    ∷ entry execute_Scatter initialize_data_Scatter cleanup_data_Scatter
    ∷ entry execute_pingpong_Send_Recv initialize_data_pingpong cleanup_data_pingpong
    ∷ entry execute_pingpong_Sendrecv initialize_data_pingpong cleanup_data_pingpong
    ∷ entry execute_pingpong_Isend_Recv initialize_data_pingpong cleanup_data_pingpong
    ∷ entry execute_pingpong_Isend_Irecv initialize_data_pingpong cleanup_data_pingpong
    ∷ entry execute_pingpong_Send_Irecv initialize_data_pingpong cleanup_data_pingpong
    ∷ entry execute_Empty initialize_data_default cleanup_data_default
    ∷ []
