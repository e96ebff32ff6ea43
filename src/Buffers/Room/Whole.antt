-- ===== src/Buffers/Room/Whole.antt =====
-- Every measured operation of src/collective_ops/collectives.c, from its initialisation to its
-- cleanup.
use Prim.{tt}
use reprompi_dev.Prelude.{ℕ, ◌*◌, ◌^◌, ◌<◌, ◌≡◌, Bool, some, List, get_elem?, All, ◌&◌, All_at}
use reprompi_dev.Buffers.{Datatype, Info, Params, goes}
use reprompi_dev.Buffers.Calls.{MpiCall}
use reprompi_dev.Buffers.Fit.{AllFit}
use reprompi_dev.Buffers.Table.{CollectiveOps, collective_calls}
use reprompi_dev.Buffers.Room.{
  HasRoom, allgather_room, allreduce_room, alltoall_room, barrier_room, bcast_room, exscan_room,
  gather_room, reduce_room, reduce_scatter_room, reduce_scatter_block_room, scan_room, scatter_room,
  empty_room,
}
use reprompi_dev.Buffers.Room.Pingpong.{
  send_recv_room, sendrecv_room, isend_recv_room, isend_irecv_room, send_irecv_room,
}

All-HasRoom : All HasRoom collective_calls
All-HasRoom =
    allgather_room & allreduce_room & alltoall_room & barrier_room & bcast_room & exscan_room
    & gather_room & reduce_room & reduce_scatter_room & reduce_scatter_block_room & scan_room
    & scatter_room & send_recv_room & sendrecv_room & isend_recv_room & isend_irecv_room
    & send_irecv_room & empty_room & tt

-- For every entry of the table of operations, on every process of the communicator, when its
-- initialisation does not stop the process, with a root of the communicator and no overflow
-- of the count times the number of processes in a `long`: the operation calls MPI without a
-- failed assertion, each call gets valid counts and ranks, and its blocks hold all bytes that
-- MPI reads or writes on that process.
pub call_fits :
    (i : ℕ) (ops : CollectiveOps)
    → get_elem? collective_calls i ≡ some ops
    → (extent : Datatype → ℕ) (memory : ℕ → ℕ → Bool) (rank : ℕ) (info : Info) (count : ℕ)
      (p₀ q : Params)
    → rank < info.nprocs
    → info.root < info.nprocs
    → count * info.nprocs < 2 ^ 63
    → ops.initialize_data extent memory rank info count p₀ ≡ goes q
    → (calls : List MpiCall) × (ops.collective_call q ≡ goes calls)
      × AllFit extent info.nprocs rank calls
call_fits i ops h = All_at HasRoom collective_calls i ops All-HasRoom h
