-- ===== src/Buffers/Calls.antt =====
-- The calls of MPI that a measured operation makes with its parameters:
-- the `execute_` functions of src/collective_ops/mpi_collectives.c and, for the ping-pong
-- operations, of src/collective_ops/pingpong.c.
use reprompi_dev.Prelude.{ℕ, not, Option, none, some, List, [], ◌∷◌, if◌then◌else◌}
use reprompi_dev.Prelude.Int.{ℤ, pos, eqb_ℤ}
use reprompi_dev.Buffers.{
  Datatype, Op, Params, Outcome, goes, ◌>>◌, check, assertion_failed, Buffer,
}

-- A call with the arguments that it gets; the communicator is always MPI_COMM_WORLD and
-- the tag, where there is one, always `TAG`. A request is the position in its array.
pub data MpiCall : Type 0 where
  allgather : Option Buffer → ℕ → Datatype → Option Buffer → ℕ → Datatype → MpiCall
  allreduce : Option Buffer → Option Buffer → ℕ → Datatype → Op → MpiCall
  alltoall : Option Buffer → ℕ → Datatype → Option Buffer → ℕ → Datatype → MpiCall
  barrier : MpiCall
  bcast : Option Buffer → ℕ → Datatype → ℕ → MpiCall
  exscan : Option Buffer → Option Buffer → ℕ → Datatype → Op → MpiCall
  gather : Option Buffer → ℕ → Datatype → Option Buffer → ℕ → Datatype → ℕ → MpiCall
  reduce : Option Buffer → Option Buffer → ℕ → Datatype → Op → ℕ → MpiCall
  reduce_scatter : Option Buffer → Option Buffer → Option (List ℕ) → Datatype → Op → MpiCall
  reduce_scatter_block : Option Buffer → Option Buffer → ℕ → Datatype → Op → MpiCall
  scan : Option Buffer → Option Buffer → ℕ → Datatype → Op → MpiCall
  scatter : Option Buffer → ℕ → Datatype → Option Buffer → ℕ → Datatype → ℕ → MpiCall
  send : Option Buffer → ℕ → Datatype → ℤ → MpiCall
  recv : Option Buffer → ℕ → Datatype → ℤ → MpiCall
  isend : Option Buffer → ℕ → Datatype → ℤ → ℕ → MpiCall
  irecv : Option Buffer → ℕ → Datatype → ℤ → ℕ → MpiCall
  wait_for : ℕ → MpiCall
  wait_all : ℕ → MpiCall
  sendrecv : Option Buffer → ℕ → Datatype → ℤ → Option Buffer → ℕ → Datatype → ℤ → MpiCall

-- what a process calls, in order
abbrev pub Execution : Type 0
Execution = Params → Outcome (List MpiCall)

unfoldable pub execute_Scan : Execution
execute_Scan p = goes (scan p.sbuf p.rbuf p.count p.datatype p.op ∷ [])

unfoldable pub execute_Allreduce : Execution
execute_Allreduce p = goes (allreduce p.sbuf p.rbuf p.count p.datatype p.op ∷ [])

unfoldable pub execute_Exscan : Execution
execute_Exscan p = goes (exscan p.sbuf p.rbuf p.count p.datatype p.op ∷ [])

unfoldable pub execute_Reduce : Execution
execute_Reduce p = goes (reduce p.sbuf p.rbuf p.count p.datatype p.op p.root ∷ [])

unfoldable pub execute_Barrier : Execution
execute_Barrier p = goes (barrier ∷ [])

unfoldable pub execute_Bcast : Execution
execute_Bcast p = goes (bcast p.sbuf p.count p.datatype p.root ∷ [])

unfoldable pub execute_Scatter : Execution
execute_Scatter p = goes (scatter p.sbuf p.count p.datatype p.rbuf p.count p.datatype p.root ∷ [])

unfoldable pub execute_Gather : Execution
execute_Gather p = goes (gather p.sbuf p.count p.datatype p.rbuf p.count p.datatype p.root ∷ [])

unfoldable pub execute_Allgather : Execution
execute_Allgather p = goes (allgather p.sbuf p.count p.datatype p.rbuf p.count p.datatype ∷ [])

unfoldable pub execute_Reduce_scatter : Execution
execute_Reduce_scatter p = goes (reduce_scatter p.sbuf p.rbuf p.counts_array p.datatype p.op ∷ [])

unfoldable pub execute_Reduce_scatter_block : Execution
execute_Reduce_scatter_block p =
    goes (reduce_scatter_block p.sbuf p.rbuf p.rcount p.datatype p.op ∷ [])

unfoldable pub execute_Alltoall : Execution
execute_Alltoall p = goes (alltoall p.sbuf p.count p.datatype p.rbuf p.count p.datatype ∷ [])

-- `execute_Empty`
unfoldable pub execute_Empty : Execution
execute_Empty p = goes []

-- `execute_pingpong_Send_Recv`
unfoldable pub execute_pingpong_Send_Recv : Execution
execute_pingpong_Send_Recv p = do
  check (not (eqb_ℤ p.pingpong_src p.pingpong_dst)) assertion_failed
  goes (
      if eqb_ℤ (pos p.rank) p.pingpong_src
      then send p.sbuf p.count p.datatype p.pingpong_dst
        ∷ recv p.rbuf p.count p.datatype p.pingpong_dst
        ∷ []
      else if eqb_ℤ (pos p.rank) p.pingpong_dst
      then recv p.rbuf p.count p.datatype p.pingpong_src
        ∷ send p.sbuf p.count p.datatype p.pingpong_src
        ∷ []
      else [])

-- `recv_rank` of the other four ping-pong operations, `none` where `flag` stays 0
unfoldable pub recv_rank : Params → Option ℤ
recv_rank p =
    if eqb_ℤ (pos p.rank) p.pingpong_src
    then some p.pingpong_dst
    else if eqb_ℤ (pos p.rank) p.pingpong_dst
    then some p.pingpong_src
    else none

-- what the two processes call with `recv_rank`, and the others not at all
abbrev pub with_peer : Params → (ℤ → List MpiCall) → Outcome (List MpiCall)
with_peer p calls = do
  check (not (eqb_ℤ p.pingpong_src p.pingpong_dst)) assertion_failed
  goes (elim (recv_rank p) [ none ↦ [] | some r ↦ calls r ])

-- `execute_pingpong_Isend_Recv`
unfoldable pub execute_pingpong_Isend_Recv : Execution
execute_pingpong_Isend_Recv p =
    with_peer p (λ r.
      isend p.sbuf p.count p.datatype r 0 ∷ recv p.rbuf p.count p.datatype r ∷ wait_for 0 ∷ [])

-- `execute_pingpong_Isend_Irecv`
unfoldable pub execute_pingpong_Isend_Irecv : Execution
execute_pingpong_Isend_Irecv p = with_peer p (λ r.
    isend p.sbuf p.count p.datatype r 0 ∷ irecv p.rbuf p.count p.datatype r 1 ∷ wait_all 2 ∷ [])

-- `execute_pingpong_Send_Irecv`
unfoldable pub execute_pingpong_Send_Irecv : Execution
execute_pingpong_Send_Irecv p =
    with_peer p (λ r.
      irecv p.rbuf p.count p.datatype r 0 ∷ send p.sbuf p.count p.datatype r ∷ wait_for 0 ∷ [])

-- `execute_pingpong_Sendrecv`
unfoldable pub execute_pingpong_Sendrecv : Execution
execute_pingpong_Sendrecv p =
    with_peer p (λ r. sendrecv p.sbuf p.count p.datatype r p.rbuf p.count p.datatype r ∷ [])
