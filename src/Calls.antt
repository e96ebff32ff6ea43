-- ===== src/Calls.antt =====
-- The table of measured functions, src/collective_ops/collectives.c: names and indices.
pub mod Index
use reprompi_dev.Prelude.{
  ℕ, zero, suc, ◌+◌, Bool, true, false, List, [], ◌∷◌, get_or, ltb, leb, ◌&&◌, ◌||◌, length,
  if◌then◌else◌,
}
use reprompi_dev.Prelude.Int.{ℤ, pos, negsuc, pos_part, ltb_ℤ, leb_ℤ}
use reprompi_dev.Prelude.Text.{Str, same, ascii}

-- `mpi_calls_opts`, in the order of the `enum` of collectives.h, without the NULL at its end
abbrev pub mpi_calls_opts : List Str
mpi_calls_opts =
    ascii "MPI_Allgather"
    ∷ ascii "MPI_Allreduce"
    ∷ ascii "MPI_Alltoall"
    ∷ ascii "MPI_Barrier"
    ∷ ascii "MPI_Bcast"
    ∷ ascii "MPI_Exscan"
    ∷ ascii "MPI_Gather"
    ∷ ascii "MPI_Reduce"
    ∷ ascii "MPI_Reduce_scatter"
    ∷ ascii "MPI_Reduce_scatter_block"
    ∷ ascii "MPI_Scan"
    ∷ ascii "MPI_Scatter"
    ∷ ascii "Send_Recv"
    ∷ ascii "Sendrecv"
    ∷ ascii "Isend_Recv"
    ∷ ascii "Isend_Irecv"
    ∷ ascii "Send_Irecv"
    ∷ ascii "Empty"
    ∷ []

-- the loop of `get_call_index` from index `i` on
unfoldable pub search_name : Str → ℕ → List Str → ℤ
search_name name i [] = negsuc 0
search_name name i (n ∷ names) =
    let rest = search_name name (i + 1) names in if same name n then pos i else rest

-- `get_call_index`
unfoldable pub get_call_index : Str → ℤ
get_call_index name = search_name name 0 mpi_calls_opts

-- `get_call_from_index`
unfoldable pub get_call_from_index : ℤ → Str
get_call_from_index index =
    if ltb_ℤ index (pos 0) || leb_ℤ (pos (length mpi_calls_opts)) index
    then []
    else get_or mpi_calls_opts (pos_part index) []
