-- ===== src/Buffers/Fit.antt =====
-- What MPI documents that a call reads and writes, and that the buffers of the measured
-- operations, src/collective_ops/mpi_collectives.c and pingpong.c, are large enough for it.
use reprompi_dev.Prelude.{
  ℕ, ◌+◌, ◌*◌, ◌<◌, ◌≤◌, ◌≡◌, false, Option, none, some, List, [], ◌∷◌, length, get_elem?,
}
use reprompi_dev.Prelude.Int.{ℤ, pos, negsuc, eqb_ℤ}
use reprompi_dev.Buffers.{Datatype, Buffer, int_max}
use reprompi_dev.Buffers.Calls.{
  MpiCall, allgather, allreduce, alltoall, barrier, bcast, exscan, gather, reduce, reduce_scatter,
  reduce_scatter_block, scan, scatter, send, recv, isend, irecv, wait_for, wait_all, sendrecv,
}

-- A block of at least `n` bytes.
unfoldable pub Holds : Option Buffer → ℕ → Type 0
Holds none n = ⊥
Holds (some b) n = n ≤ length b

-- an `int` argument that is a rank of the communicator
unfoldable pub IsPeer : ℤ → ℕ → Type 0
IsPeer (pos r) n = r < n
IsPeer (negsuc r) n = ⊥

-- the ranks of two different processes of the communicator
abbrev pub IsPair : ℤ → ℤ → ℕ → Type 0
IsPair src dst n = IsPeer src n × IsPeer dst n × (eqb_ℤ src dst ≡ false)

unfoldable pub sum : List ℕ → ℕ
sum [] = 0
sum (x ∷ xs) = x + sum xs

-- the array of the counts of MPI_Reduce_scatter: one for each process, the whole in the send
-- buffer, the part of the rank in the receive buffer
unfoldable pub FitsCounts : Option (List ℕ) → ℕ → ℕ → ℕ → Option Buffer → Option Buffer → Type 0
FitsCounts none n rank e s r = ⊥
FitsCounts (some counts) n rank e s r =
    (length counts ≡ n)
    × Holds s (sum counts * e)
    × ((c : ℕ) × (get_elem? counts rank ≡ some c) × Holds r (c * e))

-- The blocks of a call on the process `rank` of `n` hold all elements that MPI reads or writes
-- there, and its counts and ranks are valid. Buffers that matter only at the root are
-- asked for only there.
unfoldable pub Fits : (Datatype → ℕ) → ℕ → ℕ → MpiCall → Type 0
Fits e n rank (allgather s sc st r rc rt) =
    (sc < int_max) × (rc < int_max) × Holds s (sc * e st) × Holds r (n * (rc * e rt))
Fits e n rank (allreduce s r c t o) = (c < int_max) × Holds s (c * e t) × Holds r (c * e t)
Fits e n rank (alltoall s sc st r rc rt) =
    (sc < int_max) × (rc < int_max) × Holds s (n * (sc * e st)) × Holds r (n * (rc * e rt))
Fits e n rank barrier = Unit {0}
Fits e n rank (bcast b c t root) = (c < int_max) × (root < n) × Holds b (c * e t)
Fits e n rank (exscan s r c t o) = (c < int_max) × Holds s (c * e t) × Holds r (c * e t)
Fits e n rank (gather s sc st r rc rt root) =
    (sc < int_max)
    × (rc < int_max)
    × (root < n)
    × Holds s (sc * e st)
    × (rank ≡ root → Holds r (n * (rc * e rt)))
Fits e n rank (reduce s r c t o root) =
    (c < int_max) × (root < n) × Holds s (c * e t) × (rank ≡ root → Holds r (c * e t))
Fits e n rank (reduce_scatter s r counts t o) = FitsCounts counts n rank (e t) s r
Fits e n rank (reduce_scatter_block s r rc t o) =
    (rc < int_max) × Holds s (n * (rc * e t)) × Holds r (rc * e t)
Fits e n rank (scan s r c t o) = (c < int_max) × Holds s (c * e t) × Holds r (c * e t)
Fits e n rank (scatter s sc st r rc rt root) =
    (sc < int_max)
    × (rc < int_max)
    × (root < n)
    × (rank ≡ root → Holds s (n * (sc * e st)))
    × Holds r (rc * e rt)
Fits e n rank (send b c t peer) = (c < int_max) × IsPeer peer n × Holds b (c * e t)
Fits e n rank (recv b c t peer) = (c < int_max) × IsPeer peer n × Holds b (c * e t)
Fits e n rank (isend b c t peer q) = (c < int_max) × IsPeer peer n × Holds b (c * e t)
Fits e n rank (irecv b c t peer q) = (c < int_max) × IsPeer peer n × Holds b (c * e t)
Fits e n rank (wait_for q) = Unit {0}
Fits e n rank (wait_all q) = Unit {0}
Fits e n rank (sendrecv s sc st dst r rc rt src) =
    (sc < int_max)
    × (rc < int_max)
    × IsPeer dst n
    × IsPeer src n
    × Holds s (sc * e st)
    × Holds r (rc * e rt)

unfoldable pub AllFit : (Datatype → ℕ) → ℕ → ℕ → List MpiCall → Type 0
AllFit e n rank [] = Unit {0}
AllFit e n rank (c ∷ cs) = Fits e n rank c × AllFit e n rank cs
