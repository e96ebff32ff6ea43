-- ===== src/Barrier.antt =====
-- The dissemination barrier, src/reprompi_bench/sync/process_sync/dissem_barrier_impl.c.
pub mod Peers
pub mod Safety
mod Examples
use reprompi_dev.Prelude.{
  ℕ, zero, suc, ◌+◌, ◌-◌, ◌%◌, ◌^◌, ◌≡◌, ◌≤◌, ◌<◌, Bool, true, false, List, [], ◌∷◌, leb,
}

-- `ceil(log2((double) np))`: the least exponent, from `k` on, whose power of two is at least `np`. A
-- double holds the logarithms of all `int` values closely enough for this to be exact.
unfoldable pub ceil_log2 : ℕ → ℕ → ℕ → ℕ
ceil_log2 zero k np = k
ceil_log2 (suc fuel) k np = elim (leb np (2 ^ k)) [ true ↦ k | false ↦ ceil_log2 fuel (k + 1) np ]

unfoldable pub nrounds : ℕ → ℕ
nrounds np = ceil_log2 32 0 np

-- `(my_rank + (1 << i)) % np`. The sums here and below are of type `int`: they stay below 2 ^ 31 for at
-- most 2 ^ 30 processes, and nothing is said of more.
unfoldable pub send_rank : ℕ → ℕ → ℕ → ℕ
send_rank np i rank = (rank + 2 ^ i) % np

-- `(my_rank - (1 << i) + np) % np`; 1 << i is below np in every round, so nothing is negative.
unfoldable pub recv_rank : ℕ → ℕ → ℕ → ℕ
recv_rank np i rank = (rank + np - 2 ^ i) % np

-- The loop from round `i` on: the send and receive ranks of each `MPI_Sendrecv`, in order.
unfoldable pub calls_from : ℕ → ℕ → ℕ → ℕ → List (ℕ × ℕ)
calls_from zero i np rank = []
calls_from (suc left) i np rank =
    (send_rank np i rank, recv_rank np i rank) ∷ calls_from left (i + 1) np rank

-- `dissemination_barrier`
unfoldable pub dissemination_barrier : ℕ → ℕ → List (ℕ × ℕ)
dissemination_barrier np rank = calls_from (nrounds np) 0 np rank
