-- ===== src/Collective/Bcast.antt =====
-- `RemproMPI_Bcast_binomial` of reprompi_collectives.c: from which rank a rank receives, and to which
-- ranks it sends, in order.
pub mod Loops
pub mod Tree
use reprompi_dev.Prelude.{
  ℕ, zero, suc, ◌+◌, ◌-◌, ◌*◌, Bool, true, false, Option, none, some, List, [], ◌∷◌, ltb, leb, ◌==◌,
  if◌then◌else◌,
}

-- `while (rank >= d) { dd = d; d <<= 1; }`; `none` means that the fuel ran out.
unfoldable pub find_bits : ℕ → ℕ → ℕ → ℕ → Option (ℕ × ℕ)
find_bits zero rank d dd = none
find_bits (suc fuel) rank d dd = elim (leb d rank) [
  | true ↦ find_bits fuel rank (d * 2) d
  | false ↦ some (d, dd)
]

-- `while (rank + d < size) { MPI_Send(…, rank + d, …); d <<= 1; }`
unfoldable pub destinations : ℕ → ℕ → ℕ → ℕ → Option (List ℕ)
destinations zero rank size d = none
destinations (suc fuel) rank size d = elim (ltb (rank + d) size) [
  | true ↦ elim (destinations fuel rank size (d * 2)) [
    | none ↦ none
    | some rest ↦ some ((rank + d) ∷ rest)
  ]
  | false ↦ some []
]

-- The calls that a rank makes: at most one receive, then the sends.
pub record Plan : Type 0 where
  pub receive_from : Option ℕ
  pub send_to : List ℕ

-- An `int` holds `d` as long as there are at most 2 ^ 30 ranks, so 33 rounds are enough.
unfoldable pub bcast : ℕ → ℕ → ℕ → Option Plan
bcast size root rank = elim (find_bits 33 rank 1 0) [
  | none ↦ none
  | some (d, dd) ↦ elim (destinations 33 rank size d) [
    | none ↦ none
    | some sends ↦
        some (record {
          receive_from = if rank == root then none else some (rank - dd);
          send_to = sends;
        })
  ]
]
