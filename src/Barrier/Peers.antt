-- ===== src/Barrier/Peers.antt =====
-- The number of rounds of the dissemination barrier and the peers of each round.
use native.Mathlib.Decide.{dec_lt, dec_le}
use reprompi_dev.Prelude.{
  ℕ, zero, suc, ◌+◌, ◌^◌, ◌≡◌, ◌≤◌, ◌<◌, refl, ap, some, get_elem?, length, arith,
}
use reprompi_dev.Prelude.Cyclic.{forth-back}
use reprompi_dev.Barrier.{
  ceil_log2, nrounds, send_rank, recv_rank, calls_from, dissemination_barrier,
}

ceil_log2_stop : (fuel k np : ℕ) → np ≤ 2 ^ k → ceil_log2 (suc fuel) k np ≡ k
unfolding ceil_log2
ceil_log2_stop fuel k np h = ground arith

ceil_log2_go : (fuel k np : ℕ) → 2 ^ k < np → ceil_log2 (suc fuel) k np ≡ ceil_log2 fuel (k + 1) np
unfolding ceil_log2
ceil_log2_go fuel k np h = ground arith

ceil_log2_lem :
    (fuel k np : ℕ)
    → np ≤ 2 ^ (k + fuel)
    → ((i : ℕ) → i < k → 2 ^ i < np)
    → (np ≤ 2 ^ ceil_log2 fuel k np) × ((i : ℕ) → i < ceil_log2 fuel k np → 2 ^ i < np)
ceil_log2_lem zero k np h below =
    let e : k + 0 ≡ k = omega arith in unfold ceil_log2 in (rw e at h, below)
ceil_log2_lem (suc fuel) k np h below = elim (dec_le np (2 ^ k)) [
  | yes p ↦ rw (ceil_log2_stop fuel k np p) (p, below)
  | no p ↦
      let e : k + suc fuel ≡ k + 1 + fuel = omega arith in
      rw (ceil_log2_go fuel k np (omega arith)) (
        ceil_log2_lem fuel (k + 1) np (rw e at h) λ i lt. elim (dec_lt i k) [
          | yes q ↦ below i q
          | no q ↦ let same : i ≡ k = omega arith in rw same (omega arith)
        ])
]

-- For at most 2 ^ 31 processes there are enough rounds for the offsets to add up to any rank, and
-- in each round the offset is below the number of processes.
pub nrounds_lem :
    (np : ℕ) → np ≤ 2 ^ 31 → (np ≤ 2 ^ nrounds np) × ((i : ℕ) → i < nrounds np → 2 ^ i < np)
unfolding nrounds
nrounds_lem np h = ceil_log2_lem 32 0 np (omega arith) (λ i lt. absurd (omega arith))

-- The process that a process receives from in a round sends to it in that round, if the round's
-- offset is below the number of processes.
pub send_rank-recv_rank :
    (np i rank : ℕ) → rank < np → 2 ^ i < np → send_rank np i (recv_rank np i rank) ≡ rank
unfolding send_rank recv_rank
send_rank-recv_rank np i rank h k = forth-back np (2 ^ i) rank h (omega arith)

calls_from_lem :
    (left first i np rank : ℕ)
    → i < left
    → get_elem? (calls_from left first np rank) i
      ≡ some (send_rank np (first + i) rank, recv_rank np (first + i) rank)
unfolding calls_from
calls_from_lem zero first i np rank h = absurd (omega arith)
calls_from_lem (suc left) first zero np rank h = let e : first + 0 ≡ first = omega arith in rw e
calls_from_lem (suc left) first (suc i) np rank h =
    let e : first + suc i ≡ first + 1 + i = omega arith in
    rw e (calls_from_lem left (first + 1) i np rank (omega arith))

-- What one process makes of round `i`.
pub calls_lem :
    (np rank i : ℕ)
    → i < nrounds np
    → get_elem? (dissemination_barrier np rank) i ≡ some (send_rank np i rank, recv_rank np i rank)
unfolding dissemination_barrier
calls_lem np rank i h =
    let e : 0 + i ≡ i = omega arith in rw e at (calls_from_lem (nrounds np) 0 i np rank h)

length-calls_from : (left i np rank : ℕ) → length (calls_from left i np rank) ≡ left
unfolding calls_from
length-calls_from zero i np rank = refl
length-calls_from (suc left) i np rank = ap suc (length-calls_from left (i + 1) np rank)

pub length-dissemination_barrier :
    (np rank : ℕ) → length (dissemination_barrier np rank) ≡ nrounds np
unfolding dissemination_barrier
length-dissemination_barrier np rank = length-calls_from (nrounds np) 0 np rank
