-- ===== src/Collective/Examples.antt =====
-- Runs of the collective operations, and the theorems at concrete numbers of ranks.
use reprompi_dev.Prelude.{ℕ, ◌≤◌, suc, ◌+◌, ◌-◌, ◌<◌, ◌≡◌, refl, ◌↔◌, none, some, [], ◌∷◌, arith}
use reprompi_dev.Collective.TopBit.{flp2, has_bit}
use reprompi_dev.Collective.Allreduce.{
  Control, Buffers, Network, allreduce, rounds, next_control, exchange, received, cyci,
}
use reprompi_dev.Collective.Allreduce.Windows.{IsCommutative, window}
use reprompi_dev.Collective.Allreduce.Result.{allreduce_reduces, contribution}
use reprompi_dev.Collective.Bcast.{Plan, bcast, find_bits, destinations}
use reprompi_dev.Collective.Bcast.Loops.{occurrences, In}
use reprompi_dev.Collective.Bcast.Tree.{bcast_matches, Gets, bcast_reaches}

abbrev plus : ℕ → ℕ → ℕ
plus a b = a + b

plus-IsCommutative : IsCommutative plus
plus-IsCommutative = record { assoc = λ a b c. omega arith; comm = λ a b. omega arith }

-- a network that hands over what the source sends
abbrev ideal : Network ℕ
ideal = record {
  sendrecv = λ dest out source rank. out (source rank);
  delivers = λ d o s r e. refl;
}

-- The sum of 1, …, 6 over six ranks.
six_ranks :
    elim (allreduce plus ideal 6 (some suc) (λ _. 0) (λ _. 7)) [
      | none ↦ []
      | some (v, bufs) ↦ v.s ∷ (bufs 0).recvbuf ∷ (bufs 3).recvbuf ∷ (bufs 5).recvbuf ∷ []
    ]
    ≡ 6 ∷ 21 ∷ 21 ∷ 21 ∷ []
unfolding allreduce rounds flp2 next_control has_bit exchange received cyci
six_ranks = refl

allreduce_reduces_example :
    (v : Control) × (bufs : ℕ → Buffers ℕ) × (allreduce plus ideal 6 (some suc) (λ _. 0) (λ _. 7)
      ≡ some (v, bufs))
    × (v.s ≡ 6)
    × ((rank : ℕ)
        → rank < 6
        → (bufs rank).recvbuf ≡ window plus 6 (contribution (some suc) (λ _. 0)) 0 (6 - 1))
allreduce_reduces_example =
    allreduce_reduces plus-IsCommutative ideal 6 (some suc) (λ _. 0) (λ _. 7) (omega arith)
      (omega arith)

-- Rank 2 of 11 receives from rank 0 and sends to ranks 6 and 10.
rank_two : bcast 11 0 2 ≡ some (record { receive_from = some 0; send_to = 6 ∷ 10 ∷ [] })
unfolding bcast find_bits destinations
rank_two = refl

-- With another root, rank 0 waits for a message of its own.
other_root : bcast 4 2 0 ≡ some (record { receive_from = some 0; send_to = 1 ∷ 2 ∷ [] })
unfolding bcast find_bits destinations
other_root = refl

bcast_matches_example :
    (of_p of_q : Plan) × (bcast 11 0 2 ≡ some of_p)
    × (bcast 11 0 10 ≡ some of_q)
    × (In 10 of_p.send_to ↔ (of_q.receive_from ≡ some 2))
    × (occurrences 10 of_p.send_to ≤ 1)
    × ((r : ℕ) → In r of_p.send_to → r < 11)
bcast_matches_example = bcast_matches 11 2 10 (omega arith) (omega arith) (omega arith)

bcast_reaches_example : Gets 11 suc 10 (suc 0)
bcast_reaches_example = bcast_reaches 11 suc 10 (omega arith) (omega arith)
