-- ===== src/Pingpong/Rounds.antt =====
-- Every ping-pong of src/collective_ops/pingpong.c comes to its end on both processes.
use Prim.{tt}
use reprompi_dev.Prelude.{
  ℕ, suc, ◌≤◌, ◌≡◌, refl, true, false, ◌⊎◌, Option, some, List, [], ◌∷◌, get_elem?, All, All_at,
  ◌==◌, arith,
}
use reprompi_dev.Prelude.Int.{pos}
use reprompi_dev.Buffers.{Params, check}
use reprompi_dev.Buffers.Calls.{
  Execution, recv_rank, execute_pingpong_Send_Recv, execute_pingpong_Isend_Recv,
  execute_pingpong_Isend_Irecv, execute_pingpong_Send_Irecv, execute_pingpong_Sendrecv,
}
use reprompi_dev.Pingpong.{
  Action, State, start, wait, sending, receiving, actions, side, pair, fresh, finished, successors,
  act, pass,
}
use reprompi_dev.Pingpong.Progress.{Run, Step, all_end, all_end_sound}

-- the five operations
abbrev pub pingpong_calls : List Execution
pingpong_calls =
    execute_pingpong_Send_Recv ∷ execute_pingpong_Sendrecv ∷ execute_pingpong_Isend_Recv
    ∷ execute_pingpong_Isend_Irecv ∷ execute_pingpong_Send_Irecv ∷ []

-- parameters with the two ranks of a ping-pong
abbrev pub with_ranks : Params → ℕ → ℕ → Params
with_ranks p src dst = record p { pingpong_src = pos src; pingpong_dst = pos dst }

-- The two processes of an operation before their first action
unfoldable pub start_pair : Execution → Params → ℕ → ℕ → Option State
start_pair call p src dst =
    let q : Params = with_ranks p src dst in pair (side call q src dst) (side call q dst src)

module _ (p : Params) (src dst : ℕ) (apart : (src == dst) ≡ false) where
  apart_back : (dst == src) ≡ false
  apart_back = ground arith

  src_self : (src == src) ≡ true
  src_self = ground arith

  dst_self : (dst == dst) ≡ true
  dst_self = ground arith

  abbrev send_recv_state : State
  send_recv_state = (
    fresh (start sending ∷ wait sending ∷ start receiving ∷ wait receiving ∷ []),
    fresh (start receiving ∷ wait receiving ∷ start sending ∷ wait sending ∷ []),
  )

  send_recv_pair : start_pair execute_pingpong_Send_Recv p src dst ≡ some send_recv_state
  unfolding start_pair pair side execute_pingpong_Send_Recv actions check
  send_recv_pair = ground arith

  abbrev sendrecv_state : State
  sendrecv_state = (
    fresh (start sending ∷ start receiving ∷ wait sending ∷ wait receiving ∷ []),
    fresh (start sending ∷ start receiving ∷ wait sending ∷ wait receiving ∷ []),
  )

  sendrecv_pair : start_pair execute_pingpong_Sendrecv p src dst ≡ some sendrecv_state
  unfolding start_pair pair side execute_pingpong_Sendrecv actions check recv_rank
  sendrecv_pair = ground arith

  abbrev isend_recv_state : State
  isend_recv_state = (
    fresh (start sending ∷ start receiving ∷ wait receiving ∷ wait sending ∷ []),
    fresh (start sending ∷ start receiving ∷ wait receiving ∷ wait sending ∷ []),
  )

  isend_recv_pair : start_pair execute_pingpong_Isend_Recv p src dst ≡ some isend_recv_state
  unfolding start_pair pair side execute_pingpong_Isend_Recv actions check recv_rank
  isend_recv_pair = ground arith

  abbrev isend_irecv_state : State
  isend_irecv_state = (
    fresh (start sending ∷ start receiving ∷ wait sending ∷ wait receiving ∷ []),
    fresh (start sending ∷ start receiving ∷ wait sending ∷ wait receiving ∷ []),
  )

  isend_irecv_pair : start_pair execute_pingpong_Isend_Irecv p src dst ≡ some isend_irecv_state
  unfolding start_pair pair side execute_pingpong_Isend_Irecv actions check recv_rank
  isend_irecv_pair = ground arith

  abbrev send_irecv_state : State
  send_irecv_state = (
    fresh (start receiving ∷ start sending ∷ wait sending ∷ wait receiving ∷ []),
    fresh (start receiving ∷ start sending ∷ wait sending ∷ wait receiving ∷ []),
  )

  send_irecv_pair : start_pair execute_pingpong_Send_Irecv p src dst ≡ some send_irecv_state
  unfolding start_pair pair side execute_pingpong_Send_Irecv actions check recv_rank
  send_irecv_pair = ground arith

-- how often each of the four actions is in a program: the starts and the ends of sends and receives
unfoldable pub tally : List Action → ℕ × ℕ × ℕ × ℕ
tally [] = (0, 0, 0, 0)
tally (start sending ∷ acts) = let (a, b, c, d) = tally acts in (suc a, b, c, d)
tally (start receiving ∷ acts) = let (a, b, c, d) = tally acts in (a, suc b, c, d)
tally (wait sending ∷ acts) = let (a, b, c, d) = tally acts in (a, b, suc c, d)
tally (wait receiving ∷ acts) = let (a, b, c, d) = tally acts in (a, b, c, suc d)

-- Each process sends one message and receives one, and waits for both.
abbrev pub Exchanges : State → Type 0
Exchanges (p, q) =
    (tally p.program ≡ (1, 1, 1, 1))
    × (tally q.program ≡ (1, 1, 1, 1))
    × (p.sends ≡ false)
    × (p.receives ≡ false)
    × (q.sends ≡ false)
    × (q.receives ≡ false)

-- An operation whose two processes start, and come to their end in at most ten steps
abbrev Ends : Execution → Type 0
Ends call =
    (p : Params) (src dst : ℕ)
    → (src == dst) ≡ false
    → (s : State) × (start_pair call p src dst ≡ some s) × Exchanges s × (all_end 10 s ≡ true)

All-Ends : All Ends pingpong_calls
unfolding all_end successors finished act pass tally
All-Ends = (
  (λ p src dst apart. (
    send_recv_state p src dst apart,
    send_recv_pair p src dst apart,
    (refl, refl, refl, refl, refl, refl),
    refl,
  )),
  (
    (λ p src dst apart. (
      sendrecv_state p src dst apart,
      sendrecv_pair p src dst apart,
      (refl, refl, refl, refl, refl, refl),
      refl,
    )),
    (
      (λ p src dst apart. (
        isend_recv_state p src dst apart,
        isend_recv_pair p src dst apart,
        (refl, refl, refl, refl, refl, refl),
        refl,
      )),
      (
        (λ p src dst apart. (
          isend_irecv_state p src dst apart,
          isend_irecv_pair p src dst apart,
          (refl, refl, refl, refl, refl, refl),
          refl,
        )),
        (
          (λ p src dst apart. (
            send_irecv_state p src dst apart,
            send_irecv_pair p src dst apart,
            (refl, refl, refl, refl, refl, refl),
            refl,
          )),
          tt,
        ),
      ),
    ),
  ),
)

-- Each of the five ping-pong operations, by two different ranks and in any order of the steps
-- of the two processes, when MPI buffers no message: it starts on both processes, which call each
-- other only, and each has one message to send and one to receive, and waits for both. No run has more
-- than ten steps, and one that cannot go on has ended on both processes, with no message under way.
pub pingpong_ends :
    (i : ℕ) (call : Execution)
    → get_elem? pingpong_calls i ≡ some call
    → (p : Params) (src dst : ℕ) → (src == dst) ≡ false
    → (s : State) × (start_pair call p src dst ≡ some s)
      × Exchanges s
      × ((k : ℕ) (t : State)
          → Run k s t
          → (k ≤ 10) × ((finished t ≡ true) ⊎ ((u : State) × Step t u)))
pingpong_ends i call h p src dst apart =
    let (s, e, both, accepted) = All_at Ends pingpong_calls i call All-Ends h p src dst apart in
    (s, e, both, λ k t run. all_end_sound 10 k s t accepted run)
