-- ===== src/Pingpong/Examples.antt =====
-- A ping-pong between the ranks 4 and 1, src/collective_ops/pingpong.c.
use reprompi_dev.Prelude.{ℕ, ◌≤◌, ◌≡◌, refl, Bool, true, false, ◌⊎◌, none, some, List, [], ◌∷◌}
use reprompi_dev.Prelude.Int.{pos}
use reprompi_dev.Buffers.{Params}
use reprompi_dev.Buffers.Calls.{execute_pingpong_Send_Recv}
use reprompi_dev.Pingpong.{
  State, Process, Action, start, wait, sending, receiving, finished, successors,
}
use reprompi_dev.Pingpong.Progress.{Run, here, more, Step}
use reprompi_dev.Pingpong.Rounds.{Exchanges, start_pair, pingpong_ends}

abbrev measured : Params
measured = record {
  count = 3;
  sbuf = none;
  rbuf = none;
  tmp_buf = none;
  nprocs = 5;
  root = 0;
  datatype = 0;
  datatype_extent = 4;
  op = 0;
  rank = 0;
  scount = 0;
  rcount = 0;
  counts_array = none;
  displ_array = none;
  pingpong_src = pos 0;
  pingpong_dst = pos 0;
}

abbrev sender : List Action
sender = start sending ∷ wait sending ∷ start receiving ∷ wait receiving ∷ []

abbrev receiver : List Action
receiver = start receiving ∷ wait receiving ∷ start sending ∷ wait sending ∷ []

abbrev process : List Action → Bool → Bool → Process
process acts s r = record { program = acts; sends = s; receives = r }

abbrev before : State
before = (process sender false false, process receiver false false)

abbrev after : State
after = (
  process (wait sending ∷ start receiving ∷ wait receiving ∷ []) true false,
  process receiver false false,
)

one_step : Run 1 before after
unfolding Step successors reprompi_dev.Pingpong.act reprompi_dev.Pingpong.pass
one_step = more {s = before} {t = after} (0, refl) here

pingpong_ends_example :
    (s : State) × (start_pair execute_pingpong_Send_Recv measured 4 1 ≡ some s)
    × Exchanges s
    × ((k : ℕ) (t : State)
        → Run k s t
        → (k ≤ 10) × ((finished t ≡ true) ⊎ ((u : State) × Step t u)))
pingpong_ends_example = pingpong_ends 0 execute_pingpong_Send_Recv refl measured 4 1 refl
