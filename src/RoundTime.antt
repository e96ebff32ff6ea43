-- ===== src/RoundTime.antt =====
-- Round-time process synchronisation, src/reprompi_bench/sync/process_sync/round_time_sync.c.
pub mod Start
pub mod Agreement
pub mod Switch
pub mod Bcast
mod Examples
use Prim.Native.Nat.{max}
use reprompi_dev.Prelude.{
  ℕ, zero, suc, ◌+◌, Bool, true, false, Option, none, some, List, [], ◌∷◌, ◌==◌, ◌&&◌, not,
  if◌then◌else◌, ◌>>=◌,
}
use reprompi_dev.Prelude.Int.{ℤ, pos, negsuc, ltb_ℤ, leb_ℤ}
use reprompi_dev.Prelude.Double.{Doubles}
use reprompi_dev.Measure.{
  SyncParams, correct_measurement, invalid_measurement, out_of_time_valid, out_of_time_invalid,
}
use reprompi_dev.Collective.Allreduce.{Control, Buffers, Network, allreduce}

-- What surrounds a process: the values that `REPROMPI_get_time` returns one after the other,
-- `get_global_time` of the clock synchronisation, the rank, and what `ReproMPI_Bcast` leaves in a
-- buffer, from what stood there before.
pub record Surroundings (T : Type 0) : Type 0 where
  pub time : ℕ → T
  pub get_global_time : T → T
  pub rank : ℕ
  pub bcast : T → T

-- The static variables, and how often the clock was read.
pub record RoundTime (T : Type 0) : Type 0 where
  pub time_slot : T
  pub bcast_multiplier : T
  pub invalid : ℕ
  pub start_sync : T
  pub bcast_runtime : T
  pub job_start_time : T
  pub stop_flag : ℕ
  pub barrier_sync_mode : ℕ
  pub switch_count : ℤ
  pub reads : ℕ

-- the two `int`s that `stop_sync` reduces
pub record Packet : Type 0 where
  pub invalid : ℕ
  pub stop_flag : ℕ

-- MPI_MAX on them
abbrev pub max_packet : Packet → Packet → Packet
max_packet p q = record {
  invalid = max p.invalid q.invalid;
  stop_flag = max p.stop_flag q.stop_flag;
}

module _ {T : Type 0} (double : Doubles T) (env : Surroundings T) where
  abbrev pub global_time : ℕ → T
  global_time n = env.get_global_time (env.time n)

  -- `roundtimesync_init_synchronization`; `none` is the NULL pointer.
  unfoldable pub init_synchronization : Option SyncParams → RoundTime T → RoundTime T
  init_synchronization none s = s
  init_synchronization (some params) s =
      if s.barrier_sync_mode == 0
        && ltb_ℤ (negsuc 0) s.switch_count
        && leb_ℤ s.switch_count (pos params.count)
      then record s { barrier_sync_mode = 1 }
      else s

  -- `roundtimesync_init_sync_round`
  unfoldable pub init_sync_round : RoundTime T → RoundTime T
  init_sync_round s = record s {
    job_start_time = env.time s.reads;
    stop_flag = 0;
    invalid = correct_measurement;
    reads = s.reads + 1;
  }

  -- the polling loop, on fuel
  unfoldable pub poll : ℕ → Bool → RoundTime T → Option (RoundTime T)
  poll zero is_first s = none
  poll (suc fuel) is_first s =
      let read = record s { reads = s.reads + 1 } in
      elim (double.le s.start_sync (global_time s.reads)) [
        | true ↦
            if is_first then some (record read { invalid = invalid_measurement }) else some read
        | false ↦ poll fuel false read
      ]

  -- `roundtimesync_start_synchronization` up to the polling loop: rank 0 broadcasts a start time.
  unfoldable pub announce : RoundTime T → RoundTime T
  announce s =
      if env.rank == 0
      then record s {
        invalid = correct_measurement;
        start_sync =
            env.bcast
              (double.plus (env.time s.reads) (double.times s.bcast_runtime s.bcast_multiplier));
        reads = s.reads + 1;
      }
      else record s { invalid = correct_measurement; start_sync = env.bcast s.start_sync }

  -- `roundtimesync_start_synchronization`; the barriers change no variable.
  unfoldable pub start_synchronization : ℕ → RoundTime T → Option (RoundTime T)
  start_synchronization fuel s =
      let polled = poll fuel true (announce s) in
      if s.barrier_sync_mode == 1 then some s else polled

  -- `roundtimesync_stop_synchronization` up to the reduction
  unfoldable pub check_time : RoundTime T → RoundTime T
  check_time s =
      if double.le s.time_slot (double.minus (env.time s.reads) s.job_start_time)
      then record s { stop_flag = 1; reads = s.reads + 1 }
      else record s { reads = s.reads + 1 }

-- `roundtimesync_stop_synchronization` after the reduction
unfoldable pub classify : Packet → ℕ
classify p =
    if p.stop_flag == 1
    then (if p.invalid == correct_measurement then out_of_time_valid else out_of_time_invalid)
    else if not (p.invalid == correct_measurement)
    then invalid_measurement
    else correct_measurement

-- what a rank puts into the reduction
abbrev pub packet : {T : Type 0} → RoundTime T → Packet
packet s = record { invalid = s.invalid; stop_flag = s.stop_flag }

-- All ranks of a communicator, each with its surroundings and its variables, call
-- `roundtimesync_stop_synchronization`: what each returns, and its variables afterwards.
module _ {T : Type 0} (double : Doubles T) (net : Network Packet) (size : ℕ) where
  unfoldable pub stop_synchronization :
      (ℕ → Surroundings T) → (ℕ → Packet) → (ℕ → RoundTime T) → Option ((ℕ → ℕ) × (ℕ → RoundTime T))
  stop_synchronization env fresh states = do
    let checked : ℕ → RoundTime T = λ rank. check_time double (env rank) (states rank)
    (control, bufs) ← allreduce max_packet net size none (λ rank. packet (checked rank)) fresh
    some ((λ rank. classify (bufs rank).recvbuf), checked)
