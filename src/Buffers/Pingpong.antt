-- ===== src/Buffers/Pingpong.antt =====
-- The initialisation of the ping-pong operations, src/collective_ops/pingpong.c.
use reprompi_dev.Prelude.{ℕ, Bool, ◌&&◌, ◌||◌, not, none, some, ltb}
use reprompi_dev.Prelude.Int.{ℤ, pos, ltb_ℤ, leb_ℤ, eqb_ℤ}
use reprompi_dev.Prelude.Text.{Str, same}
use reprompi_dev.Buffers.{
  Params, Outcome, goes, ◌>>=◌, ◌>>◌, check, assertion_failed, one_process_only,
  invalid_pingpong_ranks, int_max, reprompi_calloc, initialize_common_data,
}
use reprompi_dev.Buffers.Inits.{Initializer}

-- the condition of the loop over the two ranks
unfoldable pub outside : ℤ → ℕ → Bool
outside r nprocs = ltb_ℤ r (pos 0) || leb_ℤ (pos nprocs) r

-- `invalid_ranks` after the loop and the comparison
unfoldable pub invalid_ranks : Params → Bool
invalid_ranks p =
    outside p.pingpong_src p.nprocs
    || outside p.pingpong_dst p.nprocs
    || eqb_ℤ p.pingpong_src p.pingpong_dst

-- Whether the process warns that the two ranks are on the same node. `name` is
-- MPI_Get_processor_name on each rank; the two names are exchanged by MPI_Sendrecv.
unfoldable pub warns : (ℤ → Str) → Params → Bool
warns name p = eqb_ℤ (pos p.rank) p.pingpong_src && same (name p.pingpong_src) (name p.pingpong_dst)

-- the two checks that end the process with `exit`
unfoldable pub check_ranks : Params → Outcome Params
check_ranks p = do
  check (not (ltb p.nprocs 2)) one_process_only
  check (not (invalid_ranks p)) invalid_pingpong_ranks
  goes p

-- the counts and the buffers at the end
unfoldable pub allocate_pingpong : (ℕ → ℕ → Bool) → ℕ → Params → Outcome Params
allocate_pingpong memory count p = do
  check (ltb count int_max) assertion_failed
  sbuf ← reprompi_calloc (memory 0) count p.datatype_extent
  rbuf ← reprompi_calloc (memory 1) count p.datatype_extent
  goes record p { count = count; scount = 0; rcount = 0; sbuf = some sbuf; rbuf = some rbuf }

-- `initialize_data_pingpong`
unfoldable pub initialize_data_pingpong : Initializer
initialize_data_pingpong extent memory rank info count p₀ = do
  p ← initialize_common_data extent rank info p₀
  q ← check_ranks p
  allocate_pingpong memory count q

-- `cleanup_data_pingpong`
unfoldable pub cleanup_data_pingpong : Params → Params
cleanup_data_pingpong p = record p { sbuf = none; rbuf = none }
