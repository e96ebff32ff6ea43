-- ===== src/Buffers/Ready.antt =====
-- That the initialisations of src/collective_ops/ go through when the limits are kept, and
-- what the cleanups leave.
use reprompi_dev.Prelude.{ℕ, ◌+◌, ◌*◌, ◌<◌, ◌≡◌, refl, Bool, true, false, ltb, lt→ltb, arith}
use reprompi_dev.Prelude.Int.{ℤ, pos, negsuc, eqb_ℤ}
use reprompi_dev.Buffers.{
  Datatype, Info, Params, goes, check, int_max, size_product, reprompi_calloc,
  initialize_common_data, allocate,
}
use reprompi_dev.Buffers.Inits.{
  Initializer, initialize_data_default, initialize_data_Scatter, initialize_data_Gather,
  initialize_data_Allgather, initialize_data_Reduce_scatter, initialize_data_Reduce_scatter_block,
  initialize_data_Alltoall, make_counts,
}
use reprompi_dev.Buffers.Pingpong.{
  initialize_data_pingpong, check_ranks, allocate_pingpong, invalid_ranks, outside,
}
use reprompi_dev.Buffers.Made.{common, allocated, clear_buffers_goes, fill_counts_goes}
use reprompi_dev.Buffers.Fit.{IsPeer, IsPair}

IsPeer-outside : (r : ℤ) (n : ℕ) → IsPeer r n → outside r n ≡ false
unfolding IsPeer outside
IsPeer-outside (pos k) n h = ground arith
IsPeer-outside (negsuc k) n h = absurd h

-- Two different ranks make two processes.
two_ranks : (a b : ℤ) (n : ℕ) → IsPeer a n → IsPeer b n → eqb_ℤ a b ≡ false → ltb n 2 ≡ false
unfolding IsPeer
two_ranks (pos j) (pos k) n g h apart = ground arith
two_ranks (negsuc j) b n g h apart = absurd g
two_ranks (pos j) (negsuc k) n g h apart = absurd h

module _ (extent : Datatype → ℕ) (memory : ℕ → ℕ → Bool)
    (enough : (k n : ℕ) → memory k n ≡ true) where
  allocate_ready :
      (k count scount rcount : ℕ) (p : Params)
      → scount < int_max
      → rcount < int_max
      → allocate memory k count scount rcount p ≡ goes (allocated count scount rcount p)
  unfolding allocate check reprompi_calloc
  allocate_ready k count scount rcount p a b =
      rw
        (
          lt→ltb scount int_max a,
          lt→ltb rcount int_max b,
          enough k (scount * p.datatype_extent),
          enough (k + 1) (rcount * p.datatype_extent),
        )
        refl

  common_ready :
      (rank : ℕ) (info : Info) (p : Params)
      → 0 < info.nprocs
      → initialize_common_data extent rank info p ≡ goes (common extent rank info p)
  unfolding initialize_common_data check
  common_ready rank info p h = rw (lt→ltb 0 info.nprocs h) refl

  -- What the initialisations are asked for; only some need the ranks of a ping-pong.
  abbrev pub IsReady : Bool → Initializer → Type 0
  IsReady needs_peers initialize =
      (rank : ℕ) (info : Info) (count : ℕ) (p₀ : Params)
      → 0 < info.nprocs
      → count < int_max
      → size_product count info.nprocs < int_max
      → (needs_peers ≡ true → IsPair info.pingpong_src info.pingpong_dst info.nprocs)
      → (q : Params) × (initialize extent memory rank info count p₀ ≡ goes q)

  pub default-IsReady : {needs_peers : Bool} → IsReady needs_peers initialize_data_default
  unfolding initialize_data_default
  default-IsReady rank info count p₀ some_procs small whole pair =
      rw
        (
          common_ready rank info p₀ some_procs,
          allocate_ready 0 count count count (common extent rank info p₀) small small,
        )
        (_, clear_buffers_goes count count count (common extent rank info p₀))

  pub scatter-IsReady : {needs_peers : Bool} → IsReady needs_peers initialize_data_Scatter
  unfolding initialize_data_Scatter
  scatter-IsReady rank info count p₀ some_procs small whole pair =
      rw (common_ready rank info p₀ some_procs) (_, allocate_ready 0 count _ _ _ whole small)

  pub gather-IsReady : {needs_peers : Bool} → IsReady needs_peers initialize_data_Gather
  unfolding initialize_data_Gather
  gather-IsReady rank info count p₀ some_procs small whole pair =
      rw (common_ready rank info p₀ some_procs) (_, allocate_ready 0 count _ _ _ small whole)

  pub allgather-IsReady : {needs_peers : Bool} → IsReady needs_peers initialize_data_Allgather
  unfolding initialize_data_Allgather
  allgather-IsReady rank info count p₀ some_procs small whole pair =
      rw (common_ready rank info p₀ some_procs) (_, allocate_ready 0 count _ _ _ small whole)

  pub reduce_scatter_block-IsReady :
      {needs_peers : Bool} → IsReady needs_peers initialize_data_Reduce_scatter_block
  unfolding initialize_data_Reduce_scatter_block
  reduce_scatter_block-IsReady rank info count p₀ some_procs small whole pair =
      rw (common_ready rank info p₀ some_procs) (_, allocate_ready 0 count _ _ _ whole small)

  pub alltoall-IsReady : {needs_peers : Bool} → IsReady needs_peers initialize_data_Alltoall
  unfolding initialize_data_Alltoall
  alltoall-IsReady rank info count p₀ some_procs small whole pair =
      rw (common_ready rank info p₀ some_procs) (_, allocate_ready 0 count _ _ _ whole whole)

  pub reduce_scatter-IsReady :
      {needs_peers : Bool} → IsReady needs_peers initialize_data_Reduce_scatter
  unfolding initialize_data_Reduce_scatter make_counts check
  reduce_scatter-IsReady rank info count p₀ some_procs small whole pair =
      rw
        (
          common_ready rank info p₀ some_procs,
          lt→ltb count int_max small,
          lt→ltb _ int_max whole,
          enough 0 (info.nprocs * 4),
          fill_counts_goes info.nprocs count,
        )
        (_, allocate_ready 1 count _ _ _ whole small)

  pub pingpong-IsReady : IsReady true initialize_data_pingpong
  unfolding initialize_data_pingpong check_ranks allocate_pingpong check invalid_ranks
      reprompi_calloc
  pingpong-IsReady rank info count p₀ some_procs small whole pair =
      let (src, dst, apart) = pair refl in
      rw
        (
          common_ready rank info p₀ some_procs,
          two_ranks info.pingpong_src info.pingpong_dst info.nprocs src dst apart,
          IsPeer-outside info.pingpong_src info.nprocs src,
          IsPeer-outside info.pingpong_dst info.nprocs dst,
          apart,
          lt→ltb count int_max small,
          enough 0 (count * extent info.datatype),
          enough 1 (count * extent info.datatype),
        )
        (_, refl)
