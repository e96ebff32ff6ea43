-- ===== src/Buffers/Cycle.antt =====
-- The life of the buffers of one measured operation of src/collective_ops/: initialised, used and
-- released.
use Prim.{tt}
use reprompi_dev.Prelude.{
  ℕ, zero, suc, ◌*◌, ◌<◌, ◌≡◌, refl, Bool, true, none, some, List, get_elem?, All, ◌&◌, All_at,
  AllFrom, AllFrom_at, leb, ◌&&◌, ◌+◌, arith,
}
use reprompi_dev.Prelude.Int.{ℤ, pos, negsuc}
use reprompi_dev.Buffers.{
  Datatype, Info, Params, goes, CommonOptions, init_collective_basic_info, valid_root, int_max,
  size_product, cleanup_data_default,
}
use reprompi_dev.Buffers.Inits.{
  Initializer, initialize_data_default, initialize_data_Scatter, initialize_data_Gather,
  initialize_data_Allgather, initialize_data_Reduce_scatter, initialize_data_Reduce_scatter_block,
  initialize_data_Alltoall, cleanup_data_Scatter, cleanup_data_Gather, cleanup_data_Allgather,
  cleanup_data_Reduce_scatter, cleanup_data_Reduce_scatter_block, cleanup_data_Alltoall,
}
use reprompi_dev.Buffers.Pingpong.{initialize_data_pingpong, cleanup_data_pingpong}
use reprompi_dev.Buffers.Calls.{MpiCall}
use reprompi_dev.Buffers.Effects.{
  default_made, scatter_made, gather_made, allgather_made, reduce_scatter_made,
  reduce_scatter_block_made, alltoall_made, pingpong_made,
}
use reprompi_dev.Buffers.Fit.{AllFit, IsPair}
use reprompi_dev.Buffers.Ready.{
  IsReady, default-IsReady, scatter-IsReady, gather-IsReady, allgather-IsReady,
  reduce_scatter-IsReady, reduce_scatter_block-IsReady, alltoall-IsReady, pingpong-IsReady,
}
use reprompi_dev.Buffers.Room.Whole.{call_fits}
use reprompi_dev.Buffers.Table.{CollectiveOps, collective_calls}

-- All pointers are NULL.
pub HasNoBlocks : Params → Type 0
HasNoBlocks p =
    (p.sbuf ≡ none)
    × (p.rbuf ≡ none)
    × (p.tmp_buf ≡ none)
    × (p.counts_array ≡ none)
    × (p.displ_array ≡ none)

abbrev Releases : Initializer → (Params → Params) → Type 0
Releases initialize cleanup =
    (extent : Datatype → ℕ) (memory : ℕ → ℕ → Bool) (rank : ℕ) (info : Info) (count : ℕ)
    (p₀ q : Params)
    → initialize extent memory rank info count p₀ ≡ goes q
    → HasNoBlocks (cleanup q)

default-Releases : Releases initialize_data_default cleanup_data_default
unfolding HasNoBlocks cleanup_data_default
default-Releases extent memory rank info count p₀ q h =
    let (a, b, e) = default_made extent memory rank info count p₀ q h in
    rw e (refl, refl, refl, refl, refl)

scatter-Releases : Releases initialize_data_Scatter cleanup_data_Scatter
unfolding HasNoBlocks cleanup_data_Scatter
scatter-Releases extent memory rank info count p₀ q h =
    let (a, b, e) = scatter_made extent memory rank info count p₀ q h in
    rw e (refl, refl, refl, refl, refl)

gather-Releases : Releases initialize_data_Gather cleanup_data_Gather
unfolding HasNoBlocks cleanup_data_Gather
gather-Releases extent memory rank info count p₀ q h =
    let (a, b, e) = gather_made extent memory rank info count p₀ q h in
    rw e (refl, refl, refl, refl, refl)

allgather-Releases : Releases initialize_data_Allgather cleanup_data_Allgather
unfolding HasNoBlocks cleanup_data_Allgather
allgather-Releases extent memory rank info count p₀ q h =
    let (a, b, e) = allgather_made extent memory rank info count p₀ q h in
    rw e (refl, refl, refl, refl, refl)

reduce_scatter_block-Releases :
    Releases initialize_data_Reduce_scatter_block cleanup_data_Reduce_scatter_block
unfolding HasNoBlocks cleanup_data_Reduce_scatter_block
reduce_scatter_block-Releases extent memory rank info count p₀ q h =
    let (a, b, e) = reduce_scatter_block_made extent memory rank info count p₀ q h in
    rw e (refl, refl, refl, refl, refl)

alltoall-Releases : Releases initialize_data_Alltoall cleanup_data_Alltoall
unfolding HasNoBlocks cleanup_data_Alltoall
alltoall-Releases extent memory rank info count p₀ q h =
    let (a, b, e) = alltoall_made extent memory rank info count p₀ q h in
    rw e (refl, refl, refl, refl, refl)

reduce_scatter-Releases : Releases initialize_data_Reduce_scatter cleanup_data_Reduce_scatter
unfolding HasNoBlocks cleanup_data_Reduce_scatter
reduce_scatter-Releases extent memory rank info count p₀ q h =
    let (a, b, e) = reduce_scatter_made extent memory rank info count p₀ q h in
    rw e (refl, refl, refl, refl, refl)

pingpong-Releases : Releases initialize_data_pingpong cleanup_data_pingpong
unfolding HasNoBlocks cleanup_data_pingpong
pingpong-Releases extent memory rank info count p₀ q h =
    let (a, b, c, d, e) = pingpong_made extent memory rank info count p₀ q h in
    rw e (refl, refl, refl, refl, refl)

All-Releases : All (λ ops. Releases ops.initialize_data ops.cleanup_data) collective_calls
All-Releases =
    allgather-Releases & default-Releases & alltoall-Releases & default-Releases & default-Releases
    & default-Releases & gather-Releases & default-Releases & reduce_scatter-Releases
    & reduce_scatter_block-Releases & default-Releases & scatter-Releases & pingpong-Releases
    & pingpong-Releases & pingpong-Releases & pingpong-Releases & pingpong-Releases
    & default-Releases & tt

-- the positions of the ping-pong operations in the table
abbrev pub is_pingpong : ℕ → Bool
is_pingpong i = leb 12 i && leb i 16

All-IsReady :
    (extent : Datatype → ℕ) (memory : ℕ → ℕ → Bool) (enough : (k n : ℕ) → memory k n ≡ true)
    → AllFrom
        (λ i ops. IsReady extent memory enough (is_pingpong i) ops.initialize_data)
        0
        collective_calls
All-IsReady extent memory enough =
    allgather-IsReady extent memory enough
    & default-IsReady extent memory enough
    & alltoall-IsReady extent memory enough
    & default-IsReady extent memory enough
    & default-IsReady extent memory enough
    & default-IsReady extent memory enough
    & gather-IsReady extent memory enough
    & default-IsReady extent memory enough
    & reduce_scatter-IsReady extent memory enough
    & reduce_scatter_block-IsReady extent memory enough
    & default-IsReady extent memory enough
    & scatter-IsReady extent memory enough
    & pingpong-IsReady extent memory enough
    & pingpong-IsReady extent memory enough
    & pingpong-IsReady extent memory enough
    & pingpong-IsReady extent memory enough
    & pingpong-IsReady extent memory enough
    & default-IsReady extent memory enough
    & tt

valid_root_lt : (r : ℤ) (n : ℕ) → 0 < n → valid_root r n < n
unfolding valid_root
valid_root_lt (pos r) n h = ground arith
valid_root_lt (negsuc r) n h = ground arith

part_le : (count procs rank : ℕ) → rank < procs → count * procs < int_max → count < int_max
part_le count zero rank h limit = absurd (omega arith)
part_le count (suc n) rank h limit = omega arith

-- For every entry of the table of operations, every process and every choice of options, for a
-- ping-pong operation with two different ranks of the communicator: when memory suffices and the
-- count times the number of processes stays below INT_MAX, the initialisation goes through,
-- whatever root was asked for; the operation then calls MPI with arguments and blocks that fit, and
-- the cleanup leaves no pointer to a block.
pub measured_operation :
    (i : ℕ) (ops : CollectiveOps)
    → get_elem? collective_calls i ≡ some ops
    → (extent : Datatype → ℕ) (memory : ℕ → ℕ → Bool) (opts : CommonOptions) (procs rank count : ℕ)
      (p₀ : Params)
    → ((k n : ℕ) → memory k n ≡ true)
    → rank < procs
    → count * procs < int_max
    → (is_pingpong i ≡ true → IsPair opts.pingpong_src opts.pingpong_dst procs)
    → (q : Params) × (calls : List MpiCall) × (ops.initialize_data extent memory rank
          (init_collective_basic_info opts procs)
          count
          p₀
        ≡ goes q)
      × (ops.collective_call q ≡ goes calls)
      × AllFit extent procs rank calls
      × HasNoBlocks (ops.cleanup_data q)
unfolding init_collective_basic_info
measured_operation i ops h extent memory opts procs rank count p₀ enough r_ok limit pair =
    let info : Info = init_collective_basic_info opts procs in
    let root_ok : info.root < info.nprocs = valid_root_lt opts.root_proc procs (omega arith) in
    let at_index : 0 + i ≡ i = omega arith in
    let same : size_product count procs ≡ count * procs = omega arith in
    let (q, made) =
      AllFrom_at (λ j o. IsReady extent memory enough (is_pingpong j) o.initialize_data) 0
        collective_calls i ops (All-IsReady extent memory enough) h rank info count p₀ (omega arith)
        (part_le count procs rank r_ok limit) (rw same limit) (λ e. pair (rw (← at_index) e)) in
    let (calls, called, fit) =
      call_fits i ops h extent memory rank info count p₀ q r_ok root_ok (omega arith) made in
    (
      q,
      calls,
      made,
      called,
      fit,
      All_at (λ o. Releases o.initialize_data o.cleanup_data) collective_calls i ops All-Releases h
          extent memory rank info count p₀ q made,
    )
