-- ===== src/Buffers/Room.antt =====
-- The buffers of src/collective_ops/ are large enough for the calls that are measured with
-- them: from the initialisations in mpi_collectives.c, collectives.c and pingpong.c.
mod Pingpong
pub mod Whole
use Prim.{Unit, tt}
use reprompi_dev.Prelude.{
  ℕ, zero, suc, ◌+◌, ◌*◌, ◌^◌, ◌%◌, ◌<◌, ◌≤◌, ◌≡◌, refl, ap, sym, ◌∙◌, Bool, true, false, not,
  Option, none, some, List, [], ◌∷◌, length, replicate, length-replicate, get_elem?,
  get_elem?-replicate, ltb, arith,
}
use reprompi_dev.Prelude.Int.{ℤ, pos, negsuc, eqb_ℤ}
use reprompi_dev.Buffers.{
  Datatype, Info, Params, Outcome, goes, ◌>>=◌, check, assertion_failed, Buffer, int_max,
  size_product, allocate,
}
use reprompi_dev.Buffers.Inits.{
  initialize_data_default, initialize_data_Scatter, initialize_data_Gather,
  initialize_data_Allgather, initialize_data_Reduce_scatter, initialize_data_Reduce_scatter_block,
  initialize_data_Alltoall,
}
use reprompi_dev.Buffers.Made.{common, allocated}
use reprompi_dev.Buffers.Calls.{
  MpiCall, barrier, execute_Scan, execute_Allreduce, execute_Exscan, execute_Reduce,
  execute_Barrier, execute_Bcast, execute_Scatter, execute_Gather, execute_Allgather,
  execute_Reduce_scatter, execute_Reduce_scatter_block, execute_Alltoall, execute_Empty, recv_rank,
}
use reprompi_dev.Buffers.Effects.{
  default_made, scatter_made, gather_made, allgather_made, reduce_scatter_made,
  reduce_scatter_block_made, alltoall_made, pingpong_made, product_fits, replicate-Holds,
}
use reprompi_dev.Buffers.Fit.{AllFit, Fits, FitsCounts, Holds, IsPeer, sum}
use reprompi_dev.Buffers.Table.{CollectiveOps, entry, collective_calls}

-- An entry of the table whose calls fit into the buffers that its initialisation makes.
abbrev pub HasRoom : CollectiveOps → Type 0
HasRoom ops =
    (extent : Datatype → ℕ) (memory : ℕ → ℕ → Bool) (rank : ℕ) (info : Info) (count : ℕ)
    (p₀ q : Params)
    → rank < info.nprocs
    → info.root < info.nprocs
    → count * info.nprocs < 2 ^ 63
    → ops.initialize_data extent memory rank info count p₀ ≡ goes q
    → (calls : List MpiCall) × (ops.collective_call q ≡ goes calls)
      × AllFit extent info.nprocs rank calls

-- One part is not larger than the block for all processes.
part_small :
    (count n : ℕ) → 0 < n → count * n < 2 ^ 63 → size_product count n < int_max → count < int_max
part_small count zero h no_overflow small = absurd (omega arith)
part_small count (suc m) h no_overflow small =
    let same : count * suc m % 2 ^ 64 ≡ count * suc m = omega arith in
    let whole : count * suc m < int_max = rw (← same) small in omega arith

-- A block of exactly the size that is asked for
pub exact : (n : ℕ) → Holds (some (replicate n 0)) n
exact n = replicate-Holds n n (omega arith)

pub allgather_room : HasRoom (entry execute_Allgather initialize_data_Allgather (λ p. p))
unfolding AllFit Fits execute_Allgather
allgather_room extent memory rank info count p₀ q r_ok root_ok no_overflow h =
    let (a, b, e) = allgather_made extent memory rank info count p₀ q h in
    rw e (
      _ ∷ [],
      refl,
      ((a, a, exact _, replicate-Holds _ _ (product_fits count info.nprocs _ no_overflow)), tt),
    )

pub allreduce_room : HasRoom (entry execute_Allreduce initialize_data_default (λ p. p))
unfolding AllFit Fits execute_Allreduce
allreduce_room extent memory rank info count p₀ q r_ok root_ok no_overflow h =
    let (a, b, e) = default_made extent memory rank info count p₀ q h in
    rw e (_ ∷ [], refl, ((a, exact _, exact _), tt))

pub alltoall_room : HasRoom (entry execute_Alltoall initialize_data_Alltoall (λ p. p))
unfolding AllFit Fits execute_Alltoall
alltoall_room extent memory rank info count p₀ q r_ok root_ok no_overflow h =
    let (a, b, e) = alltoall_made extent memory rank info count p₀ q h in
    let small : count < int_max = part_small count info.nprocs (omega arith) no_overflow a in
    rw e (
      _ ∷ [],
      refl,
      (
        (
          small,
          small,
          replicate-Holds _ _ (product_fits count info.nprocs _ no_overflow),
          replicate-Holds _ _ (product_fits count info.nprocs _ no_overflow),
        ),
        tt,
      ),
    )

pub bcast_room : HasRoom (entry execute_Bcast initialize_data_default (λ p. p))
unfolding AllFit Fits execute_Bcast
bcast_room extent memory rank info count p₀ q r_ok root_ok no_overflow h =
    let (a, b, e) = default_made extent memory rank info count p₀ q h in
    rw e (_ ∷ [], refl, ((a, root_ok, exact _), tt))

pub exscan_room : HasRoom (entry execute_Exscan initialize_data_default (λ p. p))
unfolding AllFit Fits execute_Exscan
exscan_room extent memory rank info count p₀ q r_ok root_ok no_overflow h =
    let (a, b, e) = default_made extent memory rank info count p₀ q h in
    rw e (_ ∷ [], refl, ((a, exact _, exact _), tt))

pub gather_room : HasRoom (entry execute_Gather initialize_data_Gather (λ p. p))
unfolding AllFit Fits execute_Gather
gather_room extent memory rank info count p₀ q r_ok root_ok no_overflow h =
    let (a, b, e) = gather_made extent memory rank info count p₀ q h in
    rw e (
      _ ∷ [],
      refl,
      (
        (
          a,
          a,
          root_ok,
          exact _,
          (λ at_root. replicate-Holds _ _ (product_fits count info.nprocs _ no_overflow)),
        ),
        tt,
      ),
    )

pub reduce_room : HasRoom (entry execute_Reduce initialize_data_default (λ p. p))
unfolding AllFit Fits execute_Reduce
reduce_room extent memory rank info count p₀ q r_ok root_ok no_overflow h =
    let (a, b, e) = default_made extent memory rank info count p₀ q h in
    rw e (_ ∷ [], refl, ((a, root_ok, exact _, (λ at_root. exact _)), tt))

pub reduce_scatter_block_room :
    HasRoom (entry execute_Reduce_scatter_block initialize_data_Reduce_scatter_block (λ p. p))
unfolding AllFit Fits execute_Reduce_scatter_block
reduce_scatter_block_room extent memory rank info count p₀ q r_ok root_ok no_overflow h =
    let (a, b, e) = reduce_scatter_block_made extent memory rank info count p₀ q h in
    rw e (
      _ ∷ [],
      refl,
      ((b, replicate-Holds _ _ (product_fits count info.nprocs _ no_overflow), exact _), tt),
    )

pub scan_room : HasRoom (entry execute_Scan initialize_data_default (λ p. p))
unfolding AllFit Fits execute_Scan
scan_room extent memory rank info count p₀ q r_ok root_ok no_overflow h =
    let (a, b, e) = default_made extent memory rank info count p₀ q h in
    rw e (_ ∷ [], refl, ((a, exact _, exact _), tt))

pub scatter_room : HasRoom (entry execute_Scatter initialize_data_Scatter (λ p. p))
unfolding AllFit Fits execute_Scatter
scatter_room extent memory rank info count p₀ q r_ok root_ok no_overflow h =
    let (a, b, e) = scatter_made extent memory rank info count p₀ q h in
    rw e (
      _ ∷ [],
      refl,
      (
        (
          b,
          b,
          root_ok,
          (λ at_root. replicate-Holds _ _ (product_fits count info.nprocs _ no_overflow)),
          exact _,
        ),
        tt,
      ),
    )

pub barrier_room : HasRoom (entry execute_Barrier initialize_data_default (λ p. p))
unfolding AllFit Fits execute_Barrier
barrier_room extent memory rank info count p₀ q r_ok root_ok no_overflow h =
    (barrier ∷ [], refl, (tt, tt))

pub empty_room : HasRoom (entry execute_Empty initialize_data_default (λ p. p))
unfolding AllFit execute_Empty
empty_room extent memory rank info count p₀ q r_ok root_ok no_overflow h = ([], refl, tt)

sum-replicate : (n count : ℕ) → sum (replicate n count) ≡ count * n
unfolding sum
sum-replicate zero count = omega arith
sum-replicate (suc n) count = omega (arith, sum-replicate n count)

pub reduce_scatter_room :
    HasRoom (entry execute_Reduce_scatter initialize_data_Reduce_scatter (λ p. p))
unfolding AllFit Fits FitsCounts execute_Reduce_scatter
reduce_scatter_room extent memory rank info count p₀ q r_ok root_ok no_overflow h =
    let (a, b, e) = reduce_scatter_made extent memory rank info count p₀ q h in
    let total : sum (replicate info.nprocs count) * extent info.datatype
        ≤ size_product count info.nprocs * extent info.datatype =
      rw (sum-replicate info.nprocs count)
        (omega (arith, product_fits count info.nprocs (extent info.datatype) no_overflow)) in
    rw e (
      _ ∷ [],
      refl,
      (
        (
          length-replicate info.nprocs count,
          replicate-Holds _ _ total,
          (count, get_elem?-replicate info.nprocs rank count r_ok, exact _),
        ),
        tt,
      ),
    )
