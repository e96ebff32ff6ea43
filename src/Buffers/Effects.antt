-- ===== src/Buffers/Effects.antt =====
-- What each initialisation of src/collective_ops/ sets when it does not stop the process:
-- mpi_collectives.c, collectives.c and pingpong.c.
use reprompi_dev.Prelude.{
  ℕ, ◌*◌, ◌^◌, ◌%◌, ◌<◌, ◌≤◌, ◌≡◌, ap, sym, ◌∙◌, Bool, false, some, replicate, length-replicate,
  arith,
}
use reprompi_dev.Prelude.Int.{ℤ, pos, negsuc, eqb_ℤ}
use reprompi_dev.Buffers.{
  Datatype, Info, Params, goes, check, int_max, size_product, allocate, reprompi_calloc,
}
use reprompi_dev.Buffers.Inits.{
  Initializer, initialize_data_default, initialize_data_Scatter, initialize_data_Gather,
  initialize_data_Allgather, initialize_data_Reduce_scatter, initialize_data_Reduce_scatter_block,
  initialize_data_Alltoall, clear_buffers, make_counts, fill_counts,
}
use reprompi_dev.Buffers.Made.{
  common, allocated, after_common, allocate_goes, clear_buffers_goes, fill_counts_goes, >>=-goes,
  goes-injective,
}
use reprompi_dev.Buffers.Pingpong.{
  initialize_data_pingpong, check_ranks, allocate_pingpong, invalid_ranks, outside,
}
use reprompi_dev.Buffers.Fit.{Holds, IsPeer}

pub replicate-Holds : (m n : ℕ) → m ≤ n → Holds (some (replicate n 0)) m
unfolding Holds
replicate-Holds m n h = omega (arith, length-replicate {A = ℕ} n 0)

-- Without overflow the block for all processes has room for the parts of all of them.
pub product_fits : (count n e : ℕ) → count * n < 2 ^ 63 → n * (count * e) ≤ size_product count n * e
product_fits count n e h =
    let small : count * n % 2 ^ 64 ≡ count * n = omega arith in
    let regroup : n * (count * e) ≡ count * n * e = omega arith in rw (small, regroup) (omega arith)

-- what every initialisation but that of MPI_Reduce_scatter makes of its two counts
abbrev pub Made : (Datatype → ℕ) → ℕ → Info → Params → ℕ → ℕ → ℕ → Params → Type 0
Made extent rank info p₀ count scount rcount q =
    (scount < int_max)
    × (rcount < int_max)
    × (q ≡ allocated count scount rcount (common extent rank info p₀))

-- The inversion of one initialisation
abbrev pub Makes : Initializer → (ℕ → ℕ → ℕ) → (ℕ → ℕ → ℕ) → Type 0
Makes initialize scount rcount =
    (extent : Datatype → ℕ) (memory : ℕ → ℕ → Bool) (rank : ℕ) (info : Info) (count : ℕ)
    (p₀ q : Params)
    → initialize extent memory rank info count p₀ ≡ goes q
    → Made extent rank info p₀ count (scount count info.nprocs) (rcount count info.nprocs) q

pub default_made : Makes initialize_data_default (λ c n. c) (λ c n. c)
unfolding initialize_data_default
default_made extent memory rank info count p₀ q h =
    let base : Params = common extent rank info p₀ in
    let (r, made, cleared) =
      >>=-goes (allocate memory 0 count count count base) (λ p. clear_buffers p.sbuf p.rbuf p) q
        (after_common extent rank info p₀ q _ h) in
    let (a, b, e) = allocate_goes memory 0 count count count base r made in
    let cleared_block : clear_buffers r.sbuf r.rbuf r ≡ goes r =
      rw e (clear_buffers_goes count count count base) in
    (a, b, sym (goes-injective r q (sym cleared_block ∙ cleared)) ∙ e)

pub scatter_made : Makes initialize_data_Scatter (λ c n. size_product c n) (λ c n. c)
unfolding initialize_data_Scatter
scatter_made extent memory rank info count p₀ q h =
    allocate_goes memory 0 count _ _ _ q (after_common extent rank info p₀ q _ h)

pub gather_made : Makes initialize_data_Gather (λ c n. c) (λ c n. size_product c n)
unfolding initialize_data_Gather
gather_made extent memory rank info count p₀ q h =
    allocate_goes memory 0 count _ _ _ q (after_common extent rank info p₀ q _ h)

pub allgather_made : Makes initialize_data_Allgather (λ c n. c) (λ c n. size_product c n)
unfolding initialize_data_Allgather
allgather_made extent memory rank info count p₀ q h =
    allocate_goes memory 0 count _ _ _ q (after_common extent rank info p₀ q _ h)

pub reduce_scatter_block_made :
    Makes initialize_data_Reduce_scatter_block (λ c n. size_product c n) (λ c n. c)
unfolding initialize_data_Reduce_scatter_block
reduce_scatter_block_made extent memory rank info count p₀ q h =
    allocate_goes memory 0 count _ _ _ q (after_common extent rank info p₀ q _ h)

pub alltoall_made :
    Makes initialize_data_Alltoall (λ c n. size_product c n) (λ c n. size_product c n)
unfolding initialize_data_Alltoall
alltoall_made extent memory rank info count p₀ q h =
    allocate_goes memory 0 count _ _ _ q (after_common extent rank info p₀ q _ h)

make_counts_goes :
    (memory : ℕ → ℕ → Bool) (scount count : ℕ) (p q : Params)
    → make_counts memory scount count p ≡ goes q
    → q ≡ record p { counts_array = some (replicate p.nprocs count) }
unfolding make_counts check
make_counts_goes memory scount count p q h =
    let filled : fill_counts p.nprocs 0 count (replicate p.nprocs 0)
        ≡ goes (replicate p.nprocs count) =
      fill_counts_goes p.nprocs count in
    ground arith

-- The counts array that MPI_Reduce_scatter needs besides
pub reduce_scatter_made :
    (extent : Datatype → ℕ) (memory : ℕ → ℕ → Bool) (rank : ℕ) (info : Info) (count : ℕ)
    (p₀ q : Params)
    → initialize_data_Reduce_scatter extent memory rank info count p₀ ≡ goes q
    → (size_product count info.nprocs < int_max)
      × (count < int_max)
      × (q
          ≡ allocated count
              (size_product count info.nprocs)
              count
              (record (common extent rank info p₀) {
                counts_array = some (replicate info.nprocs count);
              }))
unfolding initialize_data_Reduce_scatter
reduce_scatter_made extent memory rank info count p₀ q h =
    let base : Params = common extent rank info p₀ in
    let (r, made, rest) =
      >>=-goes (make_counts memory (size_product count info.nprocs) count base)
        (λ p. allocate memory 1 count (size_product count p.nprocs) count p) q
        (after_common extent rank info p₀ q _ h) in
    let e : r ≡ record base { counts_array = some (replicate info.nprocs count) } =
      make_counts_goes memory (size_product count info.nprocs) count base r made in
    let goes_on : allocate memory 1 count (size_product count info.nprocs) count
          (record base { counts_array = some (replicate info.nprocs count) })
        ≡ goes q =
      sym (ap (λ p. allocate memory 1 count (size_product count p.nprocs) count p) e) ∙ rest in
    allocate_goes memory 1 count _ _ _ q goes_on

-- A rank that is not outside is one of the communicator.
outside-IsPeer : (r : ℤ) (n : ℕ) → outside r n ≡ false → IsPeer r n
unfolding outside IsPeer
outside-IsPeer (pos k) n h = ground arith
outside-IsPeer (negsuc k) n h = absurd (ground arith)

check_ranks_goes :
    (p q : Params)
    → check_ranks p ≡ goes q
    → (q ≡ p)
      × (outside p.pingpong_src p.nprocs ≡ false)
      × (outside p.pingpong_dst p.nprocs ≡ false)
      × (eqb_ℤ p.pingpong_src p.pingpong_dst ≡ false)
unfolding check_ranks check invalid_ranks
check_ranks_goes p q h = ground arith

-- the members that `initialize_data_pingpong` sets
abbrev pub pingpong_allocated : ℕ → Params → Params
pingpong_allocated count p = record p {
  count = count;
  scount = 0;
  rcount = 0;
  sbuf = some (replicate (count * p.datatype_extent) 0);
  rbuf = some (replicate (count * p.datatype_extent) 0);
}

allocate_pingpong_goes :
    (memory : ℕ → ℕ → Bool) (count : ℕ) (p q : Params)
    → allocate_pingpong memory count p ≡ goes q
    → (count < int_max) × (q ≡ pingpong_allocated count p)
unfolding allocate_pingpong check reprompi_calloc
allocate_pingpong_goes memory count p q h = ground arith

pub pingpong_made :
    (extent : Datatype → ℕ) (memory : ℕ → ℕ → Bool) (rank : ℕ) (info : Info) (count : ℕ)
    (p₀ q : Params)
    → initialize_data_pingpong extent memory rank info count p₀ ≡ goes q
    → (count < int_max)
      × IsPeer info.pingpong_src info.nprocs
      × IsPeer info.pingpong_dst info.nprocs
      × (eqb_ℤ info.pingpong_src info.pingpong_dst ≡ false)
      × (q ≡ pingpong_allocated count (common extent rank info p₀))
unfolding initialize_data_pingpong
pingpong_made extent memory rank info count p₀ q h =
    let base : Params = common extent rank info p₀ in
    let (r, checked, rest) =
      >>=-goes (check_ranks base) (allocate_pingpong memory count) q
        (after_common extent rank info p₀ q _ h) in
    let (e, src, dst, apart) = check_ranks_goes base r checked in
    let (small, made) =
      allocate_pingpong_goes memory count base q
        (sym (ap (allocate_pingpong memory count) e) ∙ rest) in
    (
      small,
      outside-IsPeer info.pingpong_src info.nprocs src,
      outside-IsPeer info.pingpong_dst info.nprocs dst,
      apart,
      made,
    )
