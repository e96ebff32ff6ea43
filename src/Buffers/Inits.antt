-- ===== src/Buffers/Inits.antt =====
-- The initialisations and cleanups of the measured collectives:
-- src/collective_ops/mpi_collectives.c and the default of src/collective_ops/collectives.c.
use reprompi_dev.Prelude.{
  ℕ, zero, suc, ◌+◌, ◌*◌, Bool, Option, none, some, List, [], ◌∷◌, ltb, length, replicate, set,
  if◌then◌else◌,
}
use reprompi_dev.Buffers.{
  Datatype, Info, Params, Outcome, stopped, goes, ◌>>=◌, ◌>>◌, check, assertion_failed,
  cannot_allocate, out_of_bounds, Buffer, size_product, int_max, initialize_common_data, allocate,
  cleanup_data_default,
}

-- `memset` of the first `n` bytes of a block
unfoldable pub memset : Buffer → ℕ → ℕ → Outcome Buffer
memset b v zero = goes b
memset [] v (suc n) = stopped out_of_bounds
memset (x ∷ b) v (suc n) = memset b v n >>= (λ rest. goes (v ∷ rest))

-- the two calls of `memset` at the end of `initialize_data_default`
unfoldable pub clear_buffers : Option Buffer → Option Buffer → Params → Outcome Params
clear_buffers (some s) (some r) p = do
  sbuf ← memset s 0 (p.scount * p.datatype_extent)
  rbuf ← memset r 0 (p.rcount * p.datatype_extent)
  goes record p { sbuf = some sbuf; rbuf = some rbuf }
clear_buffers _ _ p = stopped out_of_bounds

-- the loop of `initialize_data_Reduce_scatter` from index `i` on, for the `n` indices left
unfoldable pub fill_counts : ℕ → ℕ → ℕ → List ℕ → Outcome (List ℕ)
fill_counts zero i count counts = goes counts
fill_counts (suc n) i count counts =
    let rest = fill_counts n (i + 1) count (set counts i count) in
    if ltb i (length counts) then rest else stopped out_of_bounds

-- What an initialisation depends on: the extents, the memory, the rank, the description of
-- the call, the count, and the structure as it was.
abbrev pub Initializer : Type 0
Initializer = (Datatype → ℕ) → (ℕ → ℕ → Bool) → ℕ → Info → ℕ → Params → Outcome Params

-- `initialize_data_default`
unfoldable pub initialize_data_default : Initializer
initialize_data_default extent memory rank info count p₀ = do
  p ← initialize_common_data extent rank info p₀
  q ← allocate memory 0 count count count p
  clear_buffers (q.sbuf) (q.rbuf) q

-- `initialize_data_Scatter`
unfoldable pub initialize_data_Scatter : Initializer
initialize_data_Scatter extent memory rank info count p₀ = do
  p ← initialize_common_data extent rank info p₀
  allocate memory 0 count (size_product count p.nprocs) count p

-- `initialize_data_Gather`
unfoldable pub initialize_data_Gather : Initializer
initialize_data_Gather extent memory rank info count p₀ = do
  p ← initialize_common_data extent rank info p₀
  allocate memory 0 count count (size_product count p.nprocs) p

-- `initialize_data_Allgather`
unfoldable pub initialize_data_Allgather : Initializer
initialize_data_Allgather extent memory rank info count p₀ = do
  p ← initialize_common_data extent rank info p₀
  allocate memory 0 count count (size_product count p.nprocs) p

-- the array of the counts: its assertions, its allocation, of four bytes an element, and the
-- loop that fills it
unfoldable pub make_counts : (ℕ → ℕ → Bool) → ℕ → ℕ → Params → Outcome Params
make_counts memory scount count p = do
  check (ltb scount int_max) assertion_failed
  check (ltb count int_max) assertion_failed
  check (memory 0 (p.nprocs * 4)) cannot_allocate
  counts ← fill_counts p.nprocs 0 count (replicate p.nprocs 0)
  goes record p { counts_array = some counts }

-- `initialize_data_Reduce_scatter`
unfoldable pub initialize_data_Reduce_scatter : Initializer
initialize_data_Reduce_scatter extent memory rank info count p₀ = do
  p ← initialize_common_data extent rank info p₀
  q ← make_counts memory (size_product count p.nprocs) count p
  allocate memory 1 count (size_product count q.nprocs) count q

-- `initialize_data_Reduce_scatter_block`
unfoldable pub initialize_data_Reduce_scatter_block : Initializer
initialize_data_Reduce_scatter_block extent memory rank info count p₀ = do
  p ← initialize_common_data extent rank info p₀
  allocate memory 0 count (size_product count p.nprocs) count p

-- `initialize_data_Alltoall`
unfoldable pub initialize_data_Alltoall : Initializer
initialize_data_Alltoall extent memory rank info count p₀ = do
  p ← initialize_common_data extent rank info p₀
  allocate memory 0 count (size_product count p.nprocs) (size_product count p.nprocs) p

-- `cleanup_Bcast_data`, which only forwards
unfoldable pub cleanup_Bcast_data : Params → Params
cleanup_Bcast_data p = cleanup_data_default p

-- `cleanup_data_Reduce_scatter`
unfoldable pub cleanup_data_Reduce_scatter : Params → Params
cleanup_data_Reduce_scatter p = record p { sbuf = none; rbuf = none; counts_array = none }

-- `cleanup_data_Scatter`
unfoldable pub cleanup_data_Scatter : Params → Params
cleanup_data_Scatter p = record p { sbuf = none; rbuf = none }

-- `cleanup_data_Gather`
unfoldable pub cleanup_data_Gather : Params → Params
cleanup_data_Gather p = record p { sbuf = none; rbuf = none }

-- `cleanup_data_Allgather`
unfoldable pub cleanup_data_Allgather : Params → Params
cleanup_data_Allgather p = record p { sbuf = none; rbuf = none }

-- `cleanup_data_Reduce_scatter_block`
unfoldable pub cleanup_data_Reduce_scatter_block : Params → Params
cleanup_data_Reduce_scatter_block p = record p { sbuf = none; rbuf = none }

-- `cleanup_data_Alltoall`
unfoldable pub cleanup_data_Alltoall : Params → Params
cleanup_data_Alltoall p = record p { sbuf = none; rbuf = none }
