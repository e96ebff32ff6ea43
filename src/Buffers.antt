-- ===== src/Buffers.antt =====
-- The parameters and the buffers of the measured operations: the types of
-- src/collective_ops/collectives.h, what all initialisations share in
-- src/collective_ops/collectives.c, and src/buf_manager/mem_allocation.c.
-- Handles of datatypes and operations are numbers of no meaning, `extent` is
-- MPI_Type_get_extent, and `memory k n` is whether the allocation number `k` of an
-- initialisation gets its `n` bytes.
mod Inits
mod Made
mod Effects
mod Room
mod Examples
pub mod Cycle
mod Ready
pub mod Fit
pub mod Calls
pub mod Pingpong
pub mod Table
use reprompi_dev.Prelude.{
  ℕ, ◌+◌, ◌*◌, ◌-◌, ◌^◌, ◌%◌, Bool, true, false, ◌&&◌, not, Option, none, some, List, length,
  replicate, leb, ltb, if◌then◌else◌,
}
use reprompi_dev.Prelude.Int.{ℤ, pos, pos_part, ltb_ℤ, leb_ℤ}

abbrev pub Datatype : Type 0
Datatype = ℕ

abbrev pub Op : Type 0
Op = ℕ

-- a block of memory, byte by byte
abbrev pub Buffer : Type 0
Buffer = List ℕ

abbrev pub int_max : ℕ
int_max = 2 ^ 31 - 1

-- why a process ends: a failed `assert`, one of the calls of `exit`, or a write out of bounds
pub data Stop : Type 0 where
  assertion_failed : Stop
  cannot_allocate : Stop
  one_process_only : Stop
  invalid_pingpong_ranks : Stop
  out_of_bounds : Stop

pub data Outcome (A : Type 0) : Type 0 where
  stopped : Stop → Outcome A
  goes : A → Outcome A

module _ {A B : Type 0} where
  infixl 10 ◌>>=◌
  abbrev pub ◌>>=◌ : Outcome A → (A → Outcome B) → Outcome B
  stopped s >>= f = stopped s
  goes a >>= f = f a

  infixl 10 ◌>>◌
  abbrev pub ◌>>◌ : Outcome A → Outcome B → Outcome B
  stopped s >> o = stopped s
  goes a >> o = o

-- `assert`
unfoldable pub check : Bool → Stop → Outcome Bool
check true s = goes true
check false s = stopped s

-- `basic_collective_params_t`
pub record Info : Type 0 where
  pub nprocs : ℕ
  pub root : ℕ
  pub datatype : Datatype
  pub op : Op
  pub pingpong_src : ℤ
  pub pingpong_dst : ℤ

-- `collective_params_t`; a pointer is NULL (`none`) or points to a block
pub record Params : Type 0 where
  pub count : ℕ
  pub sbuf : Option Buffer
  pub rbuf : Option Buffer
  pub tmp_buf : Option Buffer
  pub nprocs : ℕ
  pub root : ℕ
  pub datatype : Datatype
  pub datatype_extent : ℕ
  pub op : Op
  pub rank : ℕ
  pub scount : ℕ
  pub rcount : ℕ
  pub counts_array : Option (List ℕ)
  pub displ_array : Option (List ℕ)
  pub pingpong_src : ℤ
  pub pingpong_dst : ℤ

-- the members of `reprompib_common_options_t` that `init_collective_basic_info` reads
pub record CommonOptions : Type 0 where
  pub datatype : Datatype
  pub operation : Op
  pub root_proc : ℤ
  pub pingpong_src : ℤ
  pub pingpong_dst : ℤ

-- the root that `init_collective_basic_info` takes over or replaces
unfoldable pub valid_root : ℤ → ℕ → ℕ
valid_root root_proc procs =
    if leb_ℤ (pos 0) root_proc && ltb_ℤ root_proc (pos procs) then pos_part root_proc else 0

-- `init_collective_basic_info`
unfoldable pub init_collective_basic_info : CommonOptions → ℕ → Info
init_collective_basic_info opts procs = record {
  nprocs = procs;
  root = valid_root (opts.root_proc) procs;
  datatype = opts.datatype;
  op = opts.operation;
  pingpong_src = opts.pingpong_src;
  pingpong_dst = opts.pingpong_dst;
}

-- a product of a `long` and an `int`, stored in a `size_t`
abbrev pub size_product : ℕ → ℕ → ℕ
size_product a b = a * b % 2 ^ 64

-- `reprompi_calloc` without alignment; `calloc` itself refuses sizes that overflow
unfoldable pub reprompi_calloc : (ℕ → Bool) → ℕ → ℕ → Outcome Buffer
reprompi_calloc memory count elem_size =
    if memory (count * elem_size)
    then goes (replicate (count * elem_size) 0)
    else stopped cannot_allocate

-- `initialize_common_data` on the process of the given rank, with what
-- the other members held before: nothing that is read afterwards
unfoldable pub initialize_common_data : (Datatype → ℕ) → ℕ → Info → Params → Outcome Params
initialize_common_data extent rank info p = do
  check (ltb 0 (info.nprocs)) assertion_failed
  goes record {
    count = p.count;
    sbuf = none;
    rbuf = none;
    tmp_buf = none;
    nprocs = info.nprocs;
    root = info.root;
    datatype = info.datatype;
    datatype_extent = extent (info.datatype);
    op = info.op;
    rank = rank;
    scount = p.scount;
    rcount = p.rcount;
    counts_array = none;
    displ_array = none;
    pingpong_src = info.pingpong_src;
    pingpong_dst = info.pingpong_dst;
  }

-- The counts are set, checked, and the two buffers allocated: the middle of every
-- initialisation. The allocations have the numbers `k` and `k + 1`.
unfoldable pub allocate : (ℕ → ℕ → Bool) → ℕ → ℕ → ℕ → ℕ → Params → Outcome Params
allocate memory k count scount rcount p = do
  check (ltb scount int_max) assertion_failed
  check (ltb rcount int_max) assertion_failed
  sbuf ← reprompi_calloc (memory k) scount (p.datatype_extent)
  rbuf ← reprompi_calloc (memory (k + 1)) rcount (p.datatype_extent)
  goes record p {
    count = count;
    scount = scount;
    rcount = rcount;
    sbuf = some sbuf;
    rbuf = some rbuf;
  }

-- what every cleanup does
unfoldable pub cleanup_data_default : Params → Params
cleanup_data_default p = record p { sbuf = none; rbuf = none }
