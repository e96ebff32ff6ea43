-- ===== src/Caching.antt =====
-- The state of the cache before a measurement, src/reprompi_bench/caching: caching.c chooses a module,
-- clear_cache_memset.c is one of the two. An exit with an error, and a write outside of a block, is
-- `none`.
pub mod Choice
pub mod Cleared
mod Examples
use reprompi_dev.Prelude.{
  ℕ, zero, suc, ◌+◌, ◌-◌, ◌*◌, ◌^◌, Bool, true, false, Option, none, some, ◌>>=◌, List, [], ◌∷◌,
  get_elem?, length, replicate, ltb, leb, if◌then◌else◌,
}
use reprompi_dev.Prelude.Int.{ℤ, pos, negsuc}
use reprompi_dev.Prelude.Text.{Str, same, ascii}

-- `reprompi_caching_type_t`
pub data CachingType : Type 0 where
  clear_cache_none : CachingType
  clear_cache_memset : CachingType

-- `reprompi_caching_strategy_t`
pub record CachingStrategy : Type 0 where
  pub name : Str
  pub type : CachingType

abbrev pub default_caching_mod_name : Str
default_caching_mod_name = ascii "None"

abbrev pub caching_options : List CachingStrategy
caching_options =
    record { name = default_caching_mod_name; type = clear_cache_none }
    ∷ record { name = ascii "memset"; type = clear_cache_memset }
    ∷ []

-- `reprompi_caching_module_t`, without its functions
pub record CachingModule : Type 0 where
  pub name : Str
  pub type : CachingType

-- `reprompib_register_caching_modules`
abbrev pub caching_modules : List CachingModule
caching_modules =
    record { name = ascii "None"; type = clear_cache_none }
    ∷ record { name = ascii "memset"; type = clear_cache_memset }
    ∷ []

abbrev pub same_type : CachingType → CachingType → Bool
same_type clear_cache_none clear_cache_none = true
same_type clear_cache_memset clear_cache_memset = true
same_type _ _ = false

-- the first loop of `get_caching_module_index`; -1 is `none`.
unfoldable pub find_type : Str → List CachingStrategy → Option CachingType
find_type name [] = none
find_type name (o ∷ options) =
    let rest = find_type name options in if same name o.name then some o.type else rest

-- the second loop, from index `i` on; -1 matches no type.
unfoldable pub find_module : Option CachingType → ℕ → List CachingModule → Option ℕ
find_module type i [] = none
find_module none i (m ∷ modules) = find_module none (i + 1) modules
find_module (some type) i (m ∷ modules) =
    let rest = find_module (some type) (i + 1) modules in
    if same_type type m.type then some i else rest

-- `get_caching_module_index`
unfoldable pub get_caching_module_index : Option Str → List CachingModule → Option ℕ
get_caching_module_index none modules = none
get_caching_module_index (some name) modules =
    find_module (find_type name caching_options) 0 modules

-- `parse_caching_options`, over the arguments of the option in their order
unfoldable pub parse_caching_options : List Str → Option Str → Option Str
parse_caching_options [] caching_type = caching_type
parse_caching_options (arg ∷ args) caching_type = parse_caching_options args (some arg)

-- `reprompib_init_caching_module`, up to the call of the function of the module
unfoldable pub init_caching_module : List Str → Option CachingModule
init_caching_module args = do
  index ← elim (parse_caching_options args none) [
    | none ↦ get_caching_module_index (some default_caching_mod_name) caching_modules
    | some name ↦ get_caching_module_index (some name) caching_modules
  ]
  get_elem? caching_modules index

-- the static variables of clear_cache_memset.c, with the bytes of the block that `cache_str` points to
pub record Memset : Type 0 where
  pub cache_size_bytes : ℕ
  pub cache_str : Option (List ℕ)

-- the size that an argument asks for, as a `long`; an overflow is not defined
unfoldable pub size_in_bytes : ℤ → Option ℤ
size_in_bytes (pos n) = if ltb (n * 1024) (2 ^ 63) then some (pos (n * 1024)) else none
size_in_bytes (negsuc n) =
    if leb ((n + 1) * 1024) (2 ^ 63) then some (negsuc ((n + 1) * 1024 - 1)) else none

-- `parse_caching_module_options`, over what `atol` reads in the arguments
unfoldable pub read_sizes : List ℤ → ℤ → Option ℤ
read_sizes [] size = some size
read_sizes (n ∷ args) size = do bytes ← size_in_bytes n; read_sizes args bytes

abbrev pub positive_size : ℤ → Option ℕ
positive_size (pos zero) = none
positive_size (pos (suc n)) = some (suc n)
positive_size (negsuc n) = none

unfoldable pub parse_caching_module_options : List ℤ → Option ℕ
parse_caching_module_options args = do size ← read_sizes args (pos (512 * 1024)); positive_size size

-- `init_module`; `memory` says of which sizes a block can be allocated.
unfoldable pub init_module : (ℕ → Bool) → List ℤ → Option Memset
init_module memory args = do
  size ← parse_caching_module_options args
  some (record {
    cache_size_bytes = size;
    cache_str = if memory size then some (replicate size 0) else none;
  })

-- `clear_cache`
unfoldable pub set_bytes : ℕ → ℕ → List ℕ → Option (List ℕ)
set_bytes c zero block = some block
set_bytes c (suc n) [] = none
set_bytes c (suc n) (b ∷ block) = do rest ← set_bytes c n block; some (c ∷ rest)

unfoldable pub clear_cache : Memset → Option Memset
clear_cache s = do
  block ← s.cache_str
  cleared ← set_bytes b'1' s.cache_size_bytes block
  some (record s { cache_str = some cleared })

-- the calls before several measurements
unfoldable pub clear_times : ℕ → Memset → Option Memset
clear_times zero s = some s
clear_times (suc n) s = do s' ← clear_cache s; clear_times n s'
