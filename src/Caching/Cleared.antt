-- ===== src/Caching/Cleared.antt =====
-- That src/reprompi_bench/caching/clear_cache_memset.c writes inside its block.
use mathlib.Core.Option.{none-ne-some, some-injective}
use reprompi_dev.Prelude.{
  ℕ, zero, suc, ◌*◌, ◌<◌, ◌≡◌, refl, Bool, true, some, ◌>>=◌, >>=-eq-some, List, [], ◌∷◌, length,
  length-replicate, replicate, arith,
}
use reprompi_dev.Prelude.Int.{ℤ, pos, negsuc}
use reprompi_dev.Caching.{
  read_sizes, positive_size, parse_caching_module_options, init_module, set_bytes, clear_cache,
  clear_times,
}

set_bytes_lem :
    (c n : ℕ) (block : List ℕ) → length block ≡ n → set_bytes c n block ≡ some (replicate n c)
unfolding set_bytes
set_bytes_lem c zero [] h = refl
set_bytes_lem c zero (b ∷ block) h = absurd (omega arith)
set_bytes_lem c (suc n) [] h = absurd (omega arith)
set_bytes_lem c (suc n) (b ∷ block) h = rw (set_bytes_lem c n block (omega arith)) refl

positive_size_lem : (s : ℤ) (n : ℕ) → positive_size s ≡ some n → 0 < n
positive_size_lem (pos zero) n h = absurd (none-ne-some n h)
positive_size_lem (pos (suc k)) n h =
    let same : suc k ≡ n = some-injective (suc k) n h in omega arith
positive_size_lem (negsuc k) n h = absurd (none-ne-some n h)

-- a state whose block has the size that the module remembers
clear_block :
    (n : ℕ) (block : List ℕ)
    → length block ≡ n
    → clear_cache (record { cache_size_bytes = n; cache_str = some block })
      ≡ some (record { cache_size_bytes = n; cache_str = some (replicate n b'1') })
unfolding clear_cache
clear_block n block h = rw (set_bytes_lem b'1' n block h) refl

clear_again :
    (times n : ℕ) (block : List ℕ)
    → length block ≡ n
    → clear_times (suc times) (record { cache_size_bytes = n; cache_str = some block })
      ≡ some (record { cache_size_bytes = n; cache_str = some (replicate n b'1') })
unfolding clear_times
clear_again zero n block h = rw (clear_block n block h) refl
clear_again (suc times) n block h =
    rw (clear_block n block h) (clear_again times n (replicate n b'1') (length-replicate n b'1'))

-- Whatever sizes are given, when the last of them is accepted and its block can be allocated: the
-- size is positive, and any positive number of calls fills exactly the block with the character 1
-- and writes nothing outside.
pub clear_cache_lem :
    (memory : ℕ → Bool) (args : List ℤ) (size times : ℕ)
    → parse_caching_module_options args ≡ some size
    → memory size ≡ true
    → (0 < size)
      × ((init_module memory args >>= clear_times (suc times))
          ≡ some (record { cache_size_bytes = size; cache_str = some (replicate size b'1') }))
unfolding init_module parse_caching_module_options
clear_cache_lem memory args size times read enough =
    let (s, found, accepted) =
      >>=-eq-some (read_sizes args (pos (512 * 1024))) positive_size size read in
    (
      positive_size_lem s size accepted,
      rw (found, accepted, enough)
          (clear_again times size (replicate size 0) (length-replicate size 0)),
    )
