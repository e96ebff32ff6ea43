-- ===== src/Caching/Examples.antt =====
-- The modules for the cache, on concrete options.
use reprompi_dev.Prelude.{◌<◌, ◌≡◌, refl, true, none, some, ◌>>=◌, List, [], ◌∷◌, replicate}
use reprompi_dev.Prelude.Int.{pos, negsuc}
use reprompi_dev.Prelude.Text.{Str, ascii}
use reprompi_dev.Caching.{
  CachingModule, clear_cache_none, clear_cache_memset, init_caching_module,
  parse_caching_module_options, init_module, clear_times,
}
use reprompi_dev.Caching.Cleared.{clear_cache_lem}

default_size : parse_caching_module_options [] ≡ some 524288
unfolding parse_caching_module_options reprompi_dev.Caching.read_sizes
default_size = refl

one_kib : parse_caching_module_options (negsuc 3 ∷ pos 1 ∷ []) ≡ some 1024
unfolding parse_caching_module_options reprompi_dev.Caching.read_sizes
    reprompi_dev.Caching.size_in_bytes
one_kib = refl

not_positive : parse_caching_module_options (pos 1 ∷ pos 0 ∷ []) ≡ none
unfolding parse_caching_module_options reprompi_dev.Caching.read_sizes
    reprompi_dev.Caching.size_in_bytes
not_positive = refl

clear_cache_lem_example :
    (0 < 1024)
    × ((init_module (λ n. true) (negsuc 3 ∷ pos 1 ∷ []) >>= clear_times 3)
        ≡ some (record { cache_size_bytes = 1024; cache_str = some (replicate 1024 b'1') }))
clear_cache_lem_example = clear_cache_lem (λ n. true) (negsuc 3 ∷ pos 1 ∷ []) 1024 2 one_kib refl

abbrev names : List Str
names = ascii "None" ∷ ascii "memset" ∷ []
