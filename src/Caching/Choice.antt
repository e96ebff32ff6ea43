-- ===== src/Caching/Choice.antt =====
-- Which module src/reprompi_bench/caching/caching.c chooses.
use reprompi_dev.Prelude.{
  ◌≡◌, refl, Bool-cases, inl, inr, none, some, ◌>>=◌, List, [], ◌∷◌, get_elem?, if◌then◌else◌,
}
use reprompi_dev.Prelude.Text.{Str, same, ascii}
use reprompi_dev.Caching.{
  clear_cache_none, clear_cache_memset, caching_modules, find_type, find_module,
  get_caching_module_index, parse_caching_options, init_caching_module,
}

-- the last of the arguments
abbrev pub last_or : Str → List Str → Str
last_or d [] = d
last_or d (arg ∷ args) = last_or arg args

parsed_last :
    (arg : Str) (args : List Str) → parse_caching_options args (some arg) ≡ some (last_or arg args)
unfolding parse_caching_options
parsed_last arg [] = refl
parsed_last arg (next ∷ args) = parsed_last next args

-- the module of a name
module_of_name :
    (name : Str)
    → (get_caching_module_index (some name) caching_modules >>= get_elem? caching_modules) ≡ (
        if same name (ascii "None")
        then some (record { name = ascii "None"; type = clear_cache_none })
        else if same name (ascii "memset")
        then some (record { name = ascii "memset"; type = clear_cache_memset })
        else none)
unfolding get_caching_module_index find_type find_module
module_of_name name = elim (Bool-cases (same name (ascii "None"))) [
  | inl first ↦ rw first refl
  | inr other ↦ rw other (elim (Bool-cases (same name (ascii "memset"))) [
    | inl second ↦ rw second refl
    | inr unknown ↦ rw unknown refl
  ])
]

-- The module that is chosen has the name of the last argument of the option, and that of the default
-- without one; any name of no module is an error.
pub init_caching_module_lem :
    (args : List Str)
    → init_caching_module args ≡ (
        let name = last_or (ascii "None") args in
        if same name (ascii "None")
        then some (record { name = ascii "None"; type = clear_cache_none })
        else if same name (ascii "memset")
        then some (record { name = ascii "memset"; type = clear_cache_memset })
        else none)
unfolding init_caching_module parse_caching_options
init_caching_module_lem [] = module_of_name (ascii "None")
init_caching_module_lem (arg ∷ args) = rw (parsed_last arg args) (module_of_name (last_or arg args))
