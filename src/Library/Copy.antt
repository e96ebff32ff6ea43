-- ===== src/Library/Copy.antt =====
-- The copy of the arguments in one block: `reprompi_make_argv_copy` of
-- src/reprompi_bench/benchmark_lib/reproMPIbenchmark.c. The strings stand behind the pointers, which
-- are offsets into that part of the block here.
pub mod Strings
use reprompi_dev.Prelude.{
  ℕ, zero, suc, ◌+◌, Bool, true, false, Option, none, some, ◌>>=◌, List, [], ◌∷◌, ◌++◌, length, set,
  replicate, leb, ◌==◌, if◌then◌else◌,
}
use reprompi_dev.Prelude.Text.{Str}

-- `strlen_sum`
unfoldable pub strlen_sum : List Str → ℕ
strlen_sum [] = 0
strlen_sum (arg ∷ argv) = length arg + 1 + strlen_sum argv

-- the bytes of a string with the NUL at its end
abbrev pub with_nul : Str → List ℕ
with_nul arg = arg ++ 0 ∷ []

-- `memcpy` to an offset; `none` is a write outside of the block.
abbrev pub write_bytes : ℕ → List ℕ → List ℕ → List ℕ
write_bytes offset [] block = block
write_bytes offset (b ∷ bytes) block = write_bytes (offset + 1) bytes (set block offset b)

unfoldable pub memcpy : ℕ → List ℕ → List ℕ → Option (List ℕ)
memcpy offset bytes block =
    if leb (offset + length bytes) (length block)
    then some (write_bytes offset bytes block)
    else none

-- the loop, with `data` at an offset: the pointers, of which the last is NULL, and the strings
unfoldable pub copy_args : List Str → ℕ → List ℕ → Option (List (Option ℕ) × List ℕ)
copy_args [] offset block = some (none ∷ [], block)
copy_args (arg ∷ argv) offset block = do
  copied ← memcpy offset (with_nul arg) block
  (pointers, whole) ← copy_args argv (offset + (length arg + 1)) copied
  some (some offset ∷ pointers, whole)

-- `reprompi_make_argv_copy`; NULL without memory
unfoldable pub make_argv_copy : Bool → List Str → Option (List (Option ℕ) × List ℕ)
make_argv_copy memory argv =
    if memory then copy_args argv 0 (replicate (strlen_sum argv) 0) else none
