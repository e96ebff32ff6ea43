-- ===== src/Library/Override.antt =====
-- What `reprompi_check_and_override_lib_env_params` of
-- src/reprompi_bench/benchmark_lib/reproMPIbenchmark.c puts in place of the arguments.
use reprompi_dev.Prelude.{
  ℕ, zero, suc, ◌+◌, ◌-◌, ◌≤◌, ◌<◌, ◌≡◌, refl, ap, sym, Bool, true, false, Option, none, some,
  ◌>>=◌, List, [], ◌∷◌, ◌++◌, length, length-append, replicate, set-append, snoc-append, take, map,
  ltb, lt→ltb, if◌then◌else◌, arith,
}
use reprompi_dev.Prelude.Text.{Str}
use reprompi_dev.Library.{
  tokens, Argv, put, put_rest, put_tokens, check_and_override_lib_env_params,
}
use reprompi_dev.Library.Argc.{words_given, words_given_le, compute_argc-tokens}

-- A write behind the entries written so far
put-next :
    (argv : Argv) (rest : Argv) (arg : Str)
    → put (argv ++ none ∷ rest) (length argv) arg ≡ some (argv ++ some arg ∷ rest)
unfolding put
put-next argv rest arg =
    let inside : length argv < length (argv ++ none ∷ rest) =
      omega (arith, length-append argv (none ∷ rest)) in
    rw
      (
        lt→ltb (length argv) (length (argv ++ none ∷ rest)) inside,
        set-append argv none (some arg) rest,
      )
      refl

put_rest_nil : (n i : ℕ) (argv : Argv) → put_rest n i [] argv ≡ some argv
unfolding put_rest
put_rest_nil zero i argv = refl
put_rest_nil (suc n) i argv = put_rest_nil n (i + 1) argv

put_rest_lem :
    (n i : ℕ) (words : List Str) (argv : Argv)
    → n ≤ length words
    → i ≡ length argv
    → put_rest n i words (argv ++ replicate n none) ≡ some (argv ++ map some (take n words))
unfolding put_rest
put_rest_lem zero i words argv h e = refl
put_rest_lem (suc n) i [] argv h e = absurd (omega arith)
put_rest_lem (suc n) i (word ∷ words) argv h e =
    let next : i + 1 ≡ length (argv ++ some word ∷ []) =
      omega (arith, length-append argv (some word ∷ [])) in
    rw
      (
        e,
        put-next argv (replicate n none) word,
        snoc-append argv (some word) (replicate n none),
        ← e,
      )
      (rw (put_rest_lem n (i + 1) words (argv ++ some word ∷ []) (omega arith) next)
        (ap some (sym (snoc-append argv (some word) (map some (take n words))))))

abbrev pub no_words : List Str → Bool
no_words [] = true
no_words (word ∷ words) = false

put_tokens_lem :
    (n : ℕ) (words : List Str) (argv0 : Str)
    → n ≤ length words
    → put_tokens (n + 1) words (some argv0 ∷ replicate n none) ≡ (
        if ltb 0 n
        then some (some argv0 ∷ map some (take n words))
        else if no_words words
        then some (some argv0 ∷ [])
        else none)
unfolding put_tokens put
put_tokens_lem zero [] argv0 h = refl
put_tokens_lem zero (word ∷ words) argv0 h = refl
put_tokens_lem (suc n) [] argv0 h = absurd (omega arith)
put_tokens_lem (suc n) (word ∷ words) argv0 h =
    let count : suc n + 1 - 2 ≡ n = omega arith in
    rw
      (
        count,
        lt→ltb 0 (suc n) (omega arith),
        lt→ltb 1 (suc (suc (length {A = Option Str} (replicate n none)))) (omega arith),
      )
      (put_rest_lem n 2 words (some argv0 ∷ some word ∷ []) (omega arith) refl)

with_count :
    (b c : Bool) (n : ℕ) (all given : Argv)
    → ◌>>=◌ {B = ℕ × Argv}
        (if b then some all else if c then some given else none)
        (λ filled. some (n, filled))
      ≡ (if b then some (n, all) else if c then some (n, given) else none)
with_count true c n all given = refl
with_count false true n all given = refl
with_count false false n all given = refl

-- The rest of the function, for a count of words
filled_lem :
    (n : ℕ) (words : List Str) (argv0 : Str)
    → n ≤ length words
    → ◌>>=◌ {B = ℕ × Argv} (put (replicate (n + 1) none) 0 argv0) (λ argvnew.
      ◌>>=◌ {B = ℕ × Argv} (put_tokens (n + 1) words argvnew) (λ filled. some (n + 1, filled)))
      ≡ (if ltb 0 n
          then some (n + 1, some argv0 ∷ map some (take n words))
          else if no_words words
          then some (n + 1, some argv0 ∷ [])
          else none)
unfolding put
filled_lem n words argv0 h =
    let more : n + 1 ≡ suc n = omega arith in
    let first : put (replicate (n + 1) none) 0 argv0 ≡ some (some argv0 ∷ replicate n none) =
      rw (more, lt→ltb 0 (suc (length {A = Option Str} (replicate n none))) (omega arith)) refl in
    rw (first, put_tokens_lem n words argv0 h)
      (with_count (ltb 0 n) (no_words words) (n + 1) (some argv0 ∷ map some (take n words))
        (some argv0 ∷ []))

-- When REPROMPI_LIB_PARAMS is set, with as many words as `strtok` finds in it: the program is given the
-- first of its arguments and then, in order, all words but the last, and the last one too if the
-- variable ends with a character that does not follow a space. With a single word that is not counted
-- in this way there is a write behind the end of the new array.
pub check_and_override_lem :
    (env argv0 : Str) (argc : ℕ) (argv : Argv)
    → check_and_override_lib_env_params (some env) argv0 argc argv ≡ (
        let n = words_given env in
        if ltb 0 n
        then some (n + 1, some argv0 ∷ map some (take n (tokens env)))
        else if no_words (tokens env)
        then some (n + 1, some argv0 ∷ [])
        else none)
unfolding check_and_override_lib_env_params
check_and_override_lem env argv0 argc argv =
    rw (compute_argc-tokens env)
      (filled_lem (words_given env) (tokens env) argv0 (words_given_le env))
