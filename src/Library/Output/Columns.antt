-- ===== src/Library/Output/Columns.antt =====
-- The columns of the user's variables: src/reprompi_bench/benchmark_lib/results_output.c.
use mathlib.Core.List.{map}
use reprompi_dev.Prelude.{
  ◌+◌, ◌≡◌, refl, Option, none, some, List, [], ◌∷◌, ◌++◌, length, get_elem?, replicate,
  snoc-append, length-append, arith,
}
use reprompi_dev.Prelude.Int.{ℤ}
use reprompi_dev.Prelude.Text.{Str}
use reprompi_dev.Library.{JobInfo}
use reprompi_dev.Library.UserVars.{stored, room, with_vars, length-map_lem}
use reprompi_dev.Library.Row.{read_vars, user_columns}
use reprompi_dev.Library.Output.Gathered.{get_elem?_behind}

module _ {V : Type 0} (rest : List (Option V)) where
  read_vars_from :
      (before : List (Option V)) (xs : List V)
      → read_vars (length xs) (length before) (some (before ++ (map some xs ++ rest))) ≡ some xs
  unfolding read_vars
  read_vars_from before [] = refl
  read_vars_from before (x ∷ xs) =
      let here : length before + 0 ≡ length before = omega arith in
      let next : length before + 1 ≡ length (before ++ some x ∷ []) =
        omega (arith, length-append before (some x ∷ [])) in
      let read : get_elem? (before ++ some x ∷ (map some xs ++ rest)) (length before)
          ≡ some (some x) =
        rw (← here) (get_elem?_behind before (some x ∷ (map some xs ++ rest)) 0) in
      rw
        (
          read,
          next,
          snoc-append before (some x) (map some xs ++ rest),
          read_vars_from (before ++ some x ∷ []) xs,
        )
        refl

read_vars_lem : {V : Type 0} (xs : List V) → read_vars (length xs) 0 (stored xs) ≡ some xs
unfolding read_vars
read_vars_lem [] = refl
read_vars_lem (x ∷ xs) = read_vars_from (replicate (room (length (x ∷ xs))) none) [] (x ∷ xs)

pub user_columns-with_vars :
    {T : Type 0} (job : JobInfo T) (ss : List (Str × Str)) (is : List (Str × ℤ))
    → user_columns (with_vars job ss is) ≡ some (map (λ p. p.1) ss, map (λ p. p.1) is)
unfolding user_columns
user_columns-with_vars job ss is =
    let svars : read_vars (length ss) 0 (stored (map (λ p. p.1) ss)) ≡ some (map (λ p. p.1) ss) =
      rw (← length-map_lem (λ (p : Str × Str). p.1) ss ss) (read_vars_lem (map (λ p. p.1) ss)) in
    let ivars : read_vars (length is) 0 (stored (map (λ p. p.1) is)) ≡ some (map (λ p. p.1) is) =
      rw (← length-map_lem (λ (p : Str × ℤ). p.1) is is) (read_vars_lem (map (λ p. p.1) is)) in
    rw (svars, ivars) refl
