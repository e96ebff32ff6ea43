-- ===== src/Results/Runtimes.antt =====
-- What the run-times of src/reprompi_bench/output_management/runtimes_computation.c are: for each
-- repetition, the slowest process, or the span between the first start and the last end.
use mathlib.Core.List.{foldr, map}
use reprompi_dev.Prelude.{
  ℕ, zero, suc, ◌+◌, ◌<◌, ◌≤◌, ◌≡◌, refl, ap, ◌∙◌, Option, some, List, [], ◌∷◌, length, get_elem?,
  get_or, get_elem?-get_or, tabulate, get_elem?-tabulate, All, arith,
}
use reprompi_dev.Prelude.Double.{Doubles}
use reprompi_dev.Results.{on_all, slice, differences, normalised}

-- The value of each array at an index
abbrev pub column : {A : Type 0} → List (List A) → ℕ → Option (List A)
column xss i = on_all (λ xs. get_elem? xs i) xss

-- What MPI documents of a reduction: element by element, the operation over all processes.
unfoldable pub Reduces :
    {A : Type 0} → ((A → A → A) → List (List A) → List A) → (A → A → A) → Type 0
Reduces {A} reduce op =
    (xs : List A) (xss : List (List A)) (i : ℕ) (x : A) (others : List A)
    → get_elem? xs i ≡ some x
    → column xss i ≡ some others
    → get_elem? (reduce op (xs ∷ xss)) i ≡ some (foldr op x others)

-- The three loops compute what they read, if they stay inside their arrays.
module _ {T : Type 0} (double : Doubles T) (d : T) where
  -- the run-time of one process from its own clock
  abbrev pub local_runtime : List T → List T → ℕ → T
  local_runtime tstart tend i = double.minus (get_or tend i d) (get_or tstart i d)

  pub differences_lem :
      (n index : ℕ) (tstart tend : List T)
      → index + n ≤ length tstart
      → index + n ≤ length tend
      → differences double n index tstart tend ≡ some (tabulate (local_runtime tstart tend) n index)
  unfolding differences
  differences_lem zero index tstart tend a b = refl
  differences_lem (suc n) index tstart tend a b =
      rw
        (
          get_elem?-get_or tend index d (omega arith),
          get_elem?-get_or tstart index d (omega arith),
          differences_lem n (index + 1) tstart tend (omega arith) (omega arith),
        )
        refl

  pub normalised_lem :
      (global : T → T) (n index : ℕ) (times : List T)
      → index + n ≤ length times
      → normalised global n index times ≡ some (tabulate (λ i. global (get_or times i d)) n index)
  unfolding normalised
  normalised_lem global zero index times h = refl
  normalised_lem global (suc n) index times h =
      rw
        (
          get_elem?-get_or times index d (omega arith),
          normalised_lem global n (index + 1) times (omega arith),
        )
        refl

pub slice_lem :
    {A : Type 0} (d : A) (n index : ℕ) (xs : List A)
    → index + n ≤ length xs
    → slice n index xs ≡ some (tabulate (λ i. get_or xs i d) n index)
unfolding slice
slice_lem d zero index xs h = refl
slice_lem d (suc n) index xs h =
    rw (get_elem?-get_or xs index d (omega arith), slice_lem d n (index + 1) xs (omega arith)) refl

-- A computation that succeeds on each process succeeds on all.
module _ {A B : Type 0} (f : A → Option B) (g : A → B) (P : A → Type 0) where
  pub on_all_lem :
      ((x : A) → P x → f x ≡ some (g x)) → (xs : List A) → All P xs → on_all f xs ≡ some (map g xs)
  on_all_lem ok [] all = refl
  on_all_lem ok (x ∷ xs) (p, ps) = rw (ok x p, on_all_lem ok xs ps) refl

pub column-tabulate :
    {A B : Type 0} (f : A → ℕ → B) (n i : ℕ) (xs : List A)
    → i < n
    → column (map (λ x. tabulate (f x) n 0) xs) i ≡ some (map (λ x. f x i) xs)
column-tabulate f n i [] h = refl
column-tabulate f n i (x ∷ xs) h =
    let same : 0 + i ≡ i = omega arith in
    let at : get_elem? (tabulate (f x) n 0) i ≡ some (f x i) =
      get_elem?-tabulate (f x) n 0 i h ∙ ap (λ k. some (f x k)) same in
    rw (at, column-tabulate f n i xs h) refl

-- The elements of a reduction of tabulated arrays
pub reduce-tabulate :
    {A B : Type 0} (reduce : (B → B → B) → List (List B) → List B) (op : B → B → B) (f : A → ℕ → B)
    (n i : ℕ) (x : A) (xs : List A)
    → Reduces reduce op
    → i < n
    → get_elem? (reduce op (map (λ y. tabulate (f y) n 0) (x ∷ xs))) i
      ≡ some (foldr op (f x i) (map (λ y. f y i) xs))
unfolding Reduces
reduce-tabulate reduce op f n i x xs documented h =
    let same : 0 + i ≡ i = omega arith in
    documented _ _ i _ _ (get_elem?-tabulate (f x) n 0 i h ∙ ap (λ k. some (f x k)) same)
      (column-tabulate f n i xs h)
