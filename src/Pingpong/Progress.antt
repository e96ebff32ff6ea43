-- ===== src/Pingpong/Progress.antt =====
-- Runs of two processes of a ping-pong of src/collective_ops/pingpong.c, in every order of
-- their steps, and a search that finds that none of them gets stuck.
use mathlib.Core.Option.{none-ne-some}
use reprompi_dev.Prelude.{
  ℕ, zero, suc, ◌≤◌, ◌≡◌, refl, Bool, true, false, not, ◌&&◌, ◌||◌, ◌⊎◌, inl, inr, some, List, [],
  ◌∷◌, get_elem?, arith, Bool-cases,
}
use reprompi_dev.Pingpong.{State, successors, finished}

-- One step leads from a state to another.
unfoldable pub Step : State → State → Type 0
Step s t = (i : ℕ) × (get_elem? (successors s) i ≡ some t)

-- `k` steps lead from one state to another.
pub data Run : ℕ → State → State → Type 0 where
  here : {s : State} → Run 0 s s
  more : {k : ℕ} {s t u : State} → Step s t → Run k t u → Run (suc k) s u

module _ {A : Type 0} (f : A → Bool) where
  abbrev every : List A → Bool
  every [] = true
  every (x ∷ xs) = f x && every xs

  every_at : (xs : List A) (i : ℕ) (x : A) → every xs ≡ true → get_elem? xs i ≡ some x → f x ≡ true
  every_at [] i x h e = absurd (none-ne-some x e)
  every_at (y ∷ ys) zero x h e = ground arith
  every_at (y ∷ ys) (suc i) x h e = every_at ys i x (ground arith) e

abbrev has_some : List State → Bool
has_some [] = false
has_some (x ∷ xs) = true

-- Every run from the state ends, in a finished state, within `n` steps.
unfoldable pub all_end : ℕ → State → Bool
all_end zero s = finished s && not (has_some (successors s))
all_end (suc n) s =
    (finished s || has_some (successors s)) && every (λ t. all_end n t) (successors s)

has_some_at : (xs : List State) (i : ℕ) (x : State) → get_elem? xs i ≡ some x → has_some xs ≡ true
has_some_at [] i x e = absurd (none-ne-some x e)
has_some_at (y ∷ ys) i x e = refl

first_of : (xs : List State) → has_some xs ≡ true → (x : State) × (get_elem? xs 0 ≡ some x)
first_of [] h = absurd (ground arith)
first_of (x ∷ xs) h = (x, refl)

-- A state that the search accepts is finished or has a step.
all_end_next :
    (n : ℕ) (s : State) → all_end n s ≡ true → (finished s ≡ true) ⊎ ((t : State) × Step s t)
unfolding all_end Step
all_end_next zero s h = inl (ground arith)
all_end_next (suc n) s h = elim (Bool-cases (finished s)) [
  | inl done ↦ inl done
  | inr not_done ↦
      let some_step : has_some (successors s) ≡ true = ground arith in
      let (t, e) = first_of (successors s) some_step in inr (t, (0, e))
]

-- Nothing follows a state that is accepted without fuel.
all_end_zero : (s t : State) → all_end 0 s ≡ true → Step s t → ⊥
unfolding all_end Step
all_end_zero s t h (i, e) =
    let some_step : has_some (successors s) ≡ true = has_some_at (successors s) i t e in
    ground arith

-- Every step leads to a state that is accepted with less fuel.
all_end-Step : (n : ℕ) (s t : State) → all_end (suc n) s ≡ true → Step s t → all_end n t ≡ true
unfolding all_end Step
all_end-Step n s t h (i, e) = every_at (λ u. all_end n u) (successors s) i t (ground arith) e

-- What the search says of all runs.
pub all_end_sound :
    (n k : ℕ) (s t : State)
    → all_end n s ≡ true
    → Run k s t
    → (k ≤ n) × ((finished t ≡ true) ⊎ ((u : State) × Step t u))
all_end_sound n k s t h here = (omega arith, all_end_next n s h)
all_end_sound zero k s u h (more {t = t} step run) = absurd (all_end_zero s t h step)
all_end_sound (suc n) k s u h (more {t = t} step run) =
    let (few, further) = all_end_sound n _ t u (all_end-Step n s t h step) run in
    (omega arith, further)
