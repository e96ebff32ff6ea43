-- ===== src/Library/UserVars.antt =====
-- The variables that a user adds to a job of src/reprompi_bench/benchmark_lib/reproMPIbenchmark.c:
-- every write is inside the arrays.
use mathlib.Core.List.{map-append}
use reprompi_dev.Prelude.{
  ℕ, zero, suc, ◌+◌, ◌-◌, ◌%◌, ◌≤◌, ◌<◌, ◌≡◌, refl, ap, sym, true, false, Option, none, some, ◌>>=◌,
  inl, inr, Bool-cases, List, [], ◌∷◌, ◌++◌, length, length-append, length-replicate, replicate,
  set-append, snoc-append, append_nil, take, map, lt→ltb, ◌==◌, arith,
}
use reprompi_dev.Prelude.Int.{ℤ}
use reprompi_dev.Prelude.Text.{Str}
use reprompi_dev.Library.{
  put, Vars, JobInfo, realloc, grown, add_var, add_svar_to_job, add_ivar_to_job, initialize_job,
}

-- how many places are left behind `n` entries
abbrev pub room : ℕ → ℕ
room n = (4 - n % 4) % 4

room_full : (n : ℕ) → (n % 4 == 0) ≡ true → (room n ≡ 0) × (room (n + 1) ≡ 3)
room_full n h = (ground arith, ground arith)

room_more : (n : ℕ) → (n % 4 == 0) ≡ false → room n ≡ suc (room (n + 1))
room_more n h = ground arith

module _ {V : Type 0} where
  -- The array that holds a list: NULL for no entries, else its entries and the room behind them
  abbrev pub array_of : List V → List (Option V)
  array_of xs = map some xs ++ replicate (room (length xs)) none

  abbrev pub stored : List V → Option (List (Option V))
  stored [] = none
  stored (x ∷ xs) = some (array_of (x ∷ xs))

  length-map-some : (xs : List V) → length (map {B = Option V} some xs) ≡ length xs
  length-map-some [] = refl
  length-map-some (x ∷ xs) = ap suc (length-map-some xs)

  length-array_of : (xs : List V) → length (array_of xs) ≡ length xs + room (length xs)
  length-array_of xs = omega (
    arith,
    length-append (map {B = Option V} some xs) (replicate (room (length xs)) none),
    length-map-some xs,
    length-replicate {A = Option V} (room (length xs)) none,
  )

  take_more : (n : ℕ) (xs : List (Option V)) → length xs ≤ n → take n xs ≡ xs
  take_more zero [] h = refl
  take_more zero (x ∷ xs) h = absurd (omega arith)
  take_more (suc n) [] h = refl
  take_more (suc n) (x ∷ xs) h = ap (λ r. x ∷ r) (take_more n xs (omega arith))

  realloc_full :
      (xs : List V) (n : ℕ)
      → n ≡ length xs
      → room (length xs) ≡ 0
      → realloc (n + 4) (some (array_of xs)) ≡ map some xs ++ replicate 4 none
  realloc_full xs n e h =
      let size : length (array_of xs) ≡ n = omega (arith, length-array_of xs) in
      let four : n + 4 - n ≡ 4 = omega arith in
      rw
        (
          take_more (n + 4) (array_of xs) (omega arith),
          size,
          four,
          h,
          append_nil (map {B = Option V} some xs),
        )
        refl

  -- the array before the next entry is written
  grown_lem :
      (xs : List V)
      → grown (length xs) (stored xs)
        ≡ some (map some xs ++ none ∷ replicate (room (length xs + 1)) none)
  unfolding grown
  grown_lem [] = refl
  grown_lem (x ∷ xs) = elim (Bool-cases (length (x ∷ xs) % 4 == 0)) [
    | inl h ↦
        let (empty, three) = room_full (length (x ∷ xs)) h in
        rw (h, three) (ap some (realloc_full (x ∷ xs) (length (x ∷ xs)) refl empty))
    | inr h ↦ rw (h, room_more (length (x ∷ xs)) h) refl
  ]

  put_lem :
      (xs : List V) (v : V) (rest : List (Option V))
      → put (map some xs ++ none ∷ rest) (length xs) v ≡ some (map some xs ++ some v ∷ rest)
  unfolding put
  put_lem xs v rest =
      let size : length (map {B = Option V} some xs) ≡ length xs = length-map-some xs in
      let inside : length xs < length (map some xs ++ none ∷ rest) =
        omega (arith, length-append (map {B = Option V} some xs) (none ∷ rest), size) in
      rw
        (
          lt→ltb (length xs) (length (map some xs ++ none ∷ rest)) inside,
          ← size,
          set-append (map some xs) none (some v) rest,
        )
        refl

  stored_snoc :
      (xs : List V) (v : V)
      → some (map some xs ++ some v ∷ replicate (room (length xs + 1)) none) ≡ stored (xs ++ v ∷ [])
  stored_snoc [] v = refl
  stored_snoc (x ∷ xs) v =
      let size : length (x ∷ xs) + 1 ≡ suc (length (xs ++ v ∷ [])) =
        omega (arith, length-append xs (v ∷ [])) in
      rw
        (
          size,
          snoc-append (map some (x ∷ xs)) (some v)
              (replicate (room (suc (length (xs ++ v ∷ [])))) none),
          map-append some xs (v ∷ []),
        )
        refl

-- The variables that hold a list of names and values
abbrev pub listed : {V : Type 0} → List (Str × V) → Vars V
listed vs = record {
  n_user = length vs;
  user = stored (map (λ p. p.1) vs);
  names = stored (map (λ p. p.0) vs);
}

module _ {P V : Type 0} (f : P → V) (vs : List P) where
  pub length-map_lem : (vs : List P) → length (map f vs) ≡ length vs
  length-map_lem [] = refl
  length-map_lem (p ∷ vs) = ap suc (length-map_lem vs)

  -- the array with a place for the next entry
  abbrev opened : List (Option V)
  opened = map some (map f vs) ++ none ∷ replicate (room (length vs + 1)) none

  grown_at : grown (length vs) (stored (map f vs)) ≡ some opened
  grown_at = rw (← length-map_lem vs) (grown_lem (map f vs))

  put_at :
      (p : P)
      → (a : List (Option V)) × (put opened (length vs) (f p) ≡ some a)
        × (some a ≡ stored (map f (vs ++ p ∷ [])))
  put_at p =
      let size = length-map_lem vs in
      (
        map some (map f vs) ++ some (f p) ∷ replicate (room (length vs + 1)) none,
        rw (← size) (put_lem (map f vs) (f p) (replicate (room (length (map f vs) + 1)) none)),
        rw (← size, map-append f vs (p ∷ [])) (stored_snoc (map f vs) (f p)),
      )

module _ {V : Type 0} where
  -- One more variable
  add_var-listed :
      (name : Str) (v : V) (vs : List (Str × V))
      → add_var name v (listed vs) ≡ some (listed (vs ++ (name, v) ∷ []))
  unfolding add_var
  add_var-listed name v vs =
      let (a, written, whole) = put_at (λ (p : Str × V). p.1) vs (name, v) in
      let (b, written', whole') = put_at (λ (p : Str × V). p.0) vs (name, v) in
      let count : length vs + 1 ≡ length (vs ++ (name, v) ∷ []) =
        sym (length-append vs ((name, v) ∷ [])) in
      rw
        (
          grown_at (λ (p : Str × V). p.1) vs,
          grown_at (λ (p : Str × V). p.0) vs,
          written,
          written',
          count,
          whole,
          whole',
        )
        refl

-- What a user adds
pub data Added : Type 0 where
  svar : Str → Str → Added
  ivar : Str → ℤ → Added

abbrev pub svars_of : List Added → List (Str × Str)
svars_of [] = []
svars_of (svar name s ∷ added) = (name, s) ∷ svars_of added
svars_of (ivar name v ∷ added) = svars_of added

abbrev pub ivars_of : List Added → List (Str × ℤ)
ivars_of [] = []
ivars_of (svar name s ∷ added) = ivars_of added
ivars_of (ivar name v ∷ added) = (name, v) ∷ ivars_of added

module _ {T : Type 0} where
  abbrev pub add_all : List Added → JobInfo T → Option (JobInfo T)
  add_all [] job = some job
  add_all (svar name s ∷ added) job = add_svar_to_job name s job >>= add_all added
  add_all (ivar name v ∷ added) job = add_ivar_to_job name v job >>= add_all added

  abbrev pub with_vars : JobInfo T → List (Str × Str) → List (Str × ℤ) → JobInfo T
  with_vars job ss is = record job { svars = listed ss; ivars = listed is }

  add_all-with_vars :
      (added : List Added) (job : JobInfo T) (ss : List (Str × Str)) (is : List (Str × ℤ))
      → add_all added (with_vars job ss is)
        ≡ some (with_vars job (ss ++ svars_of added) (is ++ ivars_of added))
  add_all-with_vars [] job ss is = rw (append_nil ss, append_nil is) refl
  add_all-with_vars (svar name s ∷ added) job ss is =
      rw (add_var-listed name s ss, snoc-append ss (name, s) (svars_of added))
        (add_all-with_vars added job (ss ++ (name, s) ∷ []) is)
  add_all-with_vars (ivar name v ∷ added) job ss is =
      rw (add_var-listed name v is, snoc-append is (name, v) (ivars_of added))
        (add_all-with_vars added job ss (is ++ (name, v) ∷ []))

  -- Whatever variables are added to a new job, in any order of the two kinds, every write is inside the
  -- arrays, and the arrays of each kind then hold the values and the names in the order of the calls,
  -- with room up to the next multiple of four.
  pub add_all_lem :
      (nrep : ℕ) (tstart tend : List T) (operation timername timertype : Str) (added : List Added)
      → add_all added (initialize_job nrep tstart tend operation timername timertype)
        ≡ some (
            with_vars
              (initialize_job nrep tstart tend operation timername timertype)
              (svars_of added)
              (ivars_of added))
  unfolding initialize_job
  add_all_lem nrep tstart tend operation timername timertype added =
      add_all-with_vars added (initialize_job nrep tstart tend operation timername timertype) [] []
