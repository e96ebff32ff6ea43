-- ===== src/Results/Normalised.antt =====
-- The arrays of a process while its global times are computed in place, chunk after chunk:
-- src/reprompi_bench/output_management/results_output.c.
use reprompi_dev.Prelude.{
  ℕ, zero, suc, ◌+◌, ◌-◌, ◌*◌, ◌<◌, ◌≤◌, ◌≡◌, refl, ap, sym, ◌∙◌, false, some, List, [], ◌∷◌,
  length, get_elem?, get_or, get_elem?-get_or, ◌==◌, if◌then◌else◌, arith,
}
use reprompi_dev.Results.Verbose.{chunk_size, nchunks, chunk_nrep, normalise_front}

-- Every chunk lies inside the repetitions and is at most of the full size.
pub chunk_inside :
    (n_rep id : ℕ)
    → id < nchunks n_rep
    → (id * chunk_size + chunk_nrep n_rep id ≤ n_rep) × (chunk_nrep n_rep id ≤ chunk_size)
unfolding nchunks chunk_nrep
chunk_inside n_rep id h = ground arith

module _ {T : Type 0} (d : T) where
  front_inside :
      (g : T → T) (n : ℕ) (xs : List T) (j : ℕ)
      → j < n
      → j < length xs
      → get_or (normalise_front g n xs) j d ≡ g (get_or xs j d)
  unfolding normalise_front
  front_inside g zero xs j h l = absurd (omega arith)
  front_inside g (suc n) [] j h l = absurd (omega arith)
  front_inside g (suc n) (x ∷ xs) zero h l = refl
  front_inside g (suc n) (x ∷ xs) (suc j) h l = front_inside g n xs j (omega arith) (omega arith)

  front_behind :
      (g : T → T) (n : ℕ) (xs : List T) (j : ℕ)
      → n ≤ j
      → get_or (normalise_front g n xs) j d ≡ get_or xs j d
  unfolding normalise_front
  front_behind g zero xs j h = refl
  front_behind g (suc n) [] j h = refl
  front_behind g (suc n) (x ∷ xs) zero h = absurd (omega arith)
  front_behind g (suc n) (x ∷ xs) (suc j) h = front_behind g n xs j (omega arith)

  front_length : (g : T → T) (n : ℕ) (xs : List T) → length (normalise_front g n xs) ≡ length xs
  unfolding normalise_front
  front_length g zero xs = refl
  front_length g (suc n) [] = refl
  front_length g (suc n) (x ∷ xs) = ap suc (front_length g n xs)

  -- a time in a global column: normalised in the first chunk only
  abbrev pub shown : ℕ → (T → T) → T → T
  shown id g x = if id == 0 then g x else x

  -- An array after `id` chunks: only times of the first chunk differ from the measured ones.
  unfoldable pub Later : ℕ → List T → List T → Type 0
  Later id xs ys =
      (length ys ≡ length xs)
      × ((j : ℕ) → chunk_size ≤ j + chunk_size * (1 - id) → get_or ys j d ≡ get_or xs j d)

  pub Later-read :
      (id i : ℕ) (xs ys : List T)
      → Later id xs ys
      → id * chunk_size + i < length xs
      → get_elem? ys (id * chunk_size + i) ≡ some (get_or xs (id * chunk_size + i) d)
  unfolding Later
  Later-read id i xs ys (l, same) h =
      get_elem?-get_or ys (id * chunk_size + i) d (omega arith)
      ∙ ap (λ x. some x) (same (id * chunk_size + i) (omega arith))

  pub global_read :
      (id i n : ℕ) (g : T → T) (xs ys : List T)
      → Later id xs ys
      → i < n
      → n ≤ chunk_size
      → id * chunk_size + i < length xs
      → get_elem? (normalise_front g n ys) (id * chunk_size + i)
        ≡ some (shown id g (get_or xs (id * chunk_size + i) d))
  unfolding Later
  global_read zero i n g xs ys (l, same) below small h =
      let first : 0 + i ≡ i = omega arith in
      rw first (
        get_elem?-get_or _ i d (omega (arith, front_length g n ys))
        ∙ ap (λ x. some x)
            (front_inside g n ys i below (omega arith) ∙ ap g (same i (omega arith))))
  global_read (suc id) i n g xs ys (l, same) below small h =
      let later : (suc id == 0) ≡ false = ground arith in
      get_elem?-get_or _ (suc id * chunk_size + i) d (omega (arith, front_length g n ys))
      ∙ ap (λ x. some x)
          (front_behind g n ys (suc id * chunk_size + i) (omega arith)
            ∙ same (suc id * chunk_size + i) (omega arith))
      ∙ ap
          (λ t. some (
            if t
            then g (get_or xs (suc id * chunk_size + i) d)
            else get_or xs (suc id * chunk_size + i) d))
          (sym later)

  pub Later-next :
      (id n : ℕ) (g : T → T) (xs ys : List T)
      → n ≤ chunk_size
      → Later id xs ys
      → Later (id + 1) xs (normalise_front g n ys)
  unfolding Later
  Later-next id n g xs ys small (l, same) =
      (front_length g n ys ∙ l, λ j h. front_behind g n ys j (omega arith) ∙ same j (omega arith))

  pub Later-stays : (id : ℕ) (xs ys : List T) → Later id xs ys → Later (id + 1) xs ys
  unfolding Later
  Later-stays id xs ys (l, same) = (l, λ j h. same j (omega arith))
