-- ===== src/Jobs/Order.antt =====
-- The jobs made from the options, and their counts.
use native.Mathlib.Nat.{div-add-mod'}
use reprompi_dev.Prelude.{
  ℕ, zero, suc, ◌+◌, ◌*◌, ◌/◌, ◌%◌, ◌≡◌, ◌≢◌, ◌<◌, refl, ap, ◌∙◌, ap₂, map, ==_iff, ◌⊎◌, none, some,
  List, [], ◌∷◌, ◌++◌, ◌==◌, length, length-append, arith, Bool-cases, inl, inr, get_elem?, get_or,
}
use reprompi_dev.Prelude.Int.{ℤ}
use reprompi_dev.Jobs.{Job, jobs_of_size, jobs_of_options, counts}

length-jobs_of_size :
    (n_rep : ℤ) (msize : ℕ) (calls : List ℕ)
    → length (jobs_of_size n_rep msize calls) ≡ length calls
unfolding jobs_of_size
length-jobs_of_size n_rep msize [] = refl
length-jobs_of_size n_rep msize (c ∷ calls) = ap suc (length-jobs_of_size n_rep msize calls)

get_elem?_append_left :
    {A : Type 0} (xs ys : List A) (i : ℕ) → i < length xs → get_elem? (xs ++ ys) i ≡ get_elem? xs i
get_elem?_append_left [] ys i h = absurd (omega (arith, h))
get_elem?_append_left (x ∷ xs) ys zero h = refl
get_elem?_append_left (x ∷ xs) ys (suc i) h = get_elem?_append_left xs ys i (omega (arith, h))

get_elem?_append_right :
    {A : Type 0} (xs ys : List A) (i : ℕ) → get_elem? (xs ++ ys) (length xs + i) ≡ get_elem? ys i
get_elem?_append_right [] ys i = let e : 0 + i ≡ i = omega arith in ap (get_elem? ys) e
get_elem?_append_right (x ∷ xs) ys i =
    let e : suc (length xs) + i ≡ suc (length xs + i) = omega arith in
    ap (get_elem? (x ∷ xs ++ ys)) e ∙ get_elem?_append_right xs ys i

job_of_size :
    (n_rep : ℤ) (msize : ℕ) (calls : List ℕ) (c : ℕ)
    → c < length calls
    → get_elem? (jobs_of_size n_rep msize calls) c
      ≡ some (record { call_index = get_or calls c 0; msize = msize; n_rep = n_rep })
unfolding jobs_of_size
job_of_size n_rep msize [] c h = absurd (omega (arith, h))
job_of_size n_rep msize (x ∷ calls) zero h = refl
job_of_size n_rep msize (x ∷ calls) (suc c) h = job_of_size n_rep msize calls c (omega (arith, h))

-- The job list has one job for each size and call: that of size number `s` and call number `c`
-- stands at s * n_calls + c, and there are n_msize * n_calls jobs.
pub jobs_of_options_lem :
    (n_rep : ℤ) (msizes calls : List ℕ)
    → (length (jobs_of_options n_rep msizes calls) ≡ length msizes * length calls)
      × ((s c : ℕ)
          → s < length msizes
          → c < length calls
          → get_elem? (jobs_of_options n_rep msizes calls) (s * length calls + c)
            ≡ some (record {
              call_index = get_or calls c 0;
              msize = get_or msizes s 0;
              n_rep = n_rep;
            }))
unfolding jobs_of_options
jobs_of_options_lem n_rep [] calls = (omega arith, λ s c h h'. absurd (omega (arith, h)))
jobs_of_options_lem n_rep (m ∷ msizes) calls =
    let (l, g) = jobs_of_options_lem n_rep msizes calls in
    let here = jobs_of_size n_rep m calls in
    let size : length here ≡ length calls = length-jobs_of_size n_rep m calls in
    (
      omega (arith, length-append here (jobs_of_options n_rep msizes calls), size, l),
      elim [
        | zero ↦ λ c h h'.
            let e : 0 * length calls + c ≡ c = omega arith in
            ap (get_elem? (here ++ jobs_of_options n_rep msizes calls)) e
            ∙ get_elem?_append_left here (jobs_of_options n_rep msizes calls) c
                (omega (arith, h', size))
            ∙ job_of_size n_rep m calls c h'
        | suc s ↦ λ c h h'.
            let e : suc s * length calls + c ≡ length here + (s * length calls + c) =
              omega (arith, size) in
            ap (get_elem? (here ++ jobs_of_options n_rep msizes calls)) e
            ∙ get_elem?_append_right here (jobs_of_options n_rep msizes calls)
                (s * length calls + c)
            ∙ g s c (omega (arith, h)) h'
      ],
    )

-- The counts are computed exactly if every message size is a multiple of the datatype's size, and then
-- each is the number of elements of its job's message.
pub counts_lem :
    (datatypesize : ℕ) (jobs : List Job)
    → 0 < datatypesize
    → ((cs : List ℕ) × (counts datatypesize jobs ≡ some cs)
        × (map (λ c. c * datatypesize) cs ≡ map (λ j. j.msize) jobs))
      ⊎ ((counts datatypesize jobs ≡ none)
          × (i : ℕ) × (j : Job) × (get_elem? jobs i ≡ some j)
          × (j.msize % datatypesize ≢ 0))
unfolding counts
counts_lem d [] p = inl ([], refl, refl)
counts_lem d (j ∷ jobs) p = elim (counts_lem d jobs p) [
  | inr (m, i, j', g, ne) ↦ inr (rw m refl, suc i, j', g, ne)
  | inl (cs, m, same) ↦ elim (Bool-cases (j.msize / d * d == j.msize)) [
    | inl h ↦ inl (
      j.msize / d ∷ cs,
      rw (m, h) refl,
      ap₂ (λ x xs. x ∷ xs) ((==_iff (j.msize / d * d) j.msize).0 h) same,
    )
    | inr h ↦ inr (rw (m, h) refl, 0, j, refl, λ z. ground (arith, div-add-mod' j.msize d, z, h))
  ]
]
