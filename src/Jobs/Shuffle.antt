-- ===== src/Jobs/Shuffle.antt =====
-- The shuffle stays inside the array and permutes it.
use native.Mathlib.Nat.{div-lt_iff_lt-mul, lt-mul-div-succ}
use mathlib.Core.Option.{none-ne-some, some-injective}
use reprompi_dev.Prelude.{
  ℕ, zero, suc, ◌+◌, ◌-◌, ◌*◌, ◌/◌, ◌≡◌, ◌≢◌, ◌<◌, ◌≤◌, refl, ap, ◌∙◌, Bool, true, false, some,
  List, [], ◌∷◌, ltb, ◌==◌, if◌then◌else◌, get_elem?, set, length, arith, Bool-cases, inl, inr,
  length-set, get_elem?_below, get_elem?-set_self, get_elem?-set_ne, ==_iff, leb, ◌&&◌,
}
use reprompi_dev.Jobs.{swap_step, shuffle_from, shuffle, indices_from, job_indices}

-- how often a number stands in an array
unfoldable pub occurrences : ℕ → List ℕ → ℕ
occurrences x [] = 0
occurrences x (y ∷ ys) = occurrences x ys + (if x == y then 1 else 0)

-- The partner of position `i` lies in the array, from `i` on.
partner_lt : (rand_max r i n : ℕ) → r ≤ rand_max → i < n → i + r / (rand_max / (n - i) + 1) < n
partner_lt rand_max r i n h lt =
    let k = n - i in
    let d = rand_max / k + 1 in
    let bound : rand_max < k * d = lt-mul-div-succ rand_max (omega (arith, lt)) in
    let positive : 0 < d = omega arith in
    let inside : r < k * d = omega (arith, h, bound) in
    let below : r / d < k = (div-lt_iff_lt-mul positive).1 inside in omega (arith, below)

-- a write replaces one number
occurrences-set :
    (x : ℕ) (ys : List ℕ) (i old new : ℕ)
    → get_elem? ys i ≡ some old
    → occurrences x (set ys i new) + (if x == old then 1 else 0)
      ≡ occurrences x ys + (if x == new then 1 else 0)
unfolding occurrences
occurrences-set x [] i old new h = absurd (none-ne-some old h)
occurrences-set x (y ∷ ys) zero old new h = rw (some-injective y old h) (omega arith)
occurrences-set x (y ∷ ys) (suc i) old new h = omega (arith, occurrences-set x ys i old new h)

-- `r` has the length and the numbers of `ys`.
pub record IsPermutation (ys r : List ℕ) : Type 0 where
  pub same_length : length r ≡ length ys
  pub same_numbers : (x : ℕ) → occurrences x r ≡ occurrences x ys

still_there :
    (ys : List ℕ) (i j u : ℕ)
    → get_elem? ys i ≡ some u
    → j < length ys
    → get_elem? (set ys j u) i ≡ some u
still_there ys i j u h lt = elim (Bool-cases (j == i)) [
  | inl e ↦ let same : j ≡ i = (==_iff j i).0 e in rw (← same) (get_elem?-set_self ys j u lt)
  | inr e ↦ let other : j ≢ i = λ s. ground (arith, s, e) in get_elem?-set_ne ys j i u other ∙ h
]

swap_step-IsPermutation :
    (rand_max r i : ℕ) (ys : List ℕ)
    → r ≤ rand_max
    → i < length ys
    → (zs : List ℕ) × (swap_step rand_max r i ys ≡ some zs) × IsPermutation ys zs
unfolding swap_step
swap_step-IsPermutation rand_max r i ys h lt =
    let j = i + r / (rand_max / (length ys - i) + 1) in
    let lt' : j < length ys = partner_lt rand_max r i (length ys) h lt in
    let (t, e) = get_elem?_below ys j lt' in
    let (u, e') = get_elem?_below ys i lt in
    (
      set (set ys j u) i t,
      rw (e, e') refl,
      record {
        same_length = length-set (set ys j u) i t ∙ length-set ys j u;
        same_numbers = λ x. omega (
          arith,
          occurrences-set x ys j t u e,
          occurrences-set x (set ys j u) i u t (still_there ys i j u e' lt'),
        );
      },
    )

shuffle_from-IsPermutation :
    (rand_max : ℕ) (rand : ℕ → ℕ) (left i : ℕ) (ys : List ℕ)
    → ((k : ℕ) → rand k ≤ rand_max)
    → i + left ≤ length ys
    → (zs : List ℕ) × (shuffle_from rand_max rand left i ys ≡ some zs) × IsPermutation ys zs
unfolding shuffle_from
shuffle_from-IsPermutation rand_max rand zero i ys h le =
    (ys, refl, record { same_length = refl; same_numbers = λ x. refl })
shuffle_from-IsPermutation rand_max rand (suc left) i ys h le =
    let (zs, e, p) = swap_step-IsPermutation rand_max (rand i) i ys (h i) (omega (arith, le)) in
    let (ws, e', p') =
      shuffle_from-IsPermutation rand_max rand left (i + 1) zs h
        (omega (arith, le, p.same_length)) in
    (
      ws,
      rw (e, e') refl,
      record {
        same_length = p'.same_length ∙ p.same_length;
        same_numbers = λ x. p'.same_numbers x ∙ p.same_numbers x;
      },
    )

-- For every sequence of random numbers up to RAND_MAX, the shuffle stays inside the array and leaves a
-- permutation of it.
pub shuffle-IsPermutation :
    (rand_max : ℕ) (rand : ℕ → ℕ) (ys : List ℕ)
    → ((k : ℕ) → rand k ≤ rand_max)
    → (zs : List ℕ) × (shuffle rand_max rand ys ≡ some zs) × IsPermutation ys zs
unfolding shuffle
shuffle-IsPermutation rand_max rand ys h = elim (Bool-cases (ltb 1 (length ys))) [
  | inl long ↦
      rw long (shuffle_from-IsPermutation rand_max rand (length ys - 1) 0 ys h (omega arith))
  | inr short ↦ rw short (ys, refl, record { same_length = refl; same_numbers = λ x. refl })
]

occurrences-indices_from :
    (x i n : ℕ) → occurrences x (indices_from i n) ≡ (if leb i x && ltb x (i + n) then 1 else 0)
unfolding occurrences indices_from
occurrences-indices_from x i zero = ground arith
occurrences-indices_from x i (suc n) = ground (arith, occurrences-indices_from x (i + 1) n)

length-indices_from : (i n : ℕ) → length (indices_from i n) ≡ n
unfolding indices_from
length-indices_from i zero = refl
length-indices_from i (suc n) = ap suc (length-indices_from (i + 1) n)

once : (n job : ℕ) → occurrences job (indices_from 0 n) ≡ (if ltb job n then 1 else 0)
once n job = ground (arith, occurrences-indices_from job 0 n)

-- With or without shuffling, there are as many indices as jobs, and every job stands in the order of
-- execution exactly once.
pub job_indices_lem :
    (enable : Bool) (rand_max : ℕ) (rand : ℕ → ℕ) (n_jobs : ℕ)
    → ((k : ℕ) → rand k ≤ rand_max)
    → (order : List ℕ) × (job_indices enable rand_max rand n_jobs ≡ some order)
      × (length order ≡ n_jobs)
      × ((job : ℕ) → occurrences job order ≡ (if ltb job n_jobs then 1 else 0))
unfolding job_indices
job_indices_lem true rand_max rand n_jobs h =
    let (zs, e, p) = shuffle-IsPermutation rand_max rand (indices_from 0 n_jobs) h in
    (
      zs,
      e,
      p.same_length ∙ length-indices_from 0 n_jobs,
      λ job. p.same_numbers job ∙ once n_jobs job,
    )
job_indices_lem false rand_max rand n_jobs h =
    (indices_from 0 n_jobs, refl, length-indices_from 0 n_jobs, λ job. once n_jobs job)
