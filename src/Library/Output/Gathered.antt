-- ===== src/Library/Output/Gathered.antt =====
-- The gathered times of src/reprompi_bench/benchmark_lib/results_output.c, process after process.
use Prim.{tt}
use mathlib.Core.List.{map, append_assoc}
use mathlib.Core.Option.{none-ne-some, some-injective}
use reprompi_dev.Prelude.{
  ℕ, zero, suc, ◌+◌, ◌*◌, ◌<◌, ◌≡◌, refl, ap, ap₂, sym, ◌∙◌, Option, some, List, [], ◌∷◌, ◌++◌,
  length, length-append, get_elem?, tabulate, length-tabulate, get_elem?-tabulate, All, arith,
}
use reprompi_dev.Prelude.Double.{Doubles}
use reprompi_dev.Results.{differences}
use reprompi_dev.Library.Output.{runtimes_of_procs}

-- What MPI documents of a gather of `n` elements from each process: the element `i` of rank `p` is at
-- position `p * n + i`, and there are no others.
unfoldable pub Gathers : {A : Type 0} → (List (List A) → List A) → Type 0
Gathers {A} gather =
    (n : ℕ) (parts : List (List A))
    → All (λ xs. length xs ≡ n) parts
    → (length (gather parts) ≡ length parts * n)
      × ((p i : ℕ) (part : List A) (x : A)
          → get_elem? parts p ≡ some part
          → get_elem? part i ≡ some x
          → get_elem? (gather parts) (p * n + i) ≡ some x)

-- the blocks of all processes
abbrev pub blocks : {P A : Type 0} → (P → ℕ → A) → ℕ → List P → List A
blocks f n [] = []
blocks f n (p ∷ ps) = tabulate (f p) n 0 ++ blocks f n ps

module _ {A : Type 0} where
  pub tabulate_ext :
      (f g : ℕ → A) (n a b : ℕ)
      → ((i : ℕ) → i < n → f (a + i) ≡ g (b + i))
      → tabulate f n a ≡ tabulate g n b
  tabulate_ext f g zero a b h = refl
  tabulate_ext f g (suc n) a b h =
      let at_a : a + 0 ≡ a = omega arith in
      let at_b : b + 0 ≡ b = omega arith in
      let next : (i : ℕ) → i < n → f (a + 1 + i) ≡ g (b + 1 + i) = λ i l.
        let sa : a + 1 + i ≡ a + suc i = omega arith in
        let sb : b + 1 + i ≡ b + suc i = omega arith in
        ap f sa ∙ h (suc i) (omega arith) ∙ ap g (sym sb) in
      ap₂ (λ x xs. x ∷ xs) (ap f (sym at_a) ∙ h 0 (omega arith) ∙ ap g at_b)
        (tabulate_ext f g n (a + 1) (b + 1) next)

module _ {P A : Type 0} (f : P → ℕ → A) (n : ℕ) where
  tabulated_lengths : (ps : List P) → All (λ xs. length xs ≡ n) (map (λ p. tabulate (f p) n 0) ps)
  tabulated_lengths [] = tt
  tabulated_lengths (p ∷ ps) = (length-tabulate (f p) n 0, tabulated_lengths ps)

  tabulated_at :
      (ps : List P) (j : ℕ) (p : P)
      → get_elem? ps j ≡ some p
      → get_elem? (map (λ q. tabulate (f q) n 0) ps) j ≡ some (tabulate (f p) n 0)
  tabulated_at [] j p h = absurd (none-ne-some p h)
  tabulated_at (q ∷ ps) zero p h = ap (λ r. some (tabulate (f r) n 0)) (some-injective q p h)
  tabulated_at (q ∷ ps) (suc j) p h = tabulated_at ps j p h

  -- An entry of gathered arrays
  pub gathered_entry :
      (gather : List (List A) → List A)
      → Gathers gather
      → (ps : List P) (j : ℕ) (p : P) (i : ℕ) → get_elem? ps j ≡ some p
      → i < n
      → get_elem? (gather (map (λ q. tabulate (f q) n 0) ps)) (j * n + i) ≡ some (f p i)
  unfolding Gathers
  gathered_entry gather documented ps j p i h l =
      let same : 0 + i ≡ i = omega arith in
      let (size, at) = documented n (map (λ q. tabulate (f q) n 0) ps) (tabulated_lengths ps) in
      at j i (tabulate (f p) n 0) (f p i) (tabulated_at ps j p h)
        (get_elem?-tabulate (f p) n 0 i l ∙ ap (λ k. some (f p k)) same)

-- An array of blocks holds, for each process of a list, the first of them of rank `k`, the values of a
-- function; `read` reads an entry.
unfoldable pub Holds : {P A : Type 0} → (ℕ → Option A) → (P → ℕ → A) → ℕ → ℕ → List P → Type 0
Holds {P} read g n k ps =
    (j : ℕ) (p : P) (i : ℕ)
    → get_elem? ps j ≡ some p
    → i < n
    → read ((k + j) * n + i) ≡ some (g p i)

module _ {P A : Type 0} (read : ℕ → Option A) (g : P → ℕ → A) (n k : ℕ) (p : P) (ps : List P) where
  pub Holds-here : Holds read g n k (p ∷ ps) → (i : ℕ) → i < n → read (k * n + i) ≡ some (g p i)
  unfolding Holds
  Holds-here h i l =
      let here : k + 0 ≡ k = omega arith in ap (λ r. read (r * n + i)) (sym here) ∙ h 0 p i refl l

  pub Holds-first :
      Holds read g n k (p ∷ ps) → (i : ℕ) → i < n → read (k * n + i) ≡ some (g p (0 + i))
  Holds-first h i l =
      let at : 0 + i ≡ i = omega arith in Holds-here h i l ∙ ap (λ r. some (g p r)) (sym at)

  pub Holds-next : Holds read g n k (p ∷ ps) → Holds read g n (k + 1) ps
  unfolding Holds
  Holds-next h j q i at l =
      let shift : k + 1 + j ≡ k + suc j = omega arith in
      ap (λ r. read (r * n + i)) shift ∙ h (suc j) q i at l

-- Gathered arrays hold the values of the processes.
pub gathered-Holds :
    {P A : Type 0} (f : P → ℕ → A) (n : ℕ) (gather : List (List A) → List A)
    → Gathers gather
    → (ps : List P) → Holds (get_elem? (gather (map (λ q. tabulate (f q) n 0) ps))) f n 0 ps
unfolding Holds
gathered-Holds f n gather documented ps j p i at l =
    let here : 0 + j ≡ j = omega arith in
    ap (λ r. get_elem? (gather (map (λ q. tabulate (f q) n 0) ps)) (r * n + i)) here
    ∙ gathered_entry f n gather documented ps j p i at l

module _ {A : Type 0} where
  pub get_elem?_front :
      (xs ys : List A) (i : ℕ) → i < length xs → get_elem? (xs ++ ys) i ≡ get_elem? xs i
  get_elem?_front [] ys i h = absurd (omega arith)
  get_elem?_front (x ∷ xs) ys zero h = refl
  get_elem?_front (x ∷ xs) ys (suc i) h = get_elem?_front xs ys i (omega arith)

  pub get_elem?_behind :
      (xs ys : List A) (i : ℕ) → get_elem? (xs ++ ys) (length xs + i) ≡ get_elem? ys i
  get_elem?_behind [] ys i = let same : 0 + i ≡ i = omega arith in ap (get_elem? ys) same
  get_elem?_behind (x ∷ xs) ys i =
      let same : suc (length xs) + i ≡ suc (length xs + i) = omega arith in
      rw same (get_elem?_behind xs ys i)

-- The blocks hold the values too, whatever stands before them.
pub blocks-Holds :
    {P A : Type 0} (f : P → ℕ → A) (n k : ℕ) (ps : List P) (before : List A)
    → length before ≡ k * n
    → Holds (get_elem? (before ++ blocks f n ps)) f n k ps
unfolding Holds
blocks-Holds f n k [] before size j p i at l = absurd (none-ne-some p at)
blocks-Holds f n k (q ∷ ps) before size zero p i at l =
    let same : q ≡ p = some-injective q p at in
    let index : (k + 0) * n + i ≡ length before + i = omega (arith, size) in
    let front : i < length (tabulate (f q) n 0) = omega (arith, length-tabulate (f q) n 0) in
    let here : 0 + i ≡ i = omega arith in
    rw index (
      get_elem?_behind before (blocks f n (q ∷ ps)) i
      ∙ get_elem?_front (tabulate (f q) n 0) (blocks f n ps) i front
      ∙ get_elem?-tabulate (f q) n 0 i l
      ∙ ap₂ (λ r z. some (f r z)) same here)
blocks-Holds f n k (q ∷ ps) before size (suc j) p i at l =
    let grown : length (before ++ tabulate (f q) n 0) ≡ (k + 1) * n =
      omega (arith, length-append before (tabulate (f q) n 0), length-tabulate (f q) n 0, size) in
    let shift : k + 1 + j ≡ k + suc j = omega arith in
    rw (← shift, ← append_assoc before (tabulate (f q) n 0) (blocks f n ps))
      (blocks-Holds f n (k + 1) ps (before ++ tabulate (f q) n 0) grown j p i at l)

module _ {T : Type 0} (double : Doubles T) (starts ends : List T) where
  -- The subtraction of entries that are known
  differences_at :
      (n index a : ℕ) (s e : ℕ → T)
      → ((i : ℕ) → i < n → get_elem? starts (index + i) ≡ some (s (a + i)))
      → ((i : ℕ) → i < n → get_elem? ends (index + i) ≡ some (e (a + i)))
      → differences double n index starts ends ≡ some (tabulate (λ i. double.minus (e i) (s i)) n a)
  unfolding differences
  differences_at zero index a s e hs he = refl
  differences_at (suc n) index a s e hs he =
      let at_index : index + 0 ≡ index = omega arith in
      let at_a : a + 0 ≡ a = omega arith in
      let first : (xs : List T) (g : ℕ → T)
          → get_elem? xs (index + 0) ≡ some (g (a + 0))
          → get_elem? xs index ≡ some (g a) =
        λ xs g h. ap (get_elem? xs) (sym at_index) ∙ h ∙ ap (λ k. some (g k)) at_a in
      let next : (xs : List T) (g : ℕ → T)
          → ((i : ℕ) → i < suc n → get_elem? xs (index + i) ≡ some (g (a + i)))
          → (i : ℕ) → i < n
          → get_elem? xs (index + 1 + i) ≡ some (g (a + 1 + i)) =
        λ xs g h i l.
          let si : index + 1 + i ≡ index + suc i = omega arith in
          let sa : a + 1 + i ≡ a + suc i = omega arith in
          ap (get_elem? xs) si ∙ h (suc i) (omega arith) ∙ ap (λ k. some (g k)) (sym sa) in
      rw
        (
          first ends e (he 0 (omega arith)),
          first starts s (hs 0 (omega arith)),
          differences_at n (index + 1) (a + 1) s e (next starts s hs) (next ends e he),
        )
        refl

  -- The arrays hold the values of two functions.
  pub runtimes_of_procs_lem :
      {P : Type 0} (s e : P → ℕ → T) (n k : ℕ) (ps : List P)
      → Holds (get_elem? starts) s n k ps
      → Holds (get_elem? ends) e n k ps
      → runtimes_of_procs double n (length ps) k starts ends
        ≡ some (blocks (λ p i. double.minus (e p i) (s p i)) n ps)
  unfolding runtimes_of_procs
  runtimes_of_procs_lem s e n k [] hs he = refl
  runtimes_of_procs_lem s e n k (p ∷ ps) hs he =
      rw
        (
          differences_at n (k * n) 0 (s p) (e p) (Holds-first (get_elem? starts) s n k p ps hs)
              (Holds-first (get_elem? ends) e n k p ps he),
          runtimes_of_procs_lem s e n (k + 1) ps (Holds-next (get_elem? starts) s n k p ps hs)
              (Holds-next (get_elem? ends) e n k p ps he),
        )
        refl
