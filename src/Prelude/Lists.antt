-- ===== src/Prelude/Lists.antt =====
-- Lists measured and indexed by native numbers, under the library's names.
use Prim.{Unit, tt}
use Prim.Native.Nat.{ℕ, zero, suc, ◌+◌, ◌<◌, ◌≤◌}
use mathlib.Core.Path.{◌≡◌, refl, ap, sym}
use mathlib.Core.Logic.{◌≢◌}
use mathlib.Core.List.{List, [], ◌∷◌, ◌++◌}
use mathlib.Core.Option.{Option, none, some, none-ne-some, some-injective}
use native.Mathlib.Omega.{arith}

module _ {ℓ} {A : Type ℓ} where
  abbrev pub length : List A → ℕ
  length [] = 0
  length (x ∷ xs) = suc (length xs)

  abbrev pub get_elem? : List A → ℕ → Option A
  get_elem? [] i = none
  get_elem? (x ∷ xs) zero = some x
  get_elem? (x ∷ xs) (suc i) = get_elem? xs i

  abbrev pub get_or : List A → ℕ → A → A
  get_or [] i d = d
  get_or (x ∷ xs) zero d = x
  get_or (x ∷ xs) (suc i) d = get_or xs i d

  -- A write out of bounds changes nothing.
  abbrev pub set : List A → ℕ → A → List A
  set [] i v = []
  set (x ∷ xs) zero v = v ∷ xs
  set (x ∷ xs) (suc i) v = x ∷ set xs i v

  abbrev pub replicate : ℕ → A → List A
  replicate zero a = []
  replicate (suc n) a = a ∷ replicate n a

  abbrev pub take : ℕ → List A → List A
  take zero xs = []
  take (suc n) [] = []
  take (suc n) (x ∷ xs) = x ∷ take n xs

  pub take-append : (xs ys : List A) → take (length xs) (xs ++ ys) ≡ xs
  take-append [] ys = refl
  take-append (x ∷ xs) ys = ap (λ zs. x ∷ zs) (take-append xs ys)

  pub take_all : (xs : List A) → take (length xs) xs ≡ xs
  take_all [] = refl
  take_all (x ∷ xs) = ap (λ zs. x ∷ zs) (take_all xs)

  pub length-append : (xs ys : List A) → length (xs ++ ys) ≡ length xs + length ys
  length-append [] ys = omega arith
  length-append (x ∷ xs) ys = omega (arith, length-append xs ys)

  pub length-set : (xs : List A) (i : ℕ) (v : A) → length (set xs i v) ≡ length xs
  length-set [] i v = refl
  length-set (x ∷ xs) zero v = refl
  length-set (x ∷ xs) (suc i) v = ap suc (length-set xs i v)

  pub length-replicate : (n : ℕ) (a : A) → length (replicate n a) ≡ n
  length-replicate zero a = refl
  length-replicate (suc n) a = ap suc (length-replicate n a)

  pub get_or-replicate : (n i : ℕ) (a : A) → get_or (replicate n a) i a ≡ a
  get_or-replicate zero i a = refl
  get_or-replicate (suc n) zero a = refl
  get_or-replicate (suc n) (suc i) a = get_or-replicate n i a

  pub get_or_above : (xs : List A) (i : ℕ) (d : A) → length xs ≤ i → get_or xs i d ≡ d
  get_or_above [] i d h = refl
  get_or_above (x ∷ xs) zero d h = absurd (omega arith)
  get_or_above (x ∷ xs) (suc i) d h = get_or_above xs i d (omega arith)

  pub get_or-set_self :
      (xs : List A) (i : ℕ) (v d : A) → i < length xs → get_or (set xs i v) i d ≡ v
  get_or-set_self [] i v d h = absurd (omega arith)
  get_or-set_self (x ∷ xs) zero v d h = refl
  get_or-set_self (x ∷ xs) (suc i) v d h = get_or-set_self xs i v d (omega arith)

  pub get_or-set_ne :
      (xs : List A) (i j : ℕ) (v d : A) → i ≢ j → get_or (set xs i v) j d ≡ get_or xs j d
  get_or-set_ne [] i j v d h = refl
  get_or-set_ne (x ∷ xs) zero zero v d h = absurd (h refl)
  get_or-set_ne (x ∷ xs) zero (suc j) v d h = refl
  get_or-set_ne (x ∷ xs) (suc i) zero v d h = refl
  get_or-set_ne (x ∷ xs) (suc i) (suc j) v d h = get_or-set_ne xs i j v d (λ e. h (ap suc e))

  pub set-get_or : (xs : List A) (i : ℕ) (d : A) → set xs i (get_or xs i d) ≡ xs
  set-get_or [] i d = refl
  set-get_or (x ∷ xs) zero d = refl
  set-get_or (x ∷ xs) (suc i) d = ap (λ r. x ∷ r) (set-get_or xs i d)

  pub get_elem?-set_self :
      (xs : List A) (i : ℕ) (v : A) → i < length xs → get_elem? (set xs i v) i ≡ some v
  get_elem?-set_self [] i v h = absurd (omega arith)
  get_elem?-set_self (x ∷ xs) zero v h = refl
  get_elem?-set_self (x ∷ xs) (suc i) v h = get_elem?-set_self xs i v (omega arith)

  pub get_elem?-set_ne :
      (xs : List A) (i j : ℕ) (v : A) → i ≢ j → get_elem? (set xs i v) j ≡ get_elem? xs j
  get_elem?-set_ne [] i j v h = refl
  get_elem?-set_ne (x ∷ xs) zero zero v h = absurd (h refl)
  get_elem?-set_ne (x ∷ xs) zero (suc j) v h = refl
  get_elem?-set_ne (x ∷ xs) (suc i) zero v h = refl
  get_elem?-set_ne (x ∷ xs) (suc i) (suc j) v h = get_elem?-set_ne xs i j v (λ e. h (ap suc e))

  pub get_elem?_below : (xs : List A) (i : ℕ) → i < length xs → (x : A) × (get_elem? xs i ≡ some x)
  get_elem?_below [] i h = absurd (omega arith)
  get_elem?_below (x ∷ xs) zero h = (x, refl)
  get_elem?_below (x ∷ xs) (suc i) h = get_elem?_below xs i (omega arith)

  pub get_elem?-get_or :
      (xs : List A) (i : ℕ) (d : A) → i < length xs → get_elem? xs i ≡ some (get_or xs i d)
  get_elem?-get_or [] i d h = absurd (omega arith)
  get_elem?-get_or (x ∷ xs) zero d h = refl
  get_elem?-get_or (x ∷ xs) (suc i) d h = get_elem?-get_or xs i d (omega arith)

  -- the values of a function from an index on
  abbrev pub tabulate : (ℕ → A) → ℕ → ℕ → List A
  tabulate f zero index = []
  tabulate f (suc n) index = f index ∷ tabulate f n (index + 1)

  pub get_elem?-tabulate :
      (f : ℕ → A) (n index j : ℕ) → j < n → get_elem? (tabulate f n index) j ≡ some (f (index + j))
  get_elem?-tabulate f zero index j h = absurd (omega arith)
  get_elem?-tabulate f (suc n) index zero h =
      let same : index + 0 ≡ index = omega arith in rw same refl
  get_elem?-tabulate f (suc n) index (suc j) h =
      let same : index + 1 + j ≡ index + suc j = omega arith in
      rw (← same) (get_elem?-tabulate f n (index + 1) j (omega arith))

  pub length-tabulate : (f : ℕ → A) (n index : ℕ) → length (tabulate f n index) ≡ n
  length-tabulate f zero index = refl
  length-tabulate f (suc n) index = ap suc (length-tabulate f n (index + 1))

  pub set-append :
      (xs : List A) (y v : A) (ys : List A) → set (xs ++ y ∷ ys) (length xs) v ≡ xs ++ v ∷ ys
  set-append [] y v ys = refl
  set-append (x ∷ xs) y v ys = ap (λ zs. x ∷ zs) (set-append xs y v ys)

  pub snoc-append : (xs : List A) (y : A) (ys : List A) → xs ++ y ∷ ys ≡ (xs ++ y ∷ []) ++ ys
  snoc-append [] y ys = refl
  snoc-append (x ∷ xs) y ys = ap (λ zs. x ∷ zs) (snoc-append xs y ys)

  pub append_nil : (xs : List A) → xs ++ [] ≡ xs
  append_nil [] = refl
  append_nil (x ∷ xs) = ap (λ zs. x ∷ zs) (append_nil xs)

  pub tabulate_snoc :
      (f : ℕ → A) (n index : ℕ)
      → tabulate f (suc n) index ≡ tabulate f n index ++ f (index + n) ∷ []
  tabulate_snoc f zero index = let same : index + 0 ≡ index = omega arith in rw same refl
  tabulate_snoc f (suc n) index =
      let same : index + 1 + n ≡ index + suc n = omega arith in
      rw (← same) (ap (λ xs. f index ∷ xs) (tabulate_snoc f n (index + 1)))

  pub get_elem?_lt : (xs : List A) (i : ℕ) (x : A) → get_elem? xs i ≡ some x → i < length xs
  get_elem?_lt [] i x h = absurd (none-ne-some x h)
  get_elem?_lt (y ∷ xs) zero x h = omega arith
  get_elem?_lt (y ∷ xs) (suc i) x h = omega (arith, get_elem?_lt xs i x h)

  pub set-set : (xs : List A) (i : ℕ) (v v' : A) → set (set xs i v) i v' ≡ set xs i v'
  set-set [] i v v' = refl
  set-set (x ∷ xs) zero v v' = refl
  set-set (x ∷ xs) (suc i) v v' = ap (λ r. x ∷ r) (set-set xs i v v')

  pub set-get_elem? : (xs : List A) (i : ℕ) (x : A) → get_elem? xs i ≡ some x → set xs i x ≡ xs
  set-get_elem? [] i x h = refl
  set-get_elem? (y ∷ xs) zero x h = ap (λ z. z ∷ xs) (some-injective x y (sym h))
  set-get_elem? (y ∷ xs) (suc i) x h = ap (λ r. y ∷ r) (set-get_elem? xs i x h)

  pub get_elem?-replicate : (n i : ℕ) (a : A) → i < n → get_elem? (replicate n a) i ≡ some a
  get_elem?-replicate zero i a h = absurd (omega arith)
  get_elem?-replicate (suc n) zero a h = refl
  get_elem?-replicate (suc n) (suc i) a h = get_elem?-replicate n i a (omega arith)

-- a property of every element
abbrev pub All {ℓ} : {A : Type ℓ} → (A → Type 0) → List A → Type 0
All P [] = Unit {0}
All P (x ∷ xs) = P x × All P xs

-- A proof for a list, one element after the other
infixr 4 ◌&◌
abbrev pub ◌&◌ {ℓ κ} : {A : Type ℓ} {B : Type κ} → A → B → A × B
a & b = (a, b)

pub All_at {ℓ} :
    {A : Type ℓ} (P : A → Type 0) (xs : List A) (i : ℕ) (x : A)
    → All P xs
    → get_elem? xs i ≡ some x
    → P x
All_at P [] i x all h = absurd (none-ne-some x h)
All_at P (y ∷ ys) zero x (p, ps) h = let e : y ≡ x = some-injective _ _ h in rw (← e) p
All_at P (y ∷ ys) (suc i) x (p, ps) h = All_at P ys i x ps h

-- a property of every element and its index, from `k` on
abbrev pub AllFrom {ℓ} : {A : Type ℓ} → (ℕ → A → Type 0) → ℕ → List A → Type 0
AllFrom P k [] = Unit {0}
AllFrom P k (x ∷ xs) = P k x × AllFrom P (k + 1) xs

pub AllFrom_at {ℓ} :
    {A : Type ℓ} (P : ℕ → A → Type 0) (k : ℕ) (xs : List A) (i : ℕ) (x : A)
    → AllFrom P k xs
    → get_elem? xs i ≡ some x
    → P (k + i) x
AllFrom_at P k [] i x all h = absurd (none-ne-some x h)
AllFrom_at P k (y ∷ ys) zero x (p, ps) h =
    let e : y ≡ x = some-injective _ _ h in let at : k + 0 ≡ k = omega arith in rw (at, ← e) p
AllFrom_at P k (y ∷ ys) (suc i) x (p, ps) h =
    let at : k + 1 + i ≡ k + suc i = omega arith in rw (← at) (AllFrom_at P (k + 1) ys i x ps h)

pub pair-All {ℓ} :
    {A : Type ℓ} (P Q : A → Type 0) (xs : List A) → All P xs → All Q xs → All (λ x. P x × Q x) xs
pair-All P Q [] ps qs = tt
pair-All P Q (x ∷ xs) (p, ps) (q, qs) = ((p, q), pair-All P Q xs ps qs)
