-- ===== src/Collective/Bcast/Loops.antt =====
-- The two loops of `RemproMPI_Bcast_binomial`: they end, and what they compute.
use native.Mathlib.Decide.{dec_lt}
use reprompi_dev.Prelude.{
  ℕ, zero, suc, ◌+◌, ◌*◌, ◌^◌, ◌≤◌, ◌<◌, ◌≡◌, ◌∙◌, some, List, [], ◌∷◌, arith, ◌⊎◌, inl, inr, ◌↔◌,
  if◌then◌else◌, ◌==◌, ==_iff, Bool-cases,
}
use reprompi_dev.Prelude.Bits.{pow-two_suc}
use reprompi_dev.Collective.Bcast.{find_bits, destinations}

-- `d` is a power of two and `dd` the one below it, or 0; `dd` does not exceed the rank.
abbrev pub AreBits : ℕ → ℕ → ℕ → Type 0
AreBits rank d dd =
    ((d ≡ 1) × (dd ≡ 0)) ⊎ ((k : ℕ) × (d ≡ 2 ^ suc k) × (dd ≡ 2 ^ k) × (2 ^ k ≤ rank))

find_bits_stop : (fuel rank d dd : ℕ) → rank < d → find_bits (suc fuel) rank d dd ≡ some (d, dd)
unfolding find_bits
find_bits_stop fuel rank d dd h = ground arith

find_bits_go :
    (fuel rank d dd : ℕ) → d ≤ rank → find_bits (suc fuel) rank d dd ≡ find_bits fuel rank (d * 2) d
unfolding find_bits
find_bits_go fuel rank d dd h = ground arith

AreBits-double : (rank d dd : ℕ) → d ≤ rank → AreBits rank d dd → AreBits rank (d * 2) d
AreBits-double rank d dd h (inl (one, _)) = inr (0, omega arith, omega arith, omega arith)
AreBits-double rank d dd h (inr (k, e, _, _)) =
    inr (suc k, omega (arith, pow-two_suc (suc k)), e, omega arith)

double_pow : (d k : ℕ) → d * 2 * 2 ^ k ≡ d * 2 ^ suc k
double_pow d k = rw pow-two_suc (omega arith)

-- The first loop ends, at a power of two above the rank.
pub find_bits_total :
    (fuel rank d dd : ℕ)
    → rank < d * 2 ^ fuel
    → AreBits rank d dd
    → (d' dd' : ℕ) × (find_bits (suc fuel) rank d dd ≡ some (d', dd'))
      × AreBits rank d' dd'
      × (rank < d')
find_bits_total zero rank d dd lt bits =
    (d, dd, find_bits_stop 0 rank d dd (omega arith), bits, omega arith)
find_bits_total (suc fuel) rank d dd lt bits = elim (dec_lt rank d) [
  | yes p ↦ (d, dd, find_bits_stop (suc fuel) rank d dd p, bits, p)
  | no p ↦
      let (d', dd', run, bits', lt') =
        find_bits_total fuel rank (d * 2) d (omega (arith, double_pow d fuel))
          (AreBits-double rank d dd (omega arith) bits) in
      (d', dd', find_bits_go (suc fuel) rank d dd (omega arith) ∙ run, bits', lt')
]

abbrev pub In : ℕ → List ℕ → Type 0
In q [] = ⊥
In q (p ∷ ps) = (q ≡ p) ⊎ In q ps

-- the ranks that the second loop sends to, from the offset `d` on
abbrev pub IsReached : ℕ → ℕ → ℕ → ℕ → Type 0
IsReached rank size d q = (i : ℕ) × (q ≡ rank + d * 2 ^ i) × (q < size)

destinations_stop :
    (fuel rank size d : ℕ) → size ≤ rank + d → destinations (suc fuel) rank size d ≡ some []
unfolding destinations
destinations_stop fuel rank size d h = ground arith

destinations_go :
    (fuel rank size d : ℕ) (ps : List ℕ)
    → rank + d < size
    → destinations fuel rank size (d * 2) ≡ some ps
    → destinations (suc fuel) rank size d ≡ some ((rank + d) ∷ ps)
unfolding destinations
destinations_go fuel rank size d ps h e = ground arith

pub le-mul-pow : (d i : ℕ) → d ≤ d * 2 ^ i
le-mul-pow d zero = omega arith
le-mul-pow d (suc i) = omega (arith, le-mul-pow d i, double_pow d i)

none-IsReached : (rank size d q : ℕ) → size ≤ rank + d → ¬ IsReached rank size d q
none-IsReached rank size d q h (i, e, lt) = omega (arith, le-mul-pow d i)

IsReached-cons :
    (rank size d q : ℕ)
    → rank + d < size
    → ((q ≡ rank + d) ⊎ IsReached rank size (d * 2) q) ↔ IsReached rank size d q
IsReached-cons rank size d q h = (forth, back)
  where
    forth : (q ≡ rank + d) ⊎ IsReached rank size (d * 2) q → IsReached rank size d q
    forth (inl e) = (0, omega arith, omega arith)
    forth (inr (i, e, lt)) = (suc i, omega (arith, double_pow d i), lt)

    back : IsReached rank size d q → (q ≡ rank + d) ⊎ IsReached rank size (d * 2) q
    back (zero, e, lt) = inl (omega arith)
    back (suc i, e, lt) = inr (i, omega (arith, double_pow d i), lt)

-- how often a rank is in a list of ranks
unfoldable pub occurrences : ℕ → List ℕ → ℕ
occurrences q [] = 0
occurrences q (x ∷ xs) = occurrences q xs + (if q == x then 1 else 0)

-- What occurs is in the list.
occurrences-In : (q : ℕ) (xs : List ℕ) → 0 < occurrences q xs → In q xs
unfolding occurrences
occurrences-In q [] h = absurd (omega arith)
occurrences-In q (x ∷ xs) h = elim (Bool-cases (q == x)) [
  | inl e ↦ inl ((==_iff q x).0 e)
  | inr e ↦ inr (occurrences-In q xs (ground arith))
]

-- A new rank in front occurs once.
occurrences-cons :
    (q x : ℕ) (xs : List ℕ) → occurrences q xs ≤ 1 → (In x xs → ⊥) → occurrences q (x ∷ xs) ≤ 1
unfolding occurrences
occurrences-cons q x xs once new = elim (Bool-cases (q == x)) [
  | inl e ↦
      let same : q ≡ x = (==_iff q x).0 e in
      elim (dec_lt 0 (occurrences q xs)) [
        | yes some_there ↦ absurd (new (rw (← same) (occurrences-In q xs some_there)))
        | no none_there ↦ ground arith
      ]
  | inr e ↦ ground arith
]

-- The second loop ends, and reaches the ranks at the doubled offsets that exist.
pub destinations_total :
    (fuel rank size d : ℕ)
    → size ≤ rank + d * 2 ^ fuel
    → (ps : List ℕ) × (destinations (suc fuel) rank size d ≡ some ps)
      × ((q : ℕ) → In q ps ↔ IsReached rank size d q)
      × (0 < d → (q : ℕ) → occurrences q ps ≤ 1)
destinations_total zero rank size d le = (
  [],
  destinations_stop 0 rank size d (omega arith),
  λ q. (λ a. absurd a, λ r. none-IsReached rank size d q (omega arith) r),
  λ h q. unfold occurrences in omega arith,
)
destinations_total (suc fuel) rank size d le = elim (dec_lt (rank + d) size) [
  | no p ↦ (
    [],
    destinations_stop (suc fuel) rank size d (omega arith),
    λ q. (λ a. absurd a, λ r. none-IsReached rank size d q (omega arith) r),
    λ h q. unfold occurrences in omega arith,
  )
  | yes p ↦
      let (ps, run, reach, once) =
        destinations_total fuel rank size (d * 2) (omega (arith, double_pow d fuel)) in
      (
        (rank + d) ∷ ps,
        destinations_go (suc fuel) rank size d ps p run,
        λ q.
            let step = IsReached-cons rank size d q p in
            (
              λ a. step.0 (elim a [ inl e ↦ inl e | inr m ↦ inr ((reach q).0 m) ]),
              λ r. elim (step.1 r) [ inl e ↦ inl e | inr m ↦ inr ((reach q).1 m) ],
            ),
        λ h q. occurrences-cons q (rank + d) ps (once (omega (arith, h)) q) (λ m.
            let (i, e, lt) = (reach (rank + d)).0 m in omega (arith, le-mul-pow (d * 2) i, h)),
      )
]
