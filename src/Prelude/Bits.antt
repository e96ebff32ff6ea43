-- ===== src/Prelude/Bits.antt =====
-- Laws of `bit_and` and `bit_or` at variables, from the digit recursion that the native operations
-- stand for.
use Prim.Native.Nat.{min, max, bit_and, bit_or, digits, bitwise, bit_and-bitwise, bit_or-bitwise}
use native.Mathlib.Nat.{pow-suc, div-div-eq-div-mul}
use native.Mathlib.Decide.{dec_lt}
use reprompi_dev.Prelude.{
  ℕ, zero, suc, ◌+◌, ◌*◌, ◌/◌, ◌%◌, ◌^◌, ◌≤◌, ◌<◌, ◌≡◌, refl, ap, ◌∙◌, arith,
}

-- The recursion on digits has more fuel than it needs.
module _ (z : ℕ → ℕ) (f : ℕ → ℕ → ℕ) where
  spare_fuel : (n a b : ℕ) → a ≤ n → digits z f (suc n) a b ≡ digits z f n a b
  spare_fuel zero zero b h = refl
  spare_fuel (suc n) zero b h = refl
  spare_fuel zero (suc a) b h = absurd (omega arith)
  spare_fuel (suc n) (suc a) b h =
      ap (λ t. t * 2 + f (suc a % 2) (b % 2)) (spare_fuel n (suc a / 2) (b / 2) (omega arith))

  digits-bitwise : (n a b : ℕ) → a ≤ n → digits z f n a b ≡ bitwise z f a b
  digits-bitwise zero a b h =
      let none_left : 0 ≡ a = omega arith in ap (λ t. digits z f t a b) none_left
  digits-bitwise (suc n) a b h = elim (dec_lt n a) [
    | yes p ↦ let full : suc n ≡ a = omega arith in ap (λ t. digits z f t a b) full
    | no p ↦ spare_fuel n a b (omega arith) ∙ digits-bitwise n a b (omega arith)
  ]

  lowest_digit :
      (a b : ℕ)
      → bitwise z f (suc a) b ≡ f (suc a % 2) (b % 2) + 2 * bitwise z f (suc a / 2) (b / 2)
  lowest_digit a b = omega (arith, digits-bitwise a (suc a / 2) (b / 2) (omega arith))

pub bit_or_step : (a b : ℕ) → bit_or a b ≡ max (a % 2) (b % 2) + 2 * bit_or (a / 2) (b / 2)
bit_or_step a b = rw (bit_or-bitwise a b, bit_or-bitwise (a / 2) (b / 2)) (by_digits a b)
  where
    by_digits :
        (a b : ℕ)
        → bitwise (λ y. y) max a b ≡ max (a % 2) (b % 2) + 2 * bitwise (λ y. y) max (a / 2) (b / 2)
    by_digits zero b = omega arith
    by_digits (suc a) b = lowest_digit (λ y. y) max a b

pub bit_and_step : (a b : ℕ) → bit_and a b ≡ min (a % 2) (b % 2) + 2 * bit_and (a / 2) (b / 2)
bit_and_step a b = rw (bit_and-bitwise a b, bit_and-bitwise (a / 2) (b / 2)) (by_digits a b)
  where
    by_digits :
        (a b : ℕ)
        → bitwise (λ y. 0) min a b ≡ min (a % 2) (b % 2) + 2 * bitwise (λ y. 0) min (a / 2) (b / 2)
    by_digits zero b = omega arith
    by_digits (suc a) b = lowest_digit (λ y. 0) min a b

pub pow-two_suc : (k : ℕ) → 2 ^ suc k ≡ 2 * 2 ^ k
pow-two_suc k = omega (arith, pow-suc 2 k)

pub pow-two_pos : (k : ℕ) → 0 < 2 ^ k
pow-two_pos zero = omega arith
pow-two_pos (suc k) = omega (arith, pow-two_suc k, pow-two_pos k)

digits_zero : (n a : ℕ) → digits (λ y. 0) min n a 0 ≡ 0
digits_zero zero a = refl
digits_zero (suc n) zero = refl
digits_zero (suc n) (suc a) = omega (arith, digits_zero n (suc a / 2))

le-bit_or_fuel : (n a b : ℕ) → a ≤ n → a ≤ bit_or a b
le-bit_or_fuel n zero b h = omega arith
le-bit_or_fuel zero (suc a) b h = absurd (omega arith)
le-bit_or_fuel (suc n) (suc a) b h =
    omega (arith, bit_or_step (suc a) b, le-bit_or_fuel n (suc a / 2) (b / 2) (omega arith))

pub le-bit_or : (a b : ℕ) → a ≤ bit_or a b
le-bit_or a b = le-bit_or_fuel a a b (omega arith)

pub pow-add : (a b : ℕ) → 2 ^ (a + b) ≡ 2 ^ a * 2 ^ b
pow-add zero b = rw (let e : 0 + b ≡ b = omega arith in e) (omega arith)
pow-add (suc a) b =
    let e : suc a + b ≡ suc (a + b) = omega arith in
    rw (e, pow-two_suc (a + b), pow-two_suc a, pow-add a b) (omega arith)

-- An or stays below a power of two that bounds both arguments.
pub bit_or-lt : (k a b : ℕ) → a < 2 ^ k → b < 2 ^ k → bit_or a b < 2 ^ k
bit_or-lt zero a b p q =
    let ea : a ≡ 0 = omega arith in let eb : b ≡ 0 = omega arith in rw (ea, eb) (omega arith)
bit_or-lt (suc k) a b p q =
    let ih =
      bit_or-lt k (a / 2) (b / 2) (omega (arith, pow-two_suc k)) (omega (arith, pow-two_suc k)) in
    omega (arith, pow-two_suc k, bit_or_step a b, ih)

-- An or keeps what the first argument has from a power of two on, and all of a smaller second one.
pub bit_or-ge : (m A a b : ℕ) → A * 2 ^ m ≤ a → b < 2 ^ m → A * 2 ^ m + b ≤ bit_or a b
bit_or-ge zero A a b p q = omega (arith, le-bit_or_fuel a a b (omega arith))
bit_or-ge (suc m) A a b p q =
    let p' : 2 * (A * 2 ^ m) ≤ a = omega (arith, ap (λ (t : ℕ). A * t) (pow-two_suc m)) in
    let ih = bit_or-ge m A (a / 2) (b / 2) (omega arith) (omega (arith, pow-two_suc m)) in
    omega (arith, ap (λ (t : ℕ). A * t) (pow-two_suc m), bit_or_step a b, ih)

pub div-two_pow : (k n : ℕ) → n / 2 ^ suc k ≡ n / 2 / 2 ^ k
div-two_pow k n = rw (pow-two_suc k, div-div-eq-div-mul) refl

-- A single bit of a number.
pub bit_and-pow : (k n : ℕ) → bit_and n (2 ^ k) ≡ n / 2 ^ k % 2 * 2 ^ k
bit_and-pow zero n =
    omega (arith, bit_and_step n 1, bit_and-bitwise (n / 2) 0, digits_zero (n / 2) (n / 2))
bit_and-pow (suc k) n =
    let half : 2 ^ suc k / 2 ≡ 2 ^ k = omega (arith, pow-two_suc k) in
    let even : 2 ^ suc k % 2 ≡ 0 = omega (arith, pow-two_suc k) in
    rw
      (
        bit_and_step n (2 ^ suc k),
        half,
        even,
        bit_and-pow k (n / 2),
        div-two_pow k n,
        pow-two_suc k,
      )
      (omega arith)

-- The highest bit of a number.
pub top_bit : (w n : ℕ) → 0 < n → n < 2 ^ w → (k : ℕ) × (2 ^ k ≤ n) × (n < 2 ^ suc k) × (k < w)
top_bit zero n pos h = absurd (omega arith)
top_bit (suc w) n pos h = elim (dec_lt n (2 ^ w)) [
  | yes p ↦ let (k, lo, hi, lt) = top_bit w n pos p in (k, lo, hi, omega arith)
  | no p ↦ (w, omega arith, h, omega arith)
]
