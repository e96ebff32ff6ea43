-- ===== src/Collective/TopBit.antt =====
-- `flp2` of reprompi_collectives.c, the largest power of two below its argument, and the bit test
-- of the loop that it starts.
use Prim.Native.Nat.{bit_and, bit_or}
use native.Mathlib.Nat.{le-div_iff_mul-le, div-lt_iff_lt-mul, pow-le-pow_right}
use native.Mathlib.Decide.{dec_lt, dec_le}
use reprompi_dev.Prelude.{
  ℕ, suc, ◌+◌, ◌-◌, ◌*◌, ◌/◌, ◌%◌, ◌^◌, ◌≤◌, ◌<◌, ◌≡◌, refl, ap, arith, Bool, ◌==◌,
}
use reprompi_dev.Prelude.Bits.{
  pow-two_suc, pow-two_pos, pow-add, le-bit_or, bit_or-lt, bit_or-ge, bit_and-pow,
}

-- one line `n = (n | n >> j)`
unfoldable pub smear : ℕ → ℕ → ℕ
smear j n = bit_or n (n / 2 ^ j)

-- `unsigned int` is 32 bits wide; no operation here can leave that range, and the subtraction does
-- not wrap.
unfoldable pub flp2 : ℕ → ℕ
unfolding smear
flp2 n = let s = smear 16 (smear 8 (smear 4 (smear 2 (smear 1 n)))) in s - s / 2 ^ 1

-- The test `(n & bit) == bit`.
unfoldable pub has_bit : ℕ → ℕ → Bool
has_bit n bit = bit_and n bit == bit

pub has_bit-pow : (n k : ℕ) → has_bit n (2 ^ k) ≡ (n / 2 ^ k % 2 == 1)
unfolding has_bit
has_bit-pow n k = rw bit_and-pow (ground (arith, pow-two_pos k))

-- `n` has `k + 1` binary digits, of which the first `j` are ones.
record IsSmeared (k j n : ℕ) : Type 0 where
  upper : n < 2 ^ suc k
  lower : 2 ^ suc k ≤ n + 2 ^ (suc k - j)

-- The quotient of a number whose first digits are ones has them too, as far as it has digits.
smeared_quotient : (j m n : ℕ) → 2 ^ j * 2 ^ m ≤ n + 2 ^ m → 2 ^ m ≤ n / 2 ^ j + 2 ^ (m - j)
smeared_quotient j m n h = elim (dec_le j m) [
  | yes p ↦
      omega
        (arith, (le-div_iff_mul-le {x = 2 ^ m - 2 ^ (m - j)} {y = n} (pow-two_pos j)).1 (fits p))
  | no p ↦
      omega (arith, (le-div_iff_mul-le {x = 2 ^ m - 1} {y = n} (pow-two_pos j)).1 (tight p), one p)
]
  where
    fits : j ≤ m → (2 ^ m - 2 ^ (m - j)) * 2 ^ j ≤ n
    fits p =
        let e : j + (m - j) ≡ m = omega arith in
        let split : 2 ^ m ≡ 2 ^ j * 2 ^ (m - j) = rw e at (pow-add j (m - j)) in
        let smaller : 2 ^ (m - j) ≤ 2 ^ m = pow-le-pow_right (omega arith) (omega arith) in
        let parts : 2 ^ m ≡ (2 ^ m - 2 ^ (m - j)) + 2 ^ (m - j) = omega (arith, smaller) in
        omega (arith, split, ap (λ (t : ℕ). 2 ^ j * t) parts)

    one : ¬ (j ≤ m) → 2 ^ (m - j) ≡ 1
    one p = let e : m - j ≡ 0 = omega arith in rw e

    tight : ¬ (j ≤ m) → (2 ^ m - 1) * 2 ^ j ≤ n
    tight p =
        let larger : 2 ^ m ≤ 2 ^ j = pow-le-pow_right (omega arith) (omega arith) in
        let parts : 2 ^ m ≡ (2 ^ m - 1) + 1 = omega (arith, pow-two_pos m) in
        omega (arith, larger, ap (λ (t : ℕ). 2 ^ j * t) parts)

smear-IsSmeared : (k j n : ℕ) → IsSmeared k j n → IsSmeared k (j + j) (smear j n)
unfolding smear
smear-IsSmeared k j n s = record {
  upper = upper;
  lower = elim (dec_lt j (suc k)) [ yes h ↦ short h | no h ↦ long h ];
}
  where
    b : ℕ
    b = n / 2 ^ j

    b-le : b ≤ n
    b-le = grind (arith, pow-two_pos j)

    upper : bit_or n b < 2 ^ suc k
    upper = bit_or-lt (suc k) n b s.upper (omega (arith, b-le, s.upper))

    long : ¬ (j < suc k) → 2 ^ suc k ≤ bit_or n b + 2 ^ (suc k - (j + j))
    long h =
        let e : suc k - j ≡ 0 = omega arith in
        omega (arith, le-bit_or n b, pow-two_pos (suc k - (j + j)), rw e at s.lower)

    short : j < suc k → 2 ^ suc k ≤ bit_or n b + 2 ^ (suc k - (j + j))
    short h =
        let m = suc k - j in
        let e : j + m ≡ suc k = omega arith in
        let split : 2 ^ suc k ≡ 2 ^ j * 2 ^ m = rw e at (pow-add j m) in
        let ones : 2 ^ j ≡ suc (2 ^ j - 1) = omega (arith, pow-two_pos j) in
        let product : 2 ^ j * 2 ^ m ≡ (2 ^ j - 1) * 2 ^ m + 2 ^ m =
          omega (arith, ap (λ (t : ℕ). t * 2 ^ m) ones) in
        let or =
          bit_or-ge m (2 ^ j - 1) n b (omega (arith, split, product, s.lower))
            ((div-lt_iff_lt-mul (pow-two_pos j)).1 (omega (arith, split, s.upper))) in
        let quotient = smeared_quotient j m n (omega (arith, split, s.lower)) in
        let steps : suc k - (j + j) ≡ m - j = omega arith in
        rw steps (omega (arith, split, product, or, quotient))

-- `flp2` is the highest power of two that does not exceed its argument, for every non-zero 32-bit
-- argument.
pub flp2-pow : (n k : ℕ) → 2 ^ k ≤ n → n < 2 ^ suc k → k < 32 → flp2 n ≡ 2 ^ k
unfolding flp2
flp2-pow n k lo hi small =
    let one_less : suc k - 1 ≡ k = omega arith in
    let start : IsSmeared k 1 n = record {
      upper = hi;
      lower = rw one_less (omega (arith, pow-two_suc k));
    } in
    let ones = smear-IsSmeared k 16 _ (
      smear-IsSmeared k 8 _
        (smear-IsSmeared k 4 _ (smear-IsSmeared k 2 _ (smear-IsSmeared k 1 n start)))) in
    let none_left : suc k - 32 ≡ 0 = omega arith in
    let last : 2 ^ (suc k - 32) ≡ 1 = rw none_left in
    omega (arith, ones.upper, ones.lower, last, pow-two_suc k)

-- `flp2 0` is 0, so that the loop over the bits of 0 does not run.
pub flp2-zero : flp2 0 ≡ 0
unfolding flp2
flp2-zero = refl
