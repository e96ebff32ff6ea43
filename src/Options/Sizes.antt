-- ===== src/Options/Sizes.antt =====
-- The message sizes of the option --msize-interval, `parse_msize_interval` of
-- src/reprompi_bench/option_parser/parse_common_options.c.
use mathlib.Core.Option.{none-ne-some, some-injective}
use native.Mathlib.Nat.{div-le_self, add-div_right, le-div_iff_mul-le, lt-div-mul-add}
use reprompi_dev.Prelude.{
  ℕ, zero, suc, ◌+◌, ◌-◌, ◌*◌, ◌/◌, ◌^◌, ◌<◌, ◌≤◌, ◌≡◌, refl, ap, ap₂, sym, ◌∙◌, true, false,
  Option, none, some, ◌>>=◌, >>=-eq-some, List, [], ◌∷◌, ◌++◌, length, set, replicate, tabulate,
  tabulate_snoc, set-append, snoc-append, append_nil, length-append, length-tabulate, ltb, leb, inl,
  inr, Bool-cases, if◌then◌else◌, arith,
}
use reprompi_dev.Prelude.Int.{ℤ, pos, negsuc}
use reprompi_dev.Options.{positive}

-- a sub-option that getsubopt finds, with its number
pub data SubOption : Type 0 where
  min_option : Option ℤ → SubOption
  max_option : Option ℤ → SubOption
  step_option : Option ℤ → SubOption
  unknown_option : SubOption

pub record Interval : Type 0 where
  pub lower : ℕ
  pub upper : ℕ
  pub step : ℕ

-- the loop over the sub-options
unfoldable pub read_interval : List SubOption → Interval → Option Interval
read_interval [] v = some v
read_interval (min_option number ∷ rest) v = do
  n ← positive number
  read_interval rest (record v { lower = n })
read_interval (max_option number ∷ rest) v = do
  n ← positive number
  read_interval rest (record v { upper = n })
read_interval (step_option number ∷ rest) v = do
  n ← positive number
  read_interval rest (record v { step = n })
read_interval (unknown_option ∷ rest) v = none

-- `1 << i` on `int`, whose value is not defined from 31 on
unfoldable pub shift_one : ℕ → Option ℕ
shift_one i = if ltb i 31 then some (2 ^ i) else none

-- a sum of two `long`s, whose value is not defined from 2 ^ 63 on
unfoldable pub add_long : ℕ → ℕ → Option ℕ
add_long a b = if ltb (a + b) (2 ^ 63) then some (a + b) else none

-- The loop that fills the array, on fuel; a write out of bounds is `none`.
unfoldable pub fill_sizes : ℕ → Interval → ℕ → ℕ → List ℕ → Option (List ℕ)
fill_sizes zero v i index sizes = none
fill_sizes (suc fuel) v i index sizes = elim (leb i v.upper) [
  | false ↦ some sizes
  | true ↦ shift_one i >>= (λ s. elim (ltb index (length sizes)) [
    | false ↦ none
    | true ↦ elim (add_long i v.step) [
      | none ↦ none
      | some next ↦ fill_sizes fuel v next (index + 1) (set sizes index s)
    ]
  ])
]

-- `n_msize`
unfoldable pub n_msize : Interval → Option ℕ
n_msize v = do sum ← add_long (v.upper - v.lower) v.step; some (sum / v.step)

-- `parse_msize_interval`, with the numbers as they are before the loop
unfoldable pub parse_msize_interval : List SubOption → Option (List ℕ)
parse_msize_interval subopts = do
  v ← read_interval subopts (record { lower = 0; upper = 0; step = 1 })
  if leb v.lower v.upper
      then (do n ← n_msize v; fill_sizes (v.upper - v.lower + 2) v v.lower 0 (replicate n 0))
      else none

-- How often the loop runs
abbrev entries : Interval → ℕ
entries v = (v.upper - v.lower + v.step) / v.step

fill_sizes_stop :
    (fuel : ℕ) (v : Interval) (i index : ℕ) (sizes : List ℕ)
    → v.upper < i
    → fill_sizes (suc fuel) v i index sizes ≡ some sizes
unfolding fill_sizes
fill_sizes_stop fuel v i index sizes h = ground arith

fill_sizes_write :
    (fuel : ℕ) (v : Interval) (i index : ℕ) (sizes : List ℕ)
    → i ≤ v.upper
    → i < 31
    → index < length sizes
    → i + v.step < 2 ^ 63
    → fill_sizes (suc fuel) v i index sizes
      ≡ fill_sizes fuel v (i + v.step) (index + 1) (set sizes index (2 ^ i))
unfolding fill_sizes shift_one add_long
fill_sizes_write fuel v i index sizes a b c e = ground arith

-- A step that leaves `long` has no value.
fill_sizes_overflow :
    (fuel : ℕ) (v : Interval) (i index : ℕ) (sizes : List ℕ)
    → i ≤ v.upper
    → 2 ^ 63 ≤ i + v.step
    → fill_sizes (suc fuel) v i index sizes ≡ none
unfolding fill_sizes shift_one add_long
fill_sizes_overflow fuel v i index sizes a e = ground arith

-- A step that is larger than the interval leaves one entry.
pub fill_sizes_one :
    (fuel : ℕ) (v : Interval) (sizes : List ℕ)
    → v.lower ≤ v.upper
    → v.upper < 31
    → v.upper < v.step
    → fill_sizes (suc (suc fuel)) v v.lower 0 (0 ∷ []) ≡ some sizes
    → sizes ≡ 2 ^ v.lower ∷ []
fill_sizes_one fuel v sizes ordered small wide h =
    elim (Bool-cases (ltb (v.lower + v.step) (2 ^ 63))) [
      | inl fits ↦
          let written : fill_sizes (suc (suc fuel)) v v.lower 0 (0 ∷ [])
              ≡ fill_sizes (suc fuel) v (v.lower + v.step) 1 (2 ^ v.lower ∷ []) =
            fill_sizes_write (suc fuel) v v.lower 0 (0 ∷ []) ordered (omega arith) (omega arith)
              (ground arith) in
          let stopped =
            fill_sizes_stop fuel v (v.lower + v.step) 1 (2 ^ v.lower ∷ []) (omega arith) in
          some-injective _ _ (sym h ∙ written ∙ stopped)
      | inr out ↦ absurd (
          none-ne-some sizes
            (sym (fill_sizes_overflow (suc fuel) v v.lower 0 (0 ∷ []) ordered (ground arith)) ∙ h))
    ]

module _ (v : Interval) (step_pos : 0 < v.step) (ordered : v.lower ≤ v.upper) (small : v.upper < 31)
    (in_long : v.upper + v.step < 2 ^ 63) where
  abbrev size_at : ℕ → ℕ
  size_at k = 2 ^ (v.lower + k * v.step)

  -- The index is below the size of the array exactly as long as the loop runs.
  runs : (k : ℕ) → k < entries v → v.lower + k * v.step ≤ v.upper
  runs k h =
      let one_more : entries v ≡ (v.upper - v.lower) / v.step + 1 =
        add-div_right (v.upper - v.lower) step_pos in
      let inside : k ≤ (v.upper - v.lower) / v.step = omega arith in
      let product : k * v.step ≤ v.upper - v.lower = (le-div_iff_mul-le step_pos).0 inside in
      omega arith

  ends : v.upper < v.lower + entries v * v.step
  ends =
      let one_more : entries v ≡ (v.upper - v.lower) / v.step + 1 =
        add-div_right (v.upper - v.lower) step_pos in
      let last : v.upper - v.lower < (v.upper - v.lower) / v.step * v.step + v.step =
        lt-div-mul-add step_pos in
      rw one_more (omega arith)

  written :
      (k r : ℕ)
      → set (tabulate size_at k 0 ++ 0 ∷ replicate r 0) k (size_at k)
        ≡ tabulate size_at (k + 1) 0 ++ replicate r 0
  written k r =
      let filled : length (tabulate size_at k 0) ≡ k = length-tabulate size_at k 0 in
      let plus_one : k + 1 ≡ suc k = omega arith in
      let from_zero : 0 + k ≡ k = omega arith in
      let grown : tabulate size_at (k + 1) 0 ≡ tabulate size_at k 0 ++ size_at k ∷ [] =
        ap (λ n. tabulate size_at n 0) plus_one
        ∙ tabulate_snoc size_at k 0
        ∙ ap (λ n. tabulate size_at k 0 ++ size_at n ∷ []) from_zero in
      ap (λ n. set (tabulate size_at k 0 ++ 0 ∷ replicate r 0) n (size_at k)) (sym filled)
      ∙ set-append (tabulate size_at k 0) 0 (size_at k) (replicate r 0)
      ∙ snoc-append (tabulate size_at k 0) (size_at k) (replicate r 0)
      ∙ ap (λ xs. xs ++ replicate r 0) (sym grown)

  fill_from :
      (fuel k r : ℕ)
      → k + r ≡ entries v
      → r < fuel
      → fill_sizes fuel v (v.lower + k * v.step) k (tabulate size_at k 0 ++ replicate r 0)
        ≡ some (tabulate size_at (k + r) 0)
  unfolding fill_sizes shift_one
  fill_from zero k r total enough = absurd (omega arith)
  fill_from (suc fuel) k zero total enough =
      let all : k ≡ entries v = omega arith in
      let past : v.upper < v.lower + k * v.step = rw all ends in
      let same : k + 0 ≡ k = omega arith in
      fill_sizes_stop fuel v (v.lower + k * v.step) k (tabulate size_at k 0 ++ []) past
      ∙ rw (same, append_nil (tabulate size_at k 0)) refl
  fill_from (suc fuel) k (suc r) total enough =
      let running : v.lower + k * v.step ≤ v.upper = runs k (omega arith) in
      let room : k < length (tabulate size_at k 0 ++ 0 ∷ replicate r 0) = omega (
        arith,
        length-append (tabulate size_at k 0) (0 ∷ replicate r 0),
        length-tabulate size_at k 0,
      ) in
      let next : v.lower + k * v.step + v.step ≡ v.lower + (k + 1) * v.step = omega arith in
      let total_left : k + 1 + r ≡ k + suc r = omega arith in
      fill_sizes_write fuel v (v.lower + k * v.step) k (tabulate size_at k 0 ++ 0 ∷ replicate r 0)
        running (omega arith) room (omega (arith, running, in_long))
      ∙ ap₂ (λ i xs. fill_sizes fuel v i (k + 1) xs) next (written k r)
      ∙ fill_from fuel (k + 1) r (omega arith) (omega arith)
      ∙ ap (λ n. some (tabulate size_at n 0)) total_left

pub positive_lem : (number : Option ℤ) (n : ℕ) → positive number ≡ some n → 0 < n
unfolding positive
positive_lem none n h = absurd (none-ne-some n h)
positive_lem (some (negsuc k)) n h = absurd (none-ne-some n h)
positive_lem (some (pos k)) n h = ground arith

pub read_interval_step :
    (subopts : List SubOption) (v v' : Interval)
    → 0 < v.step
    → read_interval subopts v ≡ some v'
    → 0 < v'.step
unfolding read_interval
read_interval_step [] v v' h e = let same : v ≡ v' = some-injective _ _ e in rw (← same) h
read_interval_step (min_option number ∷ rest) v v' h e =
    let (n, found, e') =
      >>=-eq-some (positive number) (λ n. read_interval rest (record v { lower = n })) v' e in
    read_interval_step rest (record v { lower = n }) v' h e'
read_interval_step (max_option number ∷ rest) v v' h e =
    let (n, found, e') =
      >>=-eq-some (positive number) (λ n. read_interval rest (record v { upper = n })) v' e in
    read_interval_step rest (record v { upper = n }) v' h e'
read_interval_step (step_option number ∷ rest) v v' h e =
    let (n, found, e') =
      >>=-eq-some (positive number) (λ n. read_interval rest (record v { step = n })) v' e in
    read_interval_step rest (record v { step = n }) v' (positive_lem number n found) e'
read_interval_step (unknown_option ∷ rest) v v' h e = absurd (none-ne-some v' e)

add_long_lem : (a b : ℕ) → a + b < 2 ^ 63 → add_long a b ≡ some (a + b)
unfolding add_long
add_long_lem a b h = ground arith

pub add_long-sum : (a b c : ℕ) → add_long a b ≡ some c → c ≡ a + b
unfolding add_long
add_long-sum a b c h = ground arith

-- Whatever sub-options are given in whatever order: when they are accepted with a smallest exponent
-- that is at most the largest, the largest is below 31, and with the step it is below 2 ^ 63, the
-- loop ends, it writes exactly the allocated entries and none outside, one for each step that fits
-- between the exponents and one more, and entry `k` is two to the power of the smallest exponent
-- plus `k` steps.
pub parse_msize_interval_lem :
    (subopts : List SubOption) (v : Interval)
    → read_interval subopts (record { lower = 0; upper = 0; step = 1 }) ≡ some v
    → v.lower ≤ v.upper
    → v.upper < 31
    → v.upper + v.step < 2 ^ 63
    → parse_msize_interval subopts
      ≡ some (tabulate (λ k. 2 ^ (v.lower + k * v.step)) ((v.upper - v.lower) / v.step + 1) 0)
unfolding parse_msize_interval n_msize
parse_msize_interval_lem subopts v read ordered small in_long =
    let accepted : leb v.lower v.upper ≡ true = ground arith in
    let step_pos : 0 < v.step = read_interval_step subopts _ v (omega arith) read in
    let one_more : entries v ≡ (v.upper - v.lower) / v.step + 1 =
      add-div_right (v.upper - v.lower) step_pos in
    let few : entries v < v.upper - v.lower + 2 =
      omega (arith, div-le_self (v.upper - v.lower) v.step) in
    let first : v.lower + 0 * v.step ≡ v.lower = omega arith in
    let whole : 0 + entries v ≡ entries v = omega arith in
    rw (read, accepted, add_long_lem (v.upper - v.lower) v.step (omega arith))
      (ap (λ i. fill_sizes (v.upper - v.lower + 2) v i 0 (replicate (entries v) 0)) (sym first)
        ∙ fill_from v step_pos ordered small in_long (v.upper - v.lower + 2) 0 (entries v) whole few
        ∙ ap (λ n. some (tabulate (λ k. 2 ^ (v.lower + k * v.step)) n 0)) (whole ∙ one_more))
