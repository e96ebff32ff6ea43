-- ===== src/Options/Common/Checked.antt =====
-- What the options that src/reprompi_bench/option_parser/parse_common_options.c accepts are.
use Prim.{Unit, tt}
use mathlib.Core.Option.{none-ne-some, some-injective}
use native.Mathlib.Nat.{add-div_right, div-eq_of_lt}
use reprompi_dev.Prelude.{
  ℕ, zero, suc, ◌+◌, ◌*◌, ◌^◌, ◌<◌, ◌≤◌, ◌/◌, ◌>>=◌, ◌≡◌, refl, ap₂, sym, ltb, inl, inr, Bool-cases,
  ◌∙◌, Bool, true, false, Option, none, some, >>=-eq-some, List, [], ◌∷◌, ◌-◌, replicate, tabulate,
  All, leb, leb→le, if◌then◌else◌, arith,
}
use reprompi_dev.Prelude.Int.{ℤ, negsuc, eqb_ℤ}
use reprompi_dev.Buffers.Fit.{IsPeer}
use reprompi_dev.Options.{read_ranks, two_different, parse_pingpong_ranks}
use reprompi_dev.Options.Ranks.{ArePeers, read_ranks_lem, two_different_lem}
use reprompi_dev.Options.Sizes.{
  SubOption, Interval, read_interval, parse_msize_interval, parse_msize_interval_lem, n_msize,
  fill_sizes, fill_sizes_one, add_long, add_long-sum,
}
use reprompi_dev.Options.Common.{
  Common, n_mpi_calls, parse_call_list, parse_msize_list, parse_operation, parse_datatype,
  CommonFlag, input_file_flag, calls_list, msizes_list, msize_interval, root_proc_flag,
  operation_flag, datatype_flag, shuffle_jobs, output_file_flag, pingpong_ranks_flag, other_flag,
  parse_common_flag, parse_common_flags,
}
use reprompi_dev.Options.Common.Listed.{parse_call_list-All, parse_msize_list-All}

-- The ranks of a ping-pong are not set, or they are two different processes.
pub data ArePingpongRanks (nprocs : ℕ) (ranks : ℤ × ℤ) : Type 0 where
  not_set : ranks ≡ (negsuc 0, negsuc 0) → ArePingpongRanks nprocs ranks
  two_peers :
      IsPeer ranks.0 nprocs
      → IsPeer ranks.1 nprocs
      → eqb_ℤ ranks.0 ranks.1 ≡ false
      → ArePingpongRanks nprocs ranks

-- Calls of the table, sizes that are not zero, and ranks as above
pub record IsInRange (nprocs : ℕ) (o : Common) : Type 0 where
  pub known_calls : All (λ i. i < n_mpi_calls) o.list_mpi_calls
  pub positive_sizes : All (λ s. 0 < s) o.msize_list
  pub ranks : ArePingpongRanks nprocs o.pingpong_ranks

-- The exponents of an interval of message sizes are below 31, where `1 << i` is defined.
unfoldable pub HasSmallExponents : CommonFlag → Type 0
HasSmallExponents (msize_interval subopts) =
    (v : Interval)
    → read_interval subopts (record { lower = 0; upper = 0; step = 1 }) ≡ some v
    → v.upper < 31
HasSmallExponents _ = Unit {0}

-- A test that lets a result through
pub if_else_none :
    {A : Type 0} (t : Bool) (x : Option A) (y : A)
    → (if t then x else none) ≡ some y
    → (t ≡ true) × (x ≡ some y)
if_else_none true x y h = (refl, h)
if_else_none false x y h = absurd (none-ne-some y h)

pub if_then_none :
    {A : Type 0} (t : Bool) (x : Option A) (y : A)
    → (if t then none else x) ≡ some y
    → (t ≡ false) × (x ≡ some y)
if_then_none true x y h = absurd (none-ne-some y h)
if_then_none false x y h = (refl, h)

pow_pos : (n : ℕ) → 0 < 2 ^ n
pow_pos zero = omega arith
pow_pos (suc n) = omega (arith, pow_pos n)

tabulate-All :
    (P : ℕ → Type 0) (f : ℕ → ℕ) → ((i : ℕ) → P (f i)) → (n index : ℕ) → All P (tabulate f n index)
tabulate-All P f h zero index = tt
tabulate-All P f h (suc n) index = (h index, tabulate-All P f h n (index + 1))

-- A step that leaves `long` is larger than the interval.
wide_interval :
    (v : Interval) (sizes : List ℕ)
    → v.lower ≤ v.upper
    → v.upper < 31
    → 2 ^ 63 ≤ v.upper + v.step
    → (n_msize v >>= (λ n. fill_sizes (v.upper - v.lower + 2) v v.lower 0 (replicate n 0)))
      ≡ some sizes
    → All (λ s. 0 < s) sizes
unfolding n_msize
wide_interval v sizes ordered small out h =
    let (n, made, filled) = >>=-eq-some (n_msize v) _ sizes h in
    let (span, summed, divided) = >>=-eq-some (add_long (v.upper - v.lower) v.step) _ n made in
    let whole : span ≡ v.upper - v.lower + v.step =
      add_long-sum (v.upper - v.lower) v.step span summed in
    let none_left : (v.upper - v.lower) / v.step ≡ 0 = div-eq_of_lt (omega arith) in
    let large : 0 < v.step = omega arith in
    let ratio : span / v.step ≡ 1 =
      rw (whole, add-div_right (v.upper - v.lower) large, none_left) refl in
    let one : n ≡ 1 = sym (some-injective (span / v.step) n divided) ∙ ratio in
    let fuel : v.upper - v.lower + 2 ≡ suc (suc (v.upper - v.lower)) = omega arith in
    let again : fill_sizes (suc (suc (v.upper - v.lower))) v v.lower 0 (replicate 1 0)
        ≡ some sizes =
      sym (ap₂ (λ f k. fill_sizes f v v.lower 0 (replicate k 0)) fuel one) ∙ filled in
    rw (fill_sizes_one (v.upper - v.lower) v sizes ordered small (omega arith) again)
      (pow_pos v.lower, tt)

parse_msize_interval-All :
    (subopts : List SubOption) (sizes : List ℕ)
    → ((v : Interval)
        → read_interval subopts (record { lower = 0; upper = 0; step = 1 }) ≡ some v
        → v.upper < 31)
    → parse_msize_interval subopts ≡ some sizes
    → All (λ s. 0 < s) sizes
unfolding parse_msize_interval
parse_msize_interval-All subopts sizes small h =
    let (v, read, filled) =
      >>=-eq-some (read_interval subopts (record { lower = 0; upper = 0; step = 1 })) _ sizes h in
    let (ordered, rest) = if_else_none (leb v.lower v.upper) _ sizes filled in
    let order = leb→le v.lower v.upper ordered in
    elim (Bool-cases (ltb (v.upper + v.step) (2 ^ 63))) [
      | inl fits ↦
          let known = parse_msize_interval_lem subopts v read order (small v read) (ground arith) in
          let made : parse_msize_interval subopts ≡ some sizes = h in
          rw (← some-injective _ sizes (sym known ∙ made)) (
            tabulate-All (λ s. 0 < s) (λ k. 2 ^ (v.lower + k * v.step))
              (λ k. pow_pos (v.lower + k * v.step)) ((v.upper - v.lower) / v.step + 1) 0)
      | inr out ↦ wide_interval v sizes order (small v read) (ground arith) rest
    ]

parse_pingpong_ranks_lem :
    (nprocs : ℕ) (tokens : List (Option ℤ)) (ranks : ℤ × ℤ)
    → parse_pingpong_ranks nprocs tokens ≡ some ranks
    → ArePingpongRanks nprocs ranks
unfolding parse_pingpong_ranks
parse_pingpong_ranks_lem nprocs tokens (a, b) h =
    let (read, found, different) =
      >>=-eq-some (read_ranks nprocs tokens []) two_different (a, b) h in
    let (src, dst, apart) =
      two_different_lem read a b nprocs
        (read_ranks_lem nprocs tokens [] read (unfold ArePeers in tt) found) different in
    two_peers src dst apart

-- One option keeps what is in range.
parse_common_flag-IsInRange :
    (nprocs : ℕ) (f : CommonFlag) (o o' : Common)
    → HasSmallExponents f
    → IsInRange nprocs o
    → parse_common_flag nprocs f o ≡ some o'
    → IsInRange nprocs o'
unfolding parse_common_flag HasSmallExponents
parse_common_flag-IsInRange nprocs (input_file_flag f) o o' small r h =
    rw (← some-injective _ o' h)
      (record { known_calls = r.known_calls; positive_sizes = r.positive_sizes; ranks = r.ranks })
parse_common_flag-IsInRange nprocs (calls_list indices) o o' small r h =
    let (calls, read, e) =
      >>=-eq-some (parse_call_list indices) (λ calls. some (record o { list_mpi_calls = calls })) o'
        h in
    rw (← some-injective _ o' e) (record {
      known_calls = parse_call_list-All indices calls read;
      positive_sizes = r.positive_sizes;
      ranks = r.ranks;
    })
parse_common_flag-IsInRange nprocs (msizes_list tokens) o o' small r h =
    let (sizes, read, e) =
      >>=-eq-some (parse_msize_list tokens) (λ sizes. some (record o { msize_list = sizes })) o'
        h in
    rw (← some-injective _ o' e) (record {
      known_calls = r.known_calls;
      positive_sizes = parse_msize_list-All tokens sizes read;
      ranks = r.ranks;
    })
parse_common_flag-IsInRange nprocs (msize_interval subopts) o o' small r h =
    let (sizes, read, e) =
      >>=-eq-some (parse_msize_interval subopts) (λ sizes. some (record o { msize_list = sizes }))
        o' h in
    rw (← some-injective _ o' e) (record {
      known_calls = r.known_calls;
      positive_sizes = parse_msize_interval-All subopts sizes small read;
      ranks = r.ranks;
    })
parse_common_flag-IsInRange nprocs (pingpong_ranks_flag tokens) o o' small r h =
    let (ranks, read, e) =
      >>=-eq-some (parse_pingpong_ranks nprocs tokens)
        (λ ranks. some (record o { pingpong_ranks = ranks })) o' h in
    rw (← some-injective _ o' e) (record {
      known_calls = r.known_calls;
      positive_sizes = r.positive_sizes;
      ranks = parse_pingpong_ranks_lem nprocs tokens ranks read;
    })
parse_common_flag-IsInRange nprocs (root_proc_flag root) o o' small r h =
    rw (← some-injective _ o' h)
      (record { known_calls = r.known_calls; positive_sizes = r.positive_sizes; ranks = r.ranks })
parse_common_flag-IsInRange nprocs (operation_flag arg) o o' small r h =
    let (op, read, e) =
      >>=-eq-some (parse_operation arg) (λ op. some (record o { operation = op })) o' h in
    rw (← some-injective _ o' e)
      (record { known_calls = r.known_calls; positive_sizes = r.positive_sizes; ranks = r.ranks })
parse_common_flag-IsInRange nprocs (datatype_flag arg) o o' small r h =
    let (d, read, e) =
      >>=-eq-some (parse_datatype arg) (λ d. some (record o { datatype = d })) o' h in
    rw (← some-injective _ o' e)
      (record { known_calls = r.known_calls; positive_sizes = r.positive_sizes; ranks = r.ranks })
parse_common_flag-IsInRange nprocs shuffle_jobs o o' small r h =
    rw (← some-injective _ o' h)
      (record { known_calls = r.known_calls; positive_sizes = r.positive_sizes; ranks = r.ranks })
parse_common_flag-IsInRange nprocs (output_file_flag f) o o' small r h =
    rw (← some-injective _ o' h)
      (record { known_calls = r.known_calls; positive_sizes = r.positive_sizes; ranks = r.ranks })
parse_common_flag-IsInRange nprocs other_flag o o' small r h =
    rw (← some-injective _ o' h)
      (record { known_calls = r.known_calls; positive_sizes = r.positive_sizes; ranks = r.ranks })

pub parse_common_flags-IsInRange :
    (nprocs : ℕ) (flags : List CommonFlag) (o o' : Common)
    → All HasSmallExponents flags
    → IsInRange nprocs o
    → parse_common_flags nprocs flags o ≡ some o'
    → IsInRange nprocs o'
unfolding parse_common_flags
parse_common_flags-IsInRange nprocs [] o o' small r h = rw (← some-injective o o' h) r
parse_common_flags-IsInRange nprocs (f ∷ flags) o o' (small, rest) r h =
    let (next, first, later) =
      >>=-eq-some (parse_common_flag nprocs f o) (parse_common_flags nprocs flags) o' h in
    parse_common_flags-IsInRange nprocs flags next o' rest
      (parse_common_flag-IsInRange nprocs f o next small r first) later
