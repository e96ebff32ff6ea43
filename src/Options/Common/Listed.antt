-- ===== src/Options/Common/Listed.antt =====
-- The lists of calls and of message sizes: the loops of
-- src/reprompi_bench/option_parser/parse_common_options.c stay inside their growing arrays.
use Prim.{tt}
use mathlib.Core.Path.{subst}
use mathlib.Core.List.{map}
use mathlib.Core.Option.{none-ne-some, some-injective}
use reprompi_dev.Prelude.{
  ℕ, ◌+◌, ◌*◌, ◌/◌, ◌%◌, ◌<◌, ◌≡◌, refl, Option, none, some, ◌>>=◌, >>=-eq-some, List, [], ◌∷◌,
  ◌++◌, length, length-append, snoc-append, append_nil, All, true, false, Bool-cases, inl, inr, ltb,
  lt→ltb, ltb→lt, ◌==◌, if◌then◌else◌, arith,
}
use reprompi_dev.Prelude.Int.{ℤ, pos, negsuc}
use reprompi_dev.Options.{positive}
use reprompi_dev.Options.Sizes.{positive_lem}
use reprompi_dev.Options.Common.{
  Growing, append_entry, finished, no_entries, n_mpi_calls, read_calls, parse_call_list,
  read_msizes, parse_msize_list,
}

-- The array after `n` entries: allocated up to the next multiple of ten above
abbrev with_room : List ℕ → Growing
with_room xs = record { allocated = (length xs / 10 + 1) * 10; written = xs }

full_size : (m : ℕ) → (m % 10 == 0) ≡ true → m + 10 ≡ (m / 10 + 1) * 10
full_size m h = ground arith

same_size : (n m : ℕ) → m ≡ n + 1 → (m % 10 == 0) ≡ false → (n / 10 + 1) * 10 ≡ (m / 10 + 1) * 10
same_size n m e h = ground arith

append_entry-with_room :
    (x : ℕ) (xs : List ℕ) → append_entry x (with_room xs) ≡ some (with_room (xs ++ x ∷ []))
unfolding append_entry
append_entry-with_room x xs =
    let m = length (xs ++ x ∷ []) in
    let one_more : m ≡ length xs + 1 = length-append xs (x ∷ []) in
    let inside : length xs < (length xs / 10 + 1) * 10 = omega arith in
    rw (lt→ltb (length xs) ((length xs / 10 + 1) * 10) inside) (elim (Bool-cases (m % 10 == 0)) [
      | inl full ↦ let size : m + 10 ≡ (m / 10 + 1) * 10 = full_size m full in rw (full, size) refl
      | inr not_full ↦
          let size : (length xs / 10 + 1) * 10 ≡ (m / 10 + 1) * 10 =
            same_size (length xs) m one_more not_full in
          rw (not_full, size) refl
    ])

read_calls-with_room :
    (indices xs : List ℕ)
    → All (λ i. i < n_mpi_calls) indices
    → read_calls (map pos indices) (with_room xs) ≡ some (with_room (xs ++ indices))
unfolding read_calls
read_calls-with_room [] xs all = rw (append_nil xs) refl
read_calls-with_room (i ∷ indices) xs (known, all) =
    rw (lt→ltb i n_mpi_calls known, append_entry-with_room i xs, snoc-append xs i indices)
      (read_calls-with_room indices (xs ++ i ∷ []) all)

read_msizes-with_room :
    (sizes xs : List ℕ)
    → All (λ s. 0 < s) sizes
    → read_msizes (map (λ s. some (pos s)) sizes) (with_room xs) ≡ some (with_room (xs ++ sizes))
unfolding read_msizes positive
read_msizes-with_room [] xs all = rw (append_nil xs) refl
read_msizes-with_room (s ∷ sizes) xs (known, all) =
    rw (lt→ltb 0 s known, append_entry-with_room s xs, snoc-append xs s sizes)
      (read_msizes-with_room sizes (xs ++ s ∷ []) all)

finished-with_room : (xs : List ℕ) → 0 < length xs → finished (with_room xs) ≡ some xs
unfolding finished
finished-with_room xs h = rw (lt→ltb 0 (length xs) h) refl

-- A list of known calls is accepted as it is, however long, if it is not empty, and so is a list of
-- positive message sizes: no write is outside of the array.
pub lists_accepted :
    (calls sizes : List ℕ)
    → All (λ i. i < n_mpi_calls) calls
    → 0 < length calls
    → All (λ s. 0 < s) sizes
    → 0 < length sizes
    → (parse_call_list (map pos calls) ≡ some calls)
      × (parse_msize_list (map (λ s. some (pos s)) sizes) ≡ some sizes)
unfolding parse_call_list parse_msize_list
lists_accepted calls sizes known some_calls positive_sizes some_sizes = (
  rw (read_calls-with_room calls [] known) (finished-with_room calls some_calls),
  rw (read_msizes-with_room sizes [] positive_sizes) (finished-with_room sizes some_sizes),
)

-- And whatever is accepted has only known calls and positive sizes.
append_entry-written :
    (x : ℕ) (a a' : Growing) → append_entry x a ≡ some a' → a'.written ≡ a.written ++ x ∷ []
unfolding append_entry
append_entry-written x a a' h = ground arith

All-snoc : (P : ℕ → Type 0) (xs : List ℕ) (x : ℕ) → All P xs → P x → All P (xs ++ x ∷ [])
All-snoc P [] x all h = (h, tt)
All-snoc P (y ∷ xs) x (p, all) h = (p, All-snoc P xs x all h)

call_added :
    (i : ℕ) (a b : Growing)
    → (if ltb i n_mpi_calls then append_entry i a else none) ≡ some b
    → (i < n_mpi_calls) × (b.written ≡ a.written ++ i ∷ [])
call_added i a b h = elim (Bool-cases (ltb i n_mpi_calls)) [
  | inl known ↦ (
    ltb→lt i n_mpi_calls known,
    append_entry-written i a b
        (subst (λ t. (if t then append_entry i a else none) ≡ some b) known h),
  )
  | inr unknown ↦
      absurd
        (none-ne-some b (subst (λ t. (if t then append_entry i a else none) ≡ some b) unknown h))
]

read_calls-All :
    (indices : List ℤ) (a a' : Growing)
    → All (λ i. i < n_mpi_calls) a.written
    → read_calls indices a ≡ some a'
    → All (λ i. i < n_mpi_calls) a'.written
unfolding read_calls
read_calls-All [] a a' all h = let same : a ≡ a' = some-injective a a' h in rw (← same) all
read_calls-All (negsuc n ∷ indices) a a' all h = absurd (none-ne-some a' h)
read_calls-All (pos i ∷ indices) a a' all h =
    let (b, added, rest) =
      >>=-eq-some (if ltb i n_mpi_calls then append_entry i a else none) (read_calls indices) a'
        h in
    let (known, written) = call_added i a b added in
    read_calls-All indices b a' (rw written (All-snoc (λ i. i < n_mpi_calls) a.written i all known))
      rest

read_msizes-All :
    (tokens : List (Option ℤ)) (a a' : Growing)
    → All (λ s. 0 < s) a.written
    → read_msizes tokens a ≡ some a'
    → All (λ s. 0 < s) a'.written
unfolding read_msizes
read_msizes-All [] a a' all h = let same : a ≡ a' = some-injective a a' h in rw (← same) all
read_msizes-All (number ∷ tokens) a a' all h =
    let (s, read, added) =
      >>=-eq-some (positive number) (λ s. append_entry s a >>= read_msizes tokens) a' h in
    let (b, appended, rest) = >>=-eq-some (append_entry s a) (read_msizes tokens) a' added in
    read_msizes-All tokens b a'
      (rw (append_entry-written s a b appended)
        (All-snoc (λ s. 0 < s) a.written s all (positive_lem number s read)))
      rest

finished-written : (a : Growing) (xs : List ℕ) → finished a ≡ some xs → a.written ≡ xs
unfolding finished
finished-written a xs h = ground arith

pub parse_call_list-All :
    (indices : List ℤ) (calls : List ℕ)
    → parse_call_list indices ≡ some calls
    → All (λ i. i < n_mpi_calls) calls
unfolding parse_call_list
parse_call_list-All indices calls h =
    let (a, read, done) = >>=-eq-some (read_calls indices no_entries) finished calls h in
    rw (← finished-written a calls done) (read_calls-All indices no_entries a tt read)

pub parse_msize_list-All :
    (tokens : List (Option ℤ)) (sizes : List ℕ)
    → parse_msize_list tokens ≡ some sizes
    → All (λ s. 0 < s) sizes
unfolding parse_msize_list
parse_msize_list-All tokens sizes h =
    let (a, read, done) = >>=-eq-some (read_msizes tokens no_entries) finished sizes h in
    rw (← finished-written a sizes done) (read_msizes-All tokens no_entries a tt read)
