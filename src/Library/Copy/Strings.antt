-- ===== src/Library/Copy/Strings.antt =====
-- That every pointer of the copy leads to its argument.
use mathlib.Core.List.{append_assoc}
use reprompi_dev.Prelude.{
  ℕ, zero, suc, ◌+◌, ◌≤◌, ◌≡◌, ◌≢◌, refl, ap, sym, ◌∙◌, true, false, Option, none, some, List, [],
  ◌∷◌, ◌++◌, length, length-append, length-replicate, snoc-append, append_nil, set-append,
  replicate, All, get_elem?, leb, ◌==◌, if◌then◌else◌, arith,
}
use reprompi_dev.Prelude.Text.{Str}
use reprompi_dev.Library.Copy.{strlen_sum, with_nul, write_bytes, memcpy, copy_args, make_argv_copy}

-- the string that a pointer leads to: the bytes up to the next NUL
abbrev pub c_string : List ℕ → Str
c_string [] = []
c_string (b ∷ bytes) = let rest = c_string bytes in if b == 0 then [] else b ∷ rest

abbrev pub drop : ℕ → List ℕ → List ℕ
drop zero xs = xs
drop (suc n) [] = []
drop (suc n) (x ∷ xs) = drop n xs

-- No byte of a string is NUL.
abbrev pub IsText : Str → Type 0
IsText arg = All (λ b. b ≢ 0) arg

-- what the pointers of the copy lead to
abbrev pub strings_at : List (Option ℕ) → List ℕ → List Str
strings_at [] block = []
strings_at (none ∷ pointers) block = []
strings_at (some p ∷ pointers) block = c_string (drop p block) ∷ strings_at pointers block

-- the block of all strings, and where they begin
abbrev strings_of : List Str → List ℕ
strings_of [] = []
strings_of (arg ∷ argv) = with_nul arg ++ strings_of argv

abbrev offsets : List Str → ℕ → List (Option ℕ)
offsets [] offset = none ∷ []
offsets (arg ∷ argv) offset = some offset ∷ offsets argv (offset + (length arg + 1))

write_bytes_lem :
    (bytes front : List ℕ) (m : ℕ)
    → write_bytes (length front) bytes (front ++ replicate (length bytes + m) 0)
      ≡ (front ++ bytes) ++ replicate m 0
write_bytes_lem [] front m = let same : 0 + m ≡ m = omega arith in rw (same, append_nil front) refl
write_bytes_lem (b ∷ bytes) front m =
    let more : suc (length bytes) + m ≡ suc (length bytes + m) = omega arith in
    let next : length front + 1 ≡ length (front ++ b ∷ []) = sym (length-append front (b ∷ [])) in
    rw
      (
        more,
        set-append front 0 b (replicate (length bytes + m) 0),
        next,
        snoc-append front b (replicate (length bytes + m) 0),
      )
      (write_bytes_lem bytes (front ++ b ∷ []) m
        ∙ ap (λ xs. xs ++ replicate m 0) (sym (snoc-append front b bytes)))

le→leb : (a b : ℕ) → a ≤ b → leb a b ≡ true
le→leb a b h = ground arith

copy_args_lem :
    (argv : List Str) (front : List ℕ)
    → copy_args argv (length front) (front ++ replicate (strlen_sum argv) 0)
      ≡ some (offsets argv (length front), front ++ strings_of argv)
unfolding copy_args memcpy strlen_sum
copy_args_lem [] front = refl
copy_args_lem (arg ∷ argv) front =
    let size : length arg + 1 + strlen_sum argv ≡ length (with_nul arg) + strlen_sum argv =
      omega (arith, length-append arg (0 ∷ [])) in
    let inside : leb (length front + length (with_nul arg))
          (length (front ++ replicate (length (with_nul arg) + strlen_sum argv) 0))
        ≡ true =
      le→leb _ _ (
        omega (
          arith,
          length-append front (replicate (length (with_nul arg) + strlen_sum argv) 0),
          length-replicate {A = ℕ} (length (with_nul arg) + strlen_sum argv) 0,
        )) in
    let next : length front + (length arg + 1) ≡ length (front ++ with_nul arg) =
      omega (arith, length-append front (with_nul arg), length-append arg (0 ∷ [])) in
    rw
      (
        size,
        inside,
        write_bytes_lem (with_nul arg) front (strlen_sum argv),
        next,
        copy_args_lem argv (front ++ with_nul arg),
        append_assoc front (with_nul arg) (strings_of argv),
      )
      refl

last_offset :
    (argv : List Str) (offset : ℕ) → get_elem? (offsets argv offset) (length argv) ≡ some none
last_offset [] offset = refl
last_offset (arg ∷ argv) offset = last_offset argv (offset + (length arg + 1))

drop-append : (front xs : List ℕ) → drop (length front) (front ++ xs) ≡ xs
drop-append [] xs = refl
drop-append (x ∷ front) xs = drop-append front xs

c_string_lem : (arg : Str) (rest : List ℕ) → IsText arg → c_string (with_nul arg ++ rest) ≡ arg
c_string_lem [] rest all = refl
c_string_lem (b ∷ arg) rest (text, all) =
    let not_nul : (b == 0) ≡ false = ground (arith, text) in
    rw (not_nul) (ap (λ r. b ∷ r) (c_string_lem arg rest all))

strings_at_lem :
    (argv : List Str) (front : List ℕ)
    → All IsText argv
    → strings_at (offsets argv (length front)) (front ++ strings_of argv) ≡ argv
strings_at_lem [] front all = refl
strings_at_lem (arg ∷ argv) front (text, all) =
    let next : length front + (length arg + 1) ≡ length (front ++ with_nul arg) =
      omega (arith, length-append front (with_nul arg), length-append arg (0 ∷ [])) in
    rw
      (
        drop-append front (with_nul arg ++ strings_of argv),
        c_string_lem arg (strings_of argv) text,
        next,
        ← append_assoc front (with_nul arg) (strings_of argv),
      )
      (ap (λ r. arg ∷ r) (strings_at_lem argv (front ++ with_nul arg) all))

-- With memory, the copy of arguments without a NUL inside is made without a write outside of its
-- block, it ends with the NULL pointer, and its pointers lead to the arguments in order.
pub make_argv_copy-strings_at :
    (argv : List Str)
    → All IsText argv
    → (pointers : List (Option ℕ)) × (block : List ℕ) × (make_argv_copy true argv
        ≡ some (pointers, block))
      × (strings_at pointers block ≡ argv)
      × (get_elem? pointers (length argv) ≡ some none)
unfolding make_argv_copy
make_argv_copy-strings_at argv all = (
  offsets argv 0,
  strings_of argv,
  copy_args_lem argv [],
  strings_at_lem argv [] all,
  last_offset argv 0,
)
