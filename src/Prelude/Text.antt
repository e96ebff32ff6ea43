-- ===== src/Prelude/Text.antt =====
-- C strings as lists of bytes, without the terminating NUL, and the equality test of `strcmp`.
use Prim.Native.Char.{code}
use Prim.Native.String as Native
use reprompi_dev.Prelude.{ℕ, ◌≡◌, refl, ◌↔◌, Bool, true, false, ◌&&◌, List, [], ◌∷◌, arith, ◌==◌}

abbrev pub Str : Type 0
Str = List ℕ

-- the bytes of an ASCII literal
abbrev pub ascii : Native.String → Str
ascii Native.[] = []
ascii (Native.◌∷◌ c s) = code c ∷ ascii s

-- `strcmp(a, b) == 0`
unfoldable pub same : Str → Str → Bool
same [] [] = true
same [] (d ∷ b) = false
same (c ∷ a) [] = false
same (c ∷ a) (d ∷ b) = c == d && same a b

pub eq-same : (a b : Str) → same a b ≡ true → a ≡ b
unfolding same
eq-same [] [] h = refl
eq-same [] (d ∷ b) h = cc
eq-same (c ∷ a) [] h = cc
eq-same (c ∷ a) (d ∷ b) h = ground (arith, eq-same a b)

pub same_refl : (a : Str) → same a a ≡ true
unfolding same
same_refl [] = refl
same_refl (c ∷ a) = ground (arith, same_refl a)

-- `same` decides equality.
pub same_iff : (a b : Str) → (same a b ≡ true) ↔ (a ≡ b)
same_iff a b = (eq-same a b, λ e. rw e (same_refl b))
