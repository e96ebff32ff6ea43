-- ===== src/Prelude/Options.antt =====
-- Sequencing of steps that may fail, for `do` blocks.
use mathlib.Core.Path.{◌≡◌, refl}
use mathlib.Core.Option.{Option, none, some, none-ne-some}

module _ {A B : Type 0} where
  infixl 10 ◌>>=◌
  abbrev pub ◌>>=◌ : Option A → (A → Option B) → Option B
  none >>= f = none
  some a >>= f = f a

  -- A sequence succeeds only if its first step does.
  pub >>=-eq-some :
      (o : Option A) (f : A → Option B) (b : B)
      → (o >>= f) ≡ some b
      → (a : A) × (o ≡ some a) × (f a ≡ some b)
  >>=-eq-some none f b h = absurd (none-ne-some b h)
  >>=-eq-some (some a) f b h = (a, refl, h)
