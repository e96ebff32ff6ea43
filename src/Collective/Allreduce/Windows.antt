-- ===== src/Collective/Allreduce/Windows.antt =====
-- The reduction over a cyclic window of ranks, for an associative and commutative operation.
use native.Mathlib.Nat.{mod-mod, mod-add-mod, add-mod_right}
use reprompi_dev.Prelude.{ℕ, zero, suc, ◌+◌, ◌-◌, ◌%◌, ◌<◌, ◌≡◌, refl, sym, ap, ap₂, ◌∙◌, arith}

-- What MPI asks of a commutative operation.
pub record IsCommutative {A : Type 0} (op : A → A → A) : Type 0 where
  pub assoc : (a b c : A) → op (op a b) c ≡ op a (op b c)
  pub comm : (a b : A) → op a b ≡ op b a

module _ {A : Type 0} (op : A → A → A) (size : ℕ) (x : ℕ → A) where
  -- the values of the ranks r, r + 1, …, r + n, each counted modulo `size`
  unfoldable pub window : ℕ → ℕ → A
  window r zero = x (r % size)
  window r (suc n) = op (x (r % size)) (window (r + 1) n)

  pub window-mod : (r n : ℕ) → window (r % size) n ≡ window r n
  unfolding window
  window-mod r zero = ap x (mod-mod r size)
  window-mod r (suc n) = ap₂ op (ap x (mod-mod r size)) (
      sym (window-mod (r % size + 1) n)
      ∙ ap (λ k. window k n) (mod-add-mod r size 1)
      ∙ window-mod (r + 1) n)

module _ {A : Type 0} {op : A → A → A} (laws : IsCommutative op) (size : ℕ) (x : ℕ → A) where
  -- Two windows, one behind the other, make one.
  pub window-append :
      (r n m : ℕ)
      → op (window op size x (r + suc n) m) (window op size x r n) ≡ window op size x r (n + suc m)
  unfolding window
  window-append r zero m = let e : 0 + suc m ≡ suc m = omega arith in rw e (laws.comm _ _)
  window-append r (suc n) m =
      let e : suc n + suc m ≡ suc (n + suc m) = omega arith in
      let d : r + suc (suc n) ≡ r + 1 + suc n = omega arith in
      rw (e, d, ← window-append (r + 1) n m)
        (sym (laws.assoc _ _ _)
          ∙ ap (λ t. op t (window op size x (r + 1) n)) (laws.comm _ _)
          ∙ laws.assoc _ _ _)

  window_next : (r n : ℕ) → suc n ≡ size → window op size x (r + 1) n ≡ window op size x r n
  unfolding window
  window_next r zero e = ap x (ap (λ t. (r + t) % size) e ∙ add-mod_right r size)
  window_next r (suc n) e =
      let d : n + suc 0 ≡ suc n = omega arith in
      let around : r + 1 + suc n ≡ r + size = omega arith in
      let split = rw d at (sym (window-append (r + 1) n 0)) in
      split
      ∙ ap (λ t. op t (window op size x (r + 1) n))
          (ap x (ap (λ t. t % size) around ∙ add-mod_right r size))

  -- A window of all ranks may start anywhere.
  pub window_all :
      (r : ℕ) → 0 < size → window op size x r (size - 1) ≡ window op size x 0 (size - 1)
  window_all zero pos = refl
  window_all (suc r) pos =
      let e : suc r ≡ r + 1 = omega arith in
      rw e (window_next r (size - 1) (omega arith) ∙ window_all r pos)
