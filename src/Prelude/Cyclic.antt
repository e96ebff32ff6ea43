-- ===== src/Prelude/Cyclic.antt =====
-- Ranks modulo the number of processes: going an offset forth and back.
use native.Mathlib.Nat.{mod-lt, mod-add-mod, mod-eq_of_lt, mod-eq-sub-mod, add-mod_right}
use native.Mathlib.Decide.{dec_lt}
use reprompi_dev.Prelude.{ℕ, ◌+◌, ◌-◌, ◌%◌, ◌≤◌, ◌<◌, ◌≡◌, ap, sym, ◌∙◌, arith}

pub back-forth : (n c r : ℕ) → r < n → c ≤ n → ((r + c) % n + n - c) % n ≡ r
back-forth n c r h k = elim (dec_lt (r + c) n) [
  | yes p ↦
      let e : r + c + n - c ≡ r + n = omega arith in
      rw (mod-eq_of_lt p, e) (add-mod_right r n ∙ mod-eq_of_lt h)
  | no p ↦
      let below : r + c - n < n = omega arith in
      let back : r + c - n + n - c ≡ r = omega arith in
      rw (mod-eq-sub-mod {n = r + c} {m = n} (omega arith), mod-eq_of_lt below, back)
        (mod-eq_of_lt h)
]

pub forth-back : (n c r : ℕ) → r < n → c ≤ n → ((r + n - c) % n + c) % n ≡ r
forth-back n c r h k =
    let e : r + n - c + c ≡ r + n = omega arith in
    mod-add-mod (r + n - c) n c ∙ ap (λ t. t % n) e ∙ add-mod_right r n ∙ mod-eq_of_lt h

-- A rank `d` before `r` is `d - c` before the rank that is `c` before `r`.
pub step_back :
    (n c q d r : ℕ) → 0 < n → c ≤ n → c ≤ d → (q + d) % n ≡ r → (q + (d - c)) % n ≡ (r + n - c) % n
step_back n c q d r pos k h e =
    let whole : q + (d - c) + c ≡ q + d = omega arith in
    let ahead : ((q + (d - c)) % n + c) % n ≡ r =
      mod-add-mod (q + (d - c)) n c ∙ ap (λ t. t % n) whole ∙ e in
    sym (back-forth n c ((q + (d - c)) % n) (mod-lt (q + (d - c)) pos) k)
    ∙ ap (λ t. (t + n - c) % n) ahead
