-- ===== src/Calls/Index.antt =====
-- The two directions between names and indices of the measured functions.
use reprompi_dev.Prelude.{
  ℕ, zero, suc, ◌+◌, ◌≡◌, ◌≢◌, ◌<◌, refl, ap, sym, ◌∙◌, Bool, true, false, List, [], ◌∷◌, get_or,
  ◌&&◌, length, arith, ◌==◌, Bool-cases, inl, inr, ==_iff, ◌⊎◌,
}
use reprompi_dev.Prelude.Int.{ℤ, pos, negsuc}
use reprompi_dev.Prelude.Text.{Str, same, eq-same, same_refl}
use reprompi_dev.Calls.{mpi_calls_opts, search_name, get_call_index, get_call_from_index}

absent_cons :
    (name n : Str) (names : List Str)
    → n ≢ name
    → ((j : ℕ) → j < length names → get_or names j [] ≢ name)
    → (j : ℕ) → j < suc (length names)
    → get_or (n ∷ names) j [] ≢ name
absent_cons name n names ne absent zero lt = ne
absent_cons name n names ne absent (suc j) lt = absent j (omega (arith, lt))

differs : (name n : Str) → same name n ≡ false → n ≢ name
differs name n h e = let all_same : same name n ≡ true = ap (same name) e ∙ same_refl name in cc

-- A search ends at the first place of the name, or finds it nowhere.
search_name_lem :
    (name : Str) (i : ℕ) (names : List Str)
    → ((search_name name i names ≡ negsuc 0)
        × ((j : ℕ) → j < length names → get_or names j [] ≢ name))
      ⊎ ((j : ℕ) × (search_name name i names ≡ pos (i + j))
          × (j < length names)
          × (get_or names j [] ≡ name))
unfolding search_name
search_name_lem name i [] = inl (refl, λ j lt. absurd (omega (arith, lt)))
search_name_lem name i (n ∷ names) = elim (Bool-cases (same name n)) [
  | inl h ↦
      let e : i ≡ i + 0 = omega arith in
      inr (0, rw h (ap pos e), omega arith, sym (eq-same name n h))
  | inr h ↦ elim (search_name_lem name (i + 1) names) [
    | inl (m, absent) ↦ inl (rw h m, absent_cons name n names (differs name n h) absent)
    | inr (j, m, lt, g) ↦
        let e : i + 1 + j ≡ i + suc j = omega arith in
        inr (suc j, rw h (m ∙ ap pos e), omega (arith, lt), g)
  ]
]

from_index :
    (j : ℕ) → j < length mpi_calls_opts → get_call_from_index (pos j) ≡ get_or mpi_calls_opts j []
unfolding get_call_from_index
from_index j lt = ground (arith, lt)

-- A name that is in the table gets an index inside the table, and that index gets the name back; a name
-- that is not in the table gets -1.
get_call_index_lem :
    (name : Str)
    → ((get_call_index name ≡ negsuc 0)
        × ((j : ℕ) → j < length mpi_calls_opts → get_call_from_index (pos j) ≢ name))
      ⊎ ((j : ℕ) × (get_call_index name ≡ pos j)
          × (j < length mpi_calls_opts)
          × (get_call_from_index (pos j) ≡ name))
unfolding get_call_index
get_call_index_lem name = elim (search_name_lem name 0 mpi_calls_opts) [
  | inl (m, absent) ↦ inl (m, λ j lt e. absent j lt (sym (from_index j lt) ∙ e))
  | inr (j, m, lt, g) ↦
      let e : 0 + j ≡ j = omega arith in inr (j, m ∙ ap pos e, lt, from_index j lt ∙ g)
]

-- a check of all numbers below a bound, by evaluation
all_below : ℕ → (ℕ → Bool) → Bool
all_below zero p = true
all_below (suc n) p = let rest = all_below n p in p n && rest

all_below_sound : (n : ℕ) (p : ℕ → Bool) (k : ℕ) → all_below n p ≡ true → k < n → p k ≡ true
unfolding all_below
all_below_sound zero p k h lt = absurd (omega (arith, lt))
all_below_sound (suc n) p k h lt = ground (arith, all_below_sound n p k)

abbrev is_pos : ℕ → ℤ → Bool
is_pos n (pos m) = m == n
is_pos n (negsuc m) = false

eq-is_pos : (n : ℕ) (z : ℤ) → is_pos n z ≡ true → z ≡ pos n
eq-is_pos n (pos m) h = ap pos ((==_iff m n).0 h)
eq-is_pos n (negsuc m) h = cc

abbrev comes_back : ℕ → Bool
comes_back n = is_pos n (get_call_index (get_call_from_index (pos n)))

all_come_back : all_below 18 comes_back ≡ true
unfolding all_below get_call_index get_call_from_index search_name same
all_come_back = refl

-- Every index of the table comes back from its name: no name stands there twice.
pub get_call_index-get_call_from_index :
    (j : ℕ) → j < 18 → get_call_index (get_call_from_index (pos j)) ≡ pos j
get_call_index-get_call_from_index j lt =
    eq-is_pos j (get_call_index (get_call_from_index (pos j)))
      (all_below_sound 18 comes_back j all_come_back lt)
