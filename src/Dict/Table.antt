-- ===== src/Dict/Table.antt =====
-- The invariant of a dictionary, the map that it stands for, and a write to one bin.
use reprompi_dev.Prelude.{
  ℕ, suc, ◌≤◌, ◌<◌, ◌≡◌, refl, ◌≢◌, true, false, Option, none, some, [], arith, length, length-set,
  length-replicate, get_or, get_or-replicate, get_or-set_self, get_or-set_ne, set, replicate,
  if◌then◌else◌, ◌==◌, Bool-cases, inl, inr,
}
use reprompi_dev.Prelude.Int.{pos}
use reprompi_dev.Prelude.Text.{Str}
use reprompi_dev.Dict.{Chain, Dictionary, init_dictionary, ht_hash, get_value, has_key}
use reprompi_dev.Dict.Hash.{hash_key, hash_key-lt}
use reprompi_dev.Dict.Chain.{lookup, count, found_value-walk}

-- the bin of a key
abbrev pub home : Dictionary → Str → ℕ
home d k = hash_key k d.size

abbrev pub bin_of : Dictionary → Str → Chain
bin_of d k = get_or d.table (home d k) []

-- The table has as many bins as the struct says, at least one; a key stands at most once in its
-- own bin, and in no other.
pub record IsValid (d : Dictionary) : Type 0 where
  pub positive : 0 < d.size
  pub width : length d.table ≡ d.size
  pub placed :
      (q : Str) (i : ℕ)
      → (count q (get_or d.table i []) ≤ 1) × (home d q ≢ i → count q (get_or d.table i []) ≡ 0)

-- the abstract map
unfoldable pub view : Dictionary → Str → Option Str
view d k = lookup k (bin_of d k)

abbrev pub reply : Option Str → ℕ × Option Str
reply none = (1, none)
reply (some v) = (0, some v)

pub ht_hash-home : (d : Dictionary) (k : Str) → 0 < d.size → ht_hash (some d) k ≡ some (home d k)
unfolding ht_hash
ht_hash-home d k h = ground arith

-- The get function returns what the map has, whatever `*value` was.
pub get_value-view :
    (d : Dictionary) (k : Str) (out : Option Str)
    → 0 < d.size
    → get_value d (some k) out ≡ reply (view d k)
unfolding get_value view
get_value-view d k out h = ground (arith, ht_hash-home d k h, found_value-walk k (bin_of d k))

pub has_key-view :
    (d : Dictionary) (k : Str) (out : Option Str)
    → 0 < d.size
    → has_key d (some k) out ≡ elim (view d k) [ none ↦ false | some _ ↦ true ]
unfolding has_key
has_key-view d k out h = rw (get_value-view d k out h) (ground arith)

-- `d` after a write of the bin `c` at the key `k`
abbrev pub with_bin : Dictionary → Str → Chain → Dictionary
with_bin d k c = record d { table = set d.table (home d k) c }

module _ {d : Dictionary} (valid : IsValid d) (k : Str) (c : Chain) where
  pub with_bin-get_or :
      (i : ℕ)
      → get_or (with_bin d k c).table i [] ≡ (if home d k == i then c else get_or d.table i [])
  with_bin-get_or i = elim (Bool-cases (home d k == i)) [
    | inl e ↦ ground (arith, get_or-set_self d.table (home d k) c [], hash_key-lt k d.size)
    | inr e ↦ ground (arith, get_or-set_ne d.table (home d k) i c [])
  ]

  pub view-with_bin :
      (q : Str) → view (with_bin d k c) q ≡ (if home d k == home d q then lookup q c else view d q)
  unfolding view
  view-with_bin q = ground (arith, with_bin-get_or (home d q))

  -- A write keeps the invariant if the new bin has no key twice, and no foreign one.
  pub with_bin-IsValid :
      ((q : Str) → (count q c ≤ 1) × (home d q ≢ home d k → count q c ≡ 0))
      → IsValid (with_bin d k c)
  with_bin-IsValid fits = record {
    positive = valid.positive;
    width = omega (arith, length-set d.table (home d k) c, valid.width);
    placed = λ q i. ground (arith, with_bin-get_or i, fits q, valid.placed q i);
  }

empty_bins : (n i : ℕ) (q : Str) → count q (get_or {A = Chain} (replicate n []) i []) ≡ 0
unfolding count
empty_bins n i q = rw (get_or-replicate {A = Chain} n i [])

abbrev fresh : ℕ → Dictionary
fresh n = record { size = suc n; table = replicate (suc n) [] }

fresh-IsValid : (n : ℕ) → IsValid (fresh n)
fresh-IsValid n = record {
  positive = omega arith;
  width = length-replicate {A = Chain} (suc n) [];
  placed = λ q i. omega (arith, empty_bins (suc n) i q);
}

view-fresh : (n : ℕ) (k : Str) → view (fresh n) k ≡ none
unfolding view lookup
view-fresh n k = rw (get_or-replicate {A = Chain} (suc n) (home (fresh n) k) [])

init_dictionary-fresh :
    (old : Dictionary) (n : ℕ) → init_dictionary true old (pos (suc n)) ≡ (0, fresh n)
unfolding init_dictionary
init_dictionary-fresh old n = ground arith

-- Initialisation with a positive size and memory succeeds, with a valid dictionary of that size in
-- which no key has a value.
pub init_dictionary-IsValid :
    (old : Dictionary) (n : ℕ)
    → ((init_dictionary true old (pos (suc n))).0 ≡ 0)
      × ((init_dictionary true old (pos (suc n))).1.size ≡ suc n)
      × IsValid (init_dictionary true old (pos (suc n))).1
      × ((k : Str) → view (init_dictionary true old (pos (suc n))).1 k ≡ none)
init_dictionary-IsValid old n = rw init_dictionary-fresh (refl, refl, fresh-IsValid n, view-fresh n)
