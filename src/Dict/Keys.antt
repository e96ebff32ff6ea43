-- ===== src/Dict/Keys.antt =====
-- Counting and listing the keys.
use native.Mathlib.Decide.{dec_lt}
use reprompi_dev.Prelude.{
  ℕ, zero, suc, ◌+◌, ◌≤◌, ◌<◌, ◌≡◌, refl, sym, ap, ◌∙◌, ◌↔◌, ◌≢◌, true, none, some, List, [], ◌∷◌,
  ◌++◌, arith, length, length-append, get_or, set, if◌then◌else◌,
}
use reprompi_dev.Prelude.Text.{Str, same, same_refl}
use reprompi_dev.Dict.{
  Chain, Dictionary, add_element, count_chain, count_table, get_nkeys, chain_keys, table_keys,
  get_keys, is_empty,
}
use reprompi_dev.Dict.Hash.{hash_key-lt}
use reprompi_dev.Dict.Chain.{lookup, count, assign, count-eq-zero, lookup-eq-none, same_comm}
use reprompi_dev.Dict.Table.{home, bin_of, IsValid, view, with_bin}
use reprompi_dev.Dict.Updates.{add_element-with_bin}

-- how often a key is in a list of keys
unfoldable pub occurrences : Str → List Str → ℕ
occurrences q [] = 0
occurrences q (k ∷ ks) = (if same q k then 1 else 0) + occurrences q ks

occurrences-append :
    (q : Str) (xs ys : List Str) → occurrences q (xs ++ ys) ≡ occurrences q xs + occurrences q ys
unfolding occurrences
occurrences-append q [] ys = omega arith
occurrences-append q (x ∷ xs) ys = omega (arith, occurrences-append q xs ys)

unfoldable pub entries : List Chain → ℕ
entries [] = 0
entries (c ∷ cs) = length c + entries cs

unfoldable pub total : Str → List Chain → ℕ
total q [] = 0
total q (c ∷ cs) = count q c + total q cs

count_chain-length : (n : ℕ) (c : Chain) → count_chain n c ≡ n + length c
unfolding count_chain
count_chain-length n [] = omega arith
count_chain-length n (e ∷ c) = omega (arith, count_chain-length (n + 1) c)

count_table-entries : (n : ℕ) (cs : List Chain) → count_table n cs ≡ n + entries cs
unfolding count_table entries
count_table-entries n [] = omega arith
count_table-entries n (c ∷ cs) =
    omega (arith, count_table-entries (count_chain n c) cs, count_chain-length n c)

pub get_nkeys-entries : (d : Dictionary) → get_nkeys d ≡ entries d.table
unfolding get_nkeys
get_nkeys-entries d = omega (arith, count_table-entries 0 d.table)

length-chain_keys : (ks : List Str) (c : Chain) → length (chain_keys ks c) ≡ length ks + length c
unfolding chain_keys
length-chain_keys ks [] = omega arith
length-chain_keys ks (e ∷ c) =
    omega (arith, length-chain_keys (ks ++ (e.key ∷ [])) c, length-append ks (e.key ∷ []))

length-table_keys :
    (ks : List Str) (cs : List Chain) → length (table_keys ks cs) ≡ length ks + entries cs
unfolding table_keys entries
length-table_keys ks [] = omega arith
length-table_keys ks (c ∷ cs) =
    omega (arith, length-table_keys (chain_keys ks c) cs, length-chain_keys ks c)

occurrences-chain_keys :
    (q : Str) (ks : List Str) (c : Chain)
    → occurrences q (chain_keys ks c) ≡ occurrences q ks + count q c
unfolding chain_keys count
occurrences-chain_keys q ks [] = omega arith
occurrences-chain_keys q ks (e ∷ c) = omega (
  arith,
  occurrences-chain_keys q (ks ++ (e.key ∷ [])) c,
  occurrences-append q ks (e.key ∷ []),
  one,
)
  where
    one : occurrences q (e.key ∷ []) ≡ (if same q e.key then 1 else 0)
    one = unfold occurrences in omega arith

occurrences-table_keys :
    (q : Str) (ks : List Str) (cs : List Chain)
    → occurrences q (table_keys ks cs) ≡ occurrences q ks + total q cs
unfolding table_keys total
occurrences-table_keys q ks [] = omega arith
occurrences-table_keys q ks (c ∷ cs) =
    omega (arith, occurrences-table_keys q (chain_keys ks c) cs, occurrences-chain_keys q ks c)

-- If only one bin may hold a key, the table holds it as often as that bin.
total_only :
    (q : Str) (cs : List Chain) (j : ℕ)
    → ((i : ℕ) → i ≢ j → count q (get_or cs i []) ≡ 0)
    → total q cs ≡ count q (get_or cs j [])
unfolding total
total_only q [] j h = unfold count in refl
total_only q (c ∷ cs) zero h = omega (arith, total_nowhere q cs (λ i. h (suc i) (omega arith)))
  where
    total_nowhere :
        (q : Str) (cs : List Chain) → ((i : ℕ) → count q (get_or cs i []) ≡ 0) → total q cs ≡ 0
    total_nowhere q [] h = refl
    total_nowhere q (c ∷ cs) h = omega (arith, h 0, total_nowhere q cs (λ i. h (suc i)))
total_only q (c ∷ cs) (suc j) h =
    omega (arith, h 0 (omega arith), total_only q cs j (λ i n. h (suc i) (omega arith)))

entries-set :
    (cs : List Chain) (i : ℕ) (c : Chain)
    → i < length cs
    → entries (set cs i c) + length (get_or cs i []) ≡ entries cs + length c
unfolding entries
entries-set [] i c h = absurd (omega arith)
entries-set (x ∷ cs) zero c h = omega arith
entries-set (x ∷ cs) (suc i) c h = omega (arith, entries-set cs i c (omega arith))

length-assign :
    (k v : Str) (c : Chain)
    → length (assign k v c) ≡ length c + elim (lookup k c) [ none ↦ 1 | some _ ↦ 0 ]
unfolding assign lookup
length-assign k v [] = omega arith
length-assign k v (e ∷ c) = ground (arith, length-assign k v c, same_comm e.key k)

no_occurrences : (q : Str) → occurrences q [] ≡ 0
unfolding occurrences
no_occurrences q = refl

count-le-length : (q : Str) (c : Chain) → count q c ≤ length c
unfolding count
count-le-length q [] = omega arith
count-le-length q (e ∷ c) = ground (arith, count-le-length q c)

total-le-entries : (q : Str) (cs : List Chain) → total q cs ≤ entries cs
unfolding total entries
total-le-entries q [] = omega arith
total-le-entries q (c ∷ cs) = omega (arith, count-le-length q c, total-le-entries q cs)

total_positive : (cs : List Chain) → 0 < entries cs → (q : Str) × (0 < total q cs)
unfolding total entries
total_positive [] h = absurd (omega arith)
total_positive ([] ∷ cs) h = let (q, p) = total_positive cs (omega arith) in (q, omega arith)
total_positive ((e ∷ c) ∷ cs) h = (e.key, unfold count in ground (arith, same_refl e.key))

module _ {d : Dictionary} (valid : IsValid d) where
  count-view : (q : Str) → count q (bin_of d q) ≡ elim (view d q) [ none ↦ 0 | some _ ↦ 1 ]
  unfolding view
  count-view q = ground (
    arith,
    valid.placed q (home d q),
    count-eq-zero q (bin_of d q),
    lookup-eq-none q (bin_of d q),
  )

  total-view : (q : Str) → total q d.table ≡ elim (view d q) [ none ↦ 0 | some _ ↦ 1 ]
  total-view q =
      total_only q d.table (home d q) (λ i n. (valid.placed q i).1 (λ e. n (sym e))) ∙ count-view q

  -- Adding to a valid dictionary, with memory, counts one more key exactly if the key is new.
  pub get_nkeys-add_element :
      (k v : Str)
      → get_nkeys (add_element true d (some k) (some v)).1
        ≡ get_nkeys d + elim (view d k) [ none ↦ 1 | some _ ↦ 0 ]
  unfolding view
  get_nkeys-add_element k v = omega (
    arith,
    ap (λ (r : ℕ × Dictionary). get_nkeys r.1) (add_element-with_bin valid k v),
    get_nkeys-entries (with_bin d k (assign k v (bin_of d k))),
    get_nkeys-entries d,
    entries-set d.table (home d k) (assign k v (bin_of d k))
        (omega (arith, hash_key-lt k d.size valid.positive, valid.width)),
    length-assign k v (bin_of d k),
  )

  -- With memory, the key list of a valid dictionary that is not empty has `*nkeys` elements, and
  -- every key with a value once, no other.
  pub get_keys-view :
      0 < get_nkeys d
      → (keys : List Str) × (get_keys true d ≡ (0, length keys, some keys))
        × ((q : Str) → occurrences q keys ≡ elim (view d q) [ none ↦ 0 | some _ ↦ 1 ])
  get_keys-view h = (
    table_keys [] d.table,
    unfold get_keys in ground (arith, get_nkeys-entries d, length-table_keys [] d.table),
    λ q. omega (arith, occurrences-table_keys q [] d.table, no_occurrences q, total-view q),
  )

  -- A valid dictionary is empty exactly if no key has a value.
  pub is_empty-view : (is_empty d ≡ true) ↔ ((q : Str) → view d q ≡ none)
  unfolding is_empty
  is_empty-view = (
    λ h q. ground (arith, get_nkeys-entries d, total-le-entries q d.table, total-view q),
    λ h. elim (dec_lt 0 (entries d.table)) [
      | yes some_entry ↦
          let (q, found) = total_positive d.table some_entry in
          absurd (ground (arith, total-view q, h q))
      | no empty ↦ ground (arith, get_nkeys-entries d)
    ],
  )
