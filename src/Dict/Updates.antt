-- ===== src/Dict/Updates.antt =====
-- Adding an element: the invariant, the abstract map, and the failing calls.
use reprompi_dev.Prelude.{
  ◌≤◌, ◌≡◌, refl, ◌≢◌, true, false, Option, none, some, List, [], arith, ap, set-get_or,
  if◌then◌else◌, inl, inr, Option-cases,
}
use reprompi_dev.Prelude.Text.{Str, same, same_iff}
use reprompi_dev.Dict.{Chain, Dictionary, add_element, add_to_chain, get_value}
use reprompi_dev.Dict.Chain.{
  lookup, count, assign, add_to_chain-eq-assign, add_to_chain-no_memory, lookup-assign,
  count-assign, count-eq-zero,
}
use reprompi_dev.Dict.Table.{
  home, bin_of, IsValid, view, ht_hash-home, get_value-view, with_bin, view-with_bin,
  with_bin-IsValid,
}

module _ {d : Dictionary} (valid : IsValid d) (k v : Str) where
  pub add_element-with_bin :
      add_element true d (some k) (some v) ≡ (0, with_bin d k (assign k v (bin_of d k)))
  unfolding add_element
  add_element-with_bin =
      ground (arith, ht_hash-home d k valid.positive, add_to_chain-eq-assign k v (bin_of d k))

  home-same : (q : Str) → same k q ≡ true → home d k ≡ home d q
  home-same q h = ground (arith, same_iff k q)

  -- On a valid dictionary and with memory, adding keeps the invariant and succeeds.
  pub add_element-IsValid :
      ((add_element true d (some k) (some v)).0 ≡ 0)
      × IsValid (add_element true d (some k) (some v)).1
  add_element-IsValid =
      rw add_element-with_bin (refl, with_bin-IsValid valid k (assign k v (bin_of d k)) λ q. fits q)
    where
      fits :
          (q : Str)
          → (count q (assign k v (bin_of d k)) ≤ 1)
            × (home d q ≢ home d k → count q (assign k v (bin_of d k)) ≡ 0)
      fits q = ground (
        arith,
        count-assign k q v (bin_of d k),
        valid.placed q (home d k),
        home-same q,
        count-eq-zero q (bin_of d k),
        same_iff k q,
      )

  pub view-add_element :
      (q : Str)
      → view (with_bin d k (assign k v (bin_of d k))) q ≡ (if same k q then some v else view d q)
  view-add_element q =
      rw (view-with_bin valid k)
        (unfold view in ground (arith, lookup-assign k q v (bin_of d k), home-same q))

  -- After an add to a valid dictionary, with memory, the get function returns the new value at the
  -- key, and at any other key what it returned before.
  pub get_value-add_element :
      (q : Str) (out : Option Str)
      → get_value (add_element true d (some k) (some v)).1 (some q) out
        ≡ (if same k q then (0, some v) else get_value d (some q) out)
  get_value-add_element q out = ground (
    arith,
    add_element-with_bin,
    get_value-view (with_bin d k (assign k v (bin_of d k))) q out valid.positive,
    get_value-view d q out valid.positive,
    view-add_element q,
  )

  -- When no entry can be allocated, an add to a valid dictionary still replaces the value of a key
  -- that is there; for a new key it fails and changes nothing.
  pub add_element-no_memory :
      add_element false d (some k) (some v)
      ≡ elim (view d k) [ none ↦ (1, d) | some _ ↦ add_element true d (some k) (some v) ]
  unfolding view
  add_element-no_memory = elim (Option-cases (lookup k (bin_of d k))) [
    | inl e ↦ ground (arith, start, add_to_chain-no_memory k v (bin_of d k), same_table)
    | inr (w, e) ↦
        ground (arith, start, add_to_chain-no_memory k v (bin_of d k), add_element-with_bin)
  ]
    where
      start : add_element false d (some k) (some v) ≡ (
        (add_to_chain false k v (bin_of d k)).0,
        with_bin d k (add_to_chain false k v (bin_of d k)).1,
      )
      start = unfold add_element in ground (arith, ht_hash-home d k valid.positive)

      same_table : with_bin d k (bin_of d k) ≡ d
      same_table =
          ap (λ (t : List Chain). record { size = d.size; table = t })
            (set-get_or d.table (home d k) [])
