-- ===== src/Dict/Removal.antt =====
-- Removing an element: what is unlinked, and what goes with it.
use reprompi_dev.Prelude.{
  ◌≤◌, ◌≡◌, refl, Bool, false, ◌&&◌, ◌||◌, Option, none, some, [], ◌∷◌, arith, if◌then◌else◌, ◌==◌,
  inl, inr, Option-cases,
}
use reprompi_dev.Prelude.Text.{Str, same, same_iff}
use reprompi_dev.Dict.{Chain, Dictionary, remove_element, get_value}
use reprompi_dev.Dict.Chain.{
  lookup, count, removed, unlink-eq-removed, lookup-without, count-removed-le,
}
use reprompi_dev.Dict.Table.{
  home, bin_of, IsValid, view, ht_hash-home, get_value-view, with_bin, view-with_bin,
  with_bin-IsValid,
}

-- the key of the first entry of a bin
unfoldable pub heads : Str → Chain → Bool
heads k [] = false
heads k (e ∷ c) = same k e.key

lookup-removed :
    (k q : Str) (c : Chain)
    → count q c ≤ 1
    → lookup q (removed k c) ≡ (if heads k c || same k q then none else lookup q c)
unfolding removed lookup heads count
lookup-removed k q [] h = ground arith
lookup-removed k q (e ∷ c) h =
    ground (arith, lookup-without k q c, same_iff k e.key, same_iff q e.key, same_iff k q)

module _ {d : Dictionary} (valid : IsValid d) (k : Str) where
  remove_element-with_bin :
      remove_element d (some k)
      ≡ elim (view d k) [ none ↦ (1, d) | some _ ↦ (0, with_bin d k (removed k (bin_of d k))) ]
  unfolding view
  remove_element-with_bin =
      unfold remove_element in
      ground (arith, ht_hash-home d k valid.positive, unlink-eq-removed k (bin_of d k))

  -- Removing from a valid dictionary keeps the invariant. It returns 0 exactly if the key has a value.
  pub remove_element-IsValid :
      IsValid (remove_element d (some k)).1
      × ((remove_element d (some k)).0 ≡ elim (view d k) [ none ↦ 1 | some _ ↦ 0 ])
  remove_element-IsValid = elim (Option-cases (view d k)) [
    | inl e ↦ rw (remove_element-with_bin, e) (valid, refl)
    | inr (v, e) ↦
        rw (remove_element-with_bin, e)
          (
            with_bin-IsValid valid k (removed k (bin_of d k)) λ q. (
              omega (arith, count-removed-le k q (bin_of d k), (valid.placed q (home d k)).0),
              λ n.
                  omega (arith, count-removed-le k q (bin_of d k), (valid.placed q (home d k)).1 n),
            ),
            refl,
          )
  ]

  -- After the removal from a valid dictionary of a key that has a value, the get function fails at
  -- that key, and at every key of the same bin if the removed entry was the bin's first; all other
  -- keys keep their values.
  pub get_value-remove_element :
      (v : Str)
      → view d k ≡ some v
      → (q : Str) (out : Option Str)
      → get_value (remove_element d (some k)).1 (some q) out ≡ (
          if same k q || (heads k (bin_of d k) && home d k == home d q)
          then (1, none)
          else get_value d (some q) out)
  get_value-remove_element v e q out = ground (
    arith,
    remove_element-with_bin,
    get_value-view (with_bin d k (removed k (bin_of d k))) q out valid.positive,
    get_value-view d q out valid.positive,
    view-with_bin valid k (removed k (bin_of d k)) q,
    view_at_home,
    lookup-removed k q (bin_of d k),
    valid.placed q (home d k),
    same_iff k q,
  )
    where
      view_at_home : home d k ≡ home d q → view d q ≡ lookup q (bin_of d k)
      view_at_home h = unfold view in rw h

  -- Removing a key that has no value returns 1 and changes nothing.
  pub remove_element_absent : view d k ≡ none → remove_element d (some k) ≡ (1, d)
  remove_element_absent e = ground (arith, remove_element-with_bin)
