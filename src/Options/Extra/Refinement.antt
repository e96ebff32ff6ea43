-- ===== src/Options/Extra/Refinement.antt =====
-- The option --params of src/reprompi_bench/option_parser/parse_extra_key_value_options.c against a
-- description on maps.
use Prim.{Unit, tt}
use reprompi_dev.Prelude.{
  ◌≡◌, refl, ap, ◌∙◌, true, false, Option, Option-cases, inl, inr, none, some, ◌>>=◌, List, [], ◌∷◌,
  ◌++◌, if◌then◌else◌,
}
use reprompi_dev.Prelude.Text.{Str, same}
use reprompi_dev.Dict.{Dictionary, has_key, add_element}
use reprompi_dev.Dict.Table.{IsValid, view, has_key-view}
use reprompi_dev.Dict.Updates.{add_element-with_bin, add_element-IsValid, view-add_element}
use reprompi_dev.Options.Extra.{
  split, key_and_value, add_pair, add_pairs, parse_keyvalue_list, parse_extra_key_value_options,
}

-- A map from keys to values, and what a pair does to it: a key may be added once.
abbrev pub Map : Type 0
Map = Str → Option Str

abbrev pub insert_new : Option Str → Str → Str → Map → Option Map
insert_new (some old) key val m = none
insert_new none key val m = some (λ q. if same key q then some val else m q)

abbrev pub insert : Option (Str × Str) → Map → Option Map
insert none m = none
insert (some (key, val)) m = insert_new (m key) key val m

-- the pairs that the arguments write
abbrev pub pairs_of : List Str → List (Option (Str × Str))
pairs_of [] = []
pairs_of (token ∷ tokens) = key_and_value (split b':' token) ∷ pairs_of tokens

abbrev pub pairs_written : List (Option Str) → List (Option (Str × Str))
pairs_written [] = []
pairs_written (none ∷ options) = pairs_written options
pairs_written (some args ∷ options) = pairs_of (split b',' args) ++ pairs_written options

abbrev pub inserted : List (Option (Str × Str)) → Map → Option Map
inserted [] m = some m
inserted (p ∷ pairs) m = insert p m >>= inserted pairs

-- A dictionary stands for a map, and a failure for a failure.
unfoldable pub Represents : Option Dictionary → Option Map → Type 0
Represents none none = Unit {0}
Represents (some d) (some m) = IsValid d × ((q : Str) → view d q ≡ m q)
Represents _ _ = ⊥

-- One step after another
Represents-bind :
    (f : Dictionary → Option Dictionary) (g : Map → Option Map)
    → ((d : Dictionary) (m : Map)
        → IsValid d
        → ((q : Str) → view d q ≡ m q)
        → Represents (f d) (g m))
    → (o : Option Dictionary) (o' : Option Map) → Represents o o'
    → Represents (o >>= f) (o' >>= g)
Represents-bind f g step none none r = r
Represents-bind f g step none (some m) r = absurd (unfold Represents in r)
Represents-bind f g step (some d) none r = absurd (unfold Represents in r)
Represents-bind f g step (some d) (some m) r =
    let both : IsValid d × ((q : Str) → view d q ≡ m q) = unfold Represents in r in
    let (valid, same_map) = both in step d m valid same_map

inserted-append :
    (xs ys : List (Option (Str × Str))) (m : Map)
    → inserted (xs ++ ys) m ≡ (inserted xs m >>= inserted ys)
inserted-append [] ys m = refl
inserted-append (x ∷ xs) ys m = elim (Option-cases (insert x m)) [
  | inl failed ↦ rw failed refl
  | inr (m', done) ↦ rw done (inserted-append xs ys m')
]

module _ (out : Option Str) where
  add_pair-Represents :
      (p : Option (Str × Str)) (d : Dictionary) (m : Map)
      → IsValid d
      → ((q : Str) → view d q ≡ m q)
      → Represents (add_pair true out p d) (insert p m)
  unfolding Represents add_pair
  add_pair-Represents none d m valid same_map = tt
  add_pair-Represents (some (key, val)) d m valid same_map = elim (Option-cases (m key)) [
    | inl new ↦
        let absent : view d key ≡ none = same_map key ∙ new in
        let unknown : has_key d (some key) out ≡ false =
          has_key-view d key out valid.positive
          ∙ ap (λ o. elim o [ none ↦ false | some _ ↦ true ]) absent in
        let (ok, still) = add_element-IsValid valid key val in
        let entered : (q : Str)
            → view (add_element true d (some key) (some val)).1 q
              ≡ (if same key q then some val else m q) =
          λ q.
            rw (add_element-with_bin valid key val, view-add_element valid key val q, same_map q)
              refl in
        rw (unknown, new, ok) (still, entered)
    | inr (old, there) ↦
        let present : view d key ≡ some old = same_map key ∙ there in
        let known : has_key d (some key) out ≡ true =
          has_key-view d key out valid.positive
          ∙ ap (λ o. elim o [ none ↦ false | some _ ↦ true ]) present in
        rw (known, there) tt
  ]

  add_pairs-Represents :
      (tokens : List Str) (d : Dictionary) (m : Map)
      → IsValid d
      → ((q : Str) → view d q ≡ m q)
      → Represents (add_pairs true out tokens d) (inserted (pairs_of tokens) m)
  unfolding add_pairs
  add_pairs-Represents [] d m valid same_map = unfold Represents in (valid, same_map)
  add_pairs-Represents (token ∷ tokens) d m valid same_map =
      Represents-bind (add_pairs true out tokens) (inserted (pairs_of tokens))
        (λ d' m' valid' same'. add_pairs-Represents tokens d' m' valid' same')
        (add_pair true out (key_and_value (split b':' token)) d)
        (insert (key_and_value (split b':' token)) m)
        (add_pair-Represents (key_and_value (split b':' token)) d m valid same_map)

  -- The arguments of the options, in a valid dictionary and with memory, do what the pairs written
  -- in them do to the map of the dictionary: they fail together, at a part that is no pair or at a
  -- key that has a value already, and else the dictionary is valid and stands for the map with all
  -- pairs.
  pub parse_extra_key_value_options-Represents :
      (options : List (Option Str)) (d : Dictionary) (m : Map)
      → IsValid d
      → ((q : Str) → view d q ≡ m q)
      → Represents
          (parse_extra_key_value_options true out options d)
          (inserted (pairs_written options) m)
  unfolding parse_extra_key_value_options parse_keyvalue_list
  parse_extra_key_value_options-Represents [] d m valid same_map =
      unfold Represents in (valid, same_map)
  parse_extra_key_value_options-Represents (none ∷ options) d m valid same_map =
      parse_extra_key_value_options-Represents options d m valid same_map
  parse_extra_key_value_options-Represents (some args ∷ options) d m valid same_map =
      rw (inserted-append (pairs_of (split b',' args)) (pairs_written options) m) (
        Represents-bind (parse_extra_key_value_options true out options)
          (inserted (pairs_written options))
          (λ d' m' valid' same'.
            parse_extra_key_value_options-Represents options d' m' valid' same')
          (add_pairs true out (split b',' args) d) (inserted (pairs_of (split b',' args)) m)
          (add_pairs-Represents (split b',' args) d m valid same_map))
