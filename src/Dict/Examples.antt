-- ===== src/Dict/Examples.antt =====
-- Runs of the dictionary functions, and the theorems at concrete dictionaries.
use reprompi_dev.Prelude.{
  ◌≡◌, refl, ◌<◌, true, none, some, [], ◌∷◌, arith, if◌then◌else◌, ◌&&◌, ◌||◌, ◌==◌,
}
use reprompi_dev.Prelude.Int.{pos}
use reprompi_dev.Prelude.Text.{Str, same}
use reprompi_dev.Dict.{
  Dictionary, init_dictionary, add_element, get_value, remove_element, get_nkeys, ht_hash,
  add_to_chain, walk, place, link, unlink, found_value, count_table, count_chain,
}
use reprompi_dev.Dict.Hash.{hash_key}
use reprompi_dev.Dict.Chain.{lookup}
use reprompi_dev.Dict.Table.{IsValid, view, init_dictionary-IsValid, home, bin_of}
use reprompi_dev.Dict.Updates.{add_element-IsValid, get_value-add_element}
use reprompi_dev.Dict.Removal.{get_value-remove_element, heads}

abbrev zeroed : Dictionary
zeroed = record { size = 0; table = [] }

abbrev key_a : Str
key_a = b'a' ∷ []

abbrev key_b : Str
key_b = b'b' ∷ []

abbrev value_x : Str
value_x = b'x' ∷ []

abbrev value_y : Str
value_y = b'y' ∷ []

-- a dictionary with one bin, so that its keys share it
abbrev one_bin : Dictionary
one_bin = (init_dictionary true zeroed (pos 1)).1

abbrev with_a : Dictionary
with_a = (add_element true one_bin (some key_a) (some value_x)).1

abbrev with_both : Dictionary
with_both = (add_element true with_a (some key_b) (some value_y)).1

one_bin-IsValid : IsValid one_bin
one_bin-IsValid = (init_dictionary-IsValid zeroed 0).2

with_a-IsValid : IsValid with_a
with_a-IsValid = (add_element-IsValid one_bin-IsValid key_a value_x).1

with_both-IsValid : IsValid with_both
with_both-IsValid = (add_element-IsValid with_a-IsValid key_b value_y).1

-- The key at the end of the bin goes alone.
remove_last :
    get_value (remove_element with_both (some key_b)).1 (some key_a) none ≡ (0, some value_x)
unfolding init_dictionary add_element get_value remove_element ht_hash hash_key add_to_chain walk
    place link same unlink found_value
remove_last = refl

-- The key at the head of the bin takes the other one with it.
remove_first :
    (get_value with_both (some key_b) none ≡ (0, some value_y))
    × (get_value (remove_element with_both (some key_a)).1 (some key_b) none ≡ (1, none))
unfolding init_dictionary add_element get_value remove_element ht_hash hash_key add_to_chain walk
    place link same unlink found_value
remove_first = (refl, refl)

view_a : view with_both key_a ≡ some value_x
unfolding init_dictionary add_element ht_hash hash_key add_to_chain walk place link same view lookup
view_a = refl

nkeys_both : 0 < get_nkeys with_both
unfolding init_dictionary add_element ht_hash hash_key add_to_chain walk place link same get_nkeys
    count_table count_chain
nkeys_both = omega arith

get_value-add_element_example :
    get_value with_both (some key_a) none
    ≡ (if same key_b key_a then (0, some value_y) else get_value with_a (some key_a) none)
get_value-add_element_example = get_value-add_element with_a-IsValid key_b value_y key_a none

get_value-remove_element_example :
    get_value (remove_element with_both (some key_a)).1 (some key_b) none ≡ (
      if same key_a key_b
        || (heads key_a (bin_of with_both key_a) && home with_both key_a == home with_both key_b)
      then (1, none)
      else get_value with_both (some key_b) none)
get_value-remove_element_example =
    get_value-remove_element with_both-IsValid key_a value_x view_a key_b none
