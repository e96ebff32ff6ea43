-- ===== src/Options/Extra.antt =====
-- The option --params, src/reprompi_bench/option_parser/parse_extra_key_value_options.c: pairs of keys
-- and values that go into a dictionary. An exit with an error is `none`; `alloc` says whether
-- memory suffices, and `out` is what `*value` holds in `reprompib_dict_has_key`.
pub mod Refinement
mod Examples
use reprompi_dev.Prelude.{
  ℕ, Bool, true, false, Option, none, some, ◌>>=◌, List, [], ◌∷◌, ◌++◌, ◌==◌, if◌then◌else◌,
}
use reprompi_dev.Prelude.Text.{Str}
use reprompi_dev.Dict.{Dictionary, has_key, add_element}

-- the parts that `strtok_r` finds between a character, none of them empty, with the part begun before
abbrev pub part : Str → List Str
part [] = []
part (c ∷ begun) = (c ∷ begun) ∷ []

unfoldable pub split_from : ℕ → Str → Str → List Str
split_from separator begun [] = part begun
split_from separator begun (c ∷ str) =
    let behind = split_from separator [] str in
    let longer = split_from separator (begun ++ c ∷ []) str in
    if c == separator then part begun ++ behind else longer

abbrev pub split : ℕ → Str → List Str
split separator str = split_from separator [] str

-- the first two parts of a token, which may have more
abbrev pub key_and_value : List Str → Option (Str × Str)
key_and_value (key ∷ val ∷ parts) = some (key, val)
key_and_value parts = none

module _ (alloc : Bool) (out : Option Str) where
  -- the body of the loop, for a token with its key and value
  unfoldable pub add_pair : Option (Str × Str) → Dictionary → Option Dictionary
  add_pair none dict = none
  add_pair (some (key, val)) dict =
      if has_key dict (some key) out
      then none
      else (let (ok, added) = add_element alloc dict (some key) (some val) in
          if ok == 0 then some added else none)

  -- the loop over the tokens
  unfoldable pub add_pairs : List Str → Dictionary → Option Dictionary
  add_pairs [] dict = some dict
  add_pairs (token ∷ tokens) dict = do
    added ← add_pair (key_and_value (split b':' token)) dict
    add_pairs tokens added

  -- `parse_keyvalue_list`; without an argument there is nothing to do.
  unfoldable pub parse_keyvalue_list : Option Str → Dictionary → Option Dictionary
  parse_keyvalue_list none dict = some dict
  parse_keyvalue_list (some args) dict = add_pairs (split b',' args) dict

  -- `reprompib_parse_extra_key_value_options`, over the arguments of its option
  unfoldable pub parse_extra_key_value_options : List (Option Str) → Dictionary → Option Dictionary
  parse_extra_key_value_options [] dict = some dict
  parse_extra_key_value_options (args ∷ options) dict = do
    added ← parse_keyvalue_list args dict
    parse_extra_key_value_options options added
