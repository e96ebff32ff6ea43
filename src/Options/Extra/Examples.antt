-- ===== src/Options/Extra/Examples.antt =====
-- Pairs of keys and values on the command line.
use reprompi_dev.Prelude.{◌≡◌, refl, true, Option, none, some, List, [], ◌∷◌}
use reprompi_dev.Prelude.Int.{pos}
use reprompi_dev.Prelude.Text.{Str, ascii}
use reprompi_dev.Dict.{Dictionary, init_dictionary}
use reprompi_dev.Dict.Table.{init_dictionary-IsValid}
use reprompi_dev.Options.Extra.{split, key_and_value, parse_extra_key_value_options}
use reprompi_dev.Options.Extra.Refinement.{
  Represents, inserted, pairs_written, parse_extra_key_value_options-Represents,
}

abbrev options : List (Option Str)
options = some (ascii "node:n1,,part:p:x") ∷ none ∷ some (ascii "run:7") ∷ []

pairs_found :
    pairs_written options
    ≡ some (ascii "node", ascii "n1")
      ∷ some (ascii "part", ascii "p")
      ∷ some (ascii "run", ascii "7")
      ∷ []
unfolding reprompi_dev.Options.Extra.split_from
pairs_found = refl

abbrev empty_dictionary : Dictionary
empty_dictionary = (init_dictionary true (record { size = 0; table = [] }) (pos 100)).1

parse_extra_key_value_options-Represents_example :
    Represents
      (parse_extra_key_value_options true none options empty_dictionary)
      (inserted (pairs_written options) (λ q. none))
parse_extra_key_value_options-Represents_example =
    parse_extra_key_value_options-Represents none options empty_dictionary (λ q. none)
      (init_dictionary-IsValid (record { size = 0; table = [] }) 99).2
      (init_dictionary-IsValid (record { size = 0; table = [] }) 99).3
