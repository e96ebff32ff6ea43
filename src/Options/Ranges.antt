-- ===== src/Options/Ranges.antt =====
-- What the options hold after they were parsed, by
-- src/reprompi_bench/option_parser/parse_options.c and parse_common_options.c.
use reprompi_dev.Prelude.{Bool, true, false, Option, List, [], ◌∷◌}
use reprompi_dev.Options.{Flag, summary, Options}

-- Some option asks for a summary.
abbrev pub asks_summary : List Flag → Bool
asks_summary [] = false
asks_summary (summary s ∷ flags) = true
asks_summary (f ∷ flags) = asks_summary flags
