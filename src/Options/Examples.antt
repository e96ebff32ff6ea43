-- ===== src/Options/Examples.antt =====
-- Concrete options, src/reprompi_bench/option_parser/.
use reprompi_dev.Prelude.{◌≡◌, refl, true, none, some, List, [], ◌∷◌, arith}
use reprompi_dev.Prelude.Int.{pos, negsuc}
use reprompi_dev.Buffers.{Params, CommonOptions, goes, init_collective_basic_info}
use reprompi_dev.Buffers.Calls.{MpiCall, execute_pingpong_Send_Recv}
use reprompi_dev.Buffers.Pingpong.{initialize_data_pingpong, cleanup_data_pingpong}
use reprompi_dev.Buffers.Fit.{AllFit}
use reprompi_dev.Buffers.Table.{entry}
use reprompi_dev.Buffers.Cycle.{HasNoBlocks}
use reprompi_dev.Options.{
  Flag, nrep, max_nrep, summary, verbose_flag, Options, parse_options, parse_pingpong_ranks,
}
use reprompi_dev.Options.Sizes.{
  SubOption, min_option, max_option, step_option, Interval, read_interval, parse_msize_interval,
  parse_msize_interval_lem,
}
use reprompi_dev.Options.Ranks.{parsed_ranks_run}

-- --nrep=5 --summary=mean,max -v
abbrev flags : List Flag
flags = nrep (some (pos 5)) ∷ summary (some (pos 0 ∷ pos 3 ∷ [])) ∷ verbose_flag ∷ []

abbrev read_options : Options
read_options = record { n_rep = 5; verbose = 1; print_summary_methods = 9; max_n_rep = 5 }

too_small : parse_options (nrep (some (pos 5)) ∷ max_nrep (some (pos 4)) ∷ []) ≡ none
unfolding parse_options reprompi_dev.Options.parse_flags reprompi_dev.Options.parse_flag
    reprompi_dev.Options.positive reprompi_dev.Options.check_max_nrep
too_small = refl

not_positive : parse_options (nrep (some (negsuc 0)) ∷ []) ≡ none
unfolding parse_options reprompi_dev.Options.parse_flags reprompi_dev.Options.parse_flag
    reprompi_dev.Options.positive
not_positive = refl

abbrev opts : CommonOptions
opts = record {
  datatype = 0;
  operation = 0;
  root_proc = negsuc 0;
  pingpong_src = pos 3;
  pingpong_dst = pos 0;
}

abbrev blank : Params
blank = record {
  count = 0;
  sbuf = none;
  rbuf = none;
  tmp_buf = none;
  nprocs = 0;
  root = 0;
  datatype = 0;
  datatype_extent = 0;
  op = 0;
  rank = 0;
  scount = 0;
  rcount = 0;
  counts_array = none;
  displ_array = none;
  pingpong_src = pos 0;
  pingpong_dst = pos 0;
}

-- --pingpong-ranks=3,0
ranks_read : parse_pingpong_ranks 4 (some (pos 3) ∷ some (pos 0) ∷ []) ≡ some (pos 3, pos 0)
unfolding parse_pingpong_ranks reprompi_dev.Options.read_ranks reprompi_dev.Options.to_int
    reprompi_dev.Options.two_different
ranks_read = refl

three_ranks : parse_pingpong_ranks 4 (some (pos 3) ∷ some (pos 0) ∷ some (pos 1) ∷ []) ≡ none
unfolding parse_pingpong_ranks reprompi_dev.Options.read_ranks reprompi_dev.Options.to_int
three_ranks = refl

-- A number that does not fit an `int` is cut down to one.
wrapped_rank :
    parse_pingpong_ranks 4 (some (pos 4294967299) ∷ some (pos 0) ∷ []) ≡ some (pos 3, pos 0)
unfolding parse_pingpong_ranks reprompi_dev.Options.read_ranks reprompi_dev.Options.to_int
    reprompi_dev.Options.two_different
wrapped_rank = refl

parsed_ranks_run_example :
    (q : Params) × (calls : List MpiCall) × (initialize_data_pingpong
        (λ t. 4)
        (λ k n. true)
        3
        (init_collective_basic_info opts 4)
        6
        blank
      ≡ goes q)
    × (execute_pingpong_Send_Recv q ≡ goes calls)
    × AllFit (λ t. 4) 4 3 calls
    × HasNoBlocks (cleanup_data_pingpong q)
parsed_ranks_run_example =
    parsed_ranks_run (some (pos 3) ∷ some (pos 0) ∷ []) opts 4 ranks_read 12
      (entry execute_pingpong_Send_Recv initialize_data_pingpong cleanup_data_pingpong) refl
      (λ t. 4) (λ k n. true) 3 6 blank (λ k n. refl) (omega arith) (omega arith)

-- --msize-interval=min=1,max=8,step=3
abbrev sub_options : List SubOption
sub_options =
    min_option (some (pos 1)) ∷ max_option (some (pos 8)) ∷ step_option (some (pos 3)) ∷ []

abbrev interval : Interval
interval = record { lower = 1; upper = 8; step = 3 }

interval_read :
    read_interval sub_options (record { lower = 0; upper = 0; step = 1 }) ≡ some interval
unfolding read_interval reprompi_dev.Options.positive
interval_read = refl

-- An exponent of 31 shifts a bit out of the `int`.
too_wide : parse_msize_interval (max_option (some (pos 31)) ∷ []) ≡ none
unfolding parse_msize_interval read_interval reprompi_dev.Options.positive
    reprompi_dev.Options.Sizes.fill_sizes reprompi_dev.Options.Sizes.shift_one
    reprompi_dev.Options.Sizes.add_long reprompi_dev.Options.Sizes.n_msize
too_wide = refl

parse_msize_interval_lem_example : parse_msize_interval sub_options ≡ some (2 ∷ 16 ∷ 128 ∷ [])
parse_msize_interval_lem_example =
    parse_msize_interval_lem sub_options interval interval_read (omega arith) (omega arith)
      (omega arith)
