-- ===== src/Options/Common/Accepted.antt =====
-- The options that pass the checks of src/reprompi_bench/option_parser/parse_common_options.c, and
-- the jobs of them.
use Prim.{tt}
use mathlib.Core.Path.{subst}
use mathlib.Core.Option.{some-injective}
use reprompi_dev.Prelude.{
  ℕ, ◌<◌, ◌≡◌, ◌⊎◌, inl, inr, refl, ◌∙◌, Bool, true, ◌&&◌, ◌||◌, Option, none, some, >>=-eq-some,
  List, [], ◌∷◌, ◌++◌, length, All, ltb, arith,
}
use reprompi_dev.Prelude.Int.{ℤ, pos, ltb_ℤ, leb_ℤ}
use reprompi_dev.Prelude.Text.{Str}
use reprompi_dev.Buffers.Fit.{IsPeer}
use reprompi_dev.Options.Ranks.{inside-IsPeer}
use reprompi_dev.Options.Common.{
  Common, init_parameters, n_mpi_calls, CommonFlag, parse_common_flags, check_root, check_lists,
  check_output, parse_common_options,
}
use reprompi_dev.Options.Common.Checked.{
  not_set, IsInRange, HasSmallExponents, if_else_none, if_then_none, parse_common_flags-IsInRange,
}
use reprompi_dev.Prelude.{get_elem?, get_elem?_below}
use reprompi_dev.Buffers.Table.{CollectiveOps, collective_calls}
use reprompi_dev.Jobs.{Job, jobs_of_size, jobs_of_options}

-- What the checks let through
check_root-IsPeer :
    (nprocs : ℕ) (o o' : Common)
    → check_root nprocs o ≡ some o'
    → (o ≡ o') × IsPeer o'.root_proc nprocs
unfolding check_root
check_root-IsPeer nprocs o o' h =
    let (inside, e) =
      if_then_none (ltb_ℤ o.root_proc (pos 0) || leb_ℤ (pos nprocs) o.root_proc) (some o) o' h in
    let same : o ≡ o' = some-injective o o' e in
    (same, rw (← same) (inside-IsPeer o.root_proc nprocs inside))

-- an input file, or both lists
abbrev pub GivesJobs : Option Str → Common → Type 0
GivesJobs input o =
    ((f : Str) × (input ≡ some f)) ⊎ ((0 < length o.msize_list) × (0 < length o.list_mpi_calls))

check_lists_lem :
    (input : Option Str) (o o' : Common)
    → check_lists input o ≡ some o'
    → (o ≡ o') × GivesJobs input o
unfolding check_lists
check_lists_lem (some f) o o' h = (some-injective o o' h, inl (f, refl))
check_lists_lem none o o' h =
    let (both, e) =
      if_else_none (ltb 0 (length o.msize_list) && ltb 0 (length o.list_mpi_calls)) (some o) o' h in
    (some-injective o o' e, inr (ground (arith, both)))

-- no output file, or one that opens
abbrev pub CanWrite : (Str → Bool) → Option Str → Type 0
CanWrite opens output = (output ≡ none) ⊎ ((f : Str) × (output ≡ some f) × (opens f ≡ true))

check_output_lem :
    (opens : Str → Bool) (output : Option Str) (o o' : Common)
    → check_output opens output o ≡ some o'
    → (o ≡ o') × CanWrite opens output
unfolding check_output
check_output_lem opens none o o' h = (some-injective o o' h, inl refl)
check_output_lem opens (some f) o o' h =
    let (opened, e) = if_else_none (opens f) (some o) o' h in
    (some-injective o o' e, inr (f, refl, opened))

-- Options that are accepted, with the exponents of all intervals of message sizes below 31: the
-- root is a process, all calls are of the table and all message sizes positive, the ranks of a
-- ping-pong are two different processes if they are given, there is an input file or at least one
-- call and one message size, and the output file, if one is given, can be opened.
pub parse_common_options-IsInRange :
    (opens : Str → Bool) (nprocs : ℕ) (flags : List CommonFlag) (o : Common)
    → All HasSmallExponents flags
    → parse_common_options opens nprocs flags ≡ some o
    → IsPeer o.root_proc nprocs
      × IsInRange nprocs o
      × GivesJobs o.input_file o
      × CanWrite opens o.output_file
unfolding parse_common_options
parse_common_options-IsInRange opens nprocs flags o small h =
    let (read, parsed, e1) = >>=-eq-some (parse_common_flags nprocs flags init_parameters) _ o h in
    let (rooted, root, e2) = >>=-eq-some (check_root nprocs read) _ o e1 in
    let (listed, lists, output) = >>=-eq-some (check_lists rooted.input_file rooted) _ o e2 in
    let (same_root, peer) = check_root-IsPeer nprocs read rooted root in
    let (same_lists, jobs) = check_lists_lem rooted.input_file rooted listed lists in
    let (same_output, writes) = check_output_lem opens listed.output_file listed o output in
    let at_rooted : IsInRange nprocs rooted = rw (← same_root) (
      parse_common_flags-IsInRange nprocs flags init_parameters read small
        (record { known_calls = tt; positive_sizes = tt; ranks = not_set refl }) parsed) in
    let whole : rooted ≡ o = same_lists ∙ same_output in
    (
      subst (λ x. IsPeer x.root_proc nprocs) whole peer,
      subst (IsInRange nprocs) whole at_rooted,
      subst (λ x. GivesJobs x.input_file x) whole jobs,
      subst (λ x. CanWrite opens x.output_file) same_output writes,
    )

-- A job of a measured operation, with a size
abbrev pub CanRun : Job → Type 0
CanRun j =
    ((ops : CollectiveOps) × (get_elem? collective_calls j.call_index ≡ some ops)) × (0 < j.msize)

append-All : (P : Job → Type 0) (xs ys : List Job) → All P xs → All P ys → All P (xs ++ ys)
append-All P [] ys all more = more
append-All P (x ∷ xs) ys (p, all) more = (p, append-All P xs ys all more)

-- What holds of each size with each call holds of the jobs.
module _ (n_rep : ℤ) (S C : ℕ → Type 0) (P : Job → Type 0)
    (each : (s c : ℕ) → S s → C c → P (record { call_index = c; msize = s; n_rep = n_rep })) where
  jobs_of_size-All :
      (s : ℕ) (calls : List ℕ) → S s → All C calls → All P (jobs_of_size n_rep s calls)
  unfolding jobs_of_size
  jobs_of_size-All s [] h all = tt
  jobs_of_size-All s (c ∷ calls) h (known, all) = (each s c h known, jobs_of_size-All s calls h all)

  pub jobs_of_options-All :
      (sizes calls : List ℕ) → All S sizes → All C calls → All P (jobs_of_options n_rep sizes calls)
  unfolding jobs_of_options
  jobs_of_options-All [] calls sized known = tt
  jobs_of_options-All (s ∷ sizes) calls (h, sized) known =
      append-All P (jobs_of_size n_rep s calls) (jobs_of_options n_rep sizes calls)
        (jobs_of_size-All s calls h known) (jobs_of_options-All sizes calls sized known)

-- Every job that is generated from accepted options, with the exponents of all intervals of message
-- sizes below 31, names an operation of the table of measured functions and has a positive size.
pub accepted_jobs-CanRun :
    (opens : Str → Bool) (nprocs : ℕ) (flags : List CommonFlag) (o : Common) (n_rep : ℤ)
    → All HasSmallExponents flags
    → parse_common_options opens nprocs flags ≡ some o
    → All CanRun (jobs_of_options n_rep o.msize_list o.list_mpi_calls)
accepted_jobs-CanRun opens nprocs flags o n_rep small h =
    let (root, r, jobs, output) = parse_common_options-IsInRange opens nprocs flags o small h in
    jobs_of_options-All n_rep (λ s. 0 < s) (λ i. i < n_mpi_calls) CanRun
      (λ s c sized known. (get_elem?_below collective_calls c known, sized)) o.msize_list
      o.list_mpi_calls r.positive_sizes r.known_calls
