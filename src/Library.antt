-- ===== src/Library.antt =====
-- The benchmark as a library, src/reprompi_bench/benchmark_lib/reproMPIbenchmark.c: the arguments
-- that an environment variable puts in place of those of the program, and the jobs with the
-- variables that a user adds to them. A `char*` that is not set or freed is `none`.
pub mod Argc
pub mod Override
pub mod UserVars
pub mod Copy
pub mod Row
pub mod Output
pub mod Summary
pub mod Settings
mod Examples
use reprompi_dev.Prelude.{
  ℕ, zero, suc, ◌+◌, ◌-◌, ◌%◌, Bool, true, false, ◌&&◌, not, Option, none, some, ◌>>=◌, List, [],
  ◌∷◌, ◌++◌, length, set, replicate, ltb, ◌==◌, take, if◌then◌else◌,
}
use reprompi_dev.Prelude.Int.{ℤ}
use reprompi_dev.Prelude.Text.{Str}

-- the variables of `compute_argc`
pub record Scan : Type 0 where
  pub cnt : ℕ
  pub white : Bool
  pub seenword : Bool

-- the body of its loop, for the character `c`, which is the last one or not
unfoldable pub scan : Bool → ℕ → Scan → Scan
scan is_last c s = if c == b' ' then record s { white = true } else record {
  cnt =
      if is_last && not s.white
      then s.cnt + 1
      else if s.white
      then (if s.seenword then s.cnt + 1 else s.cnt)
      else s.cnt;
  white = false;
  seenword = true;
}

abbrev pub is_nil : Str → Bool
is_nil [] = true
is_nil (c ∷ s) = false

unfoldable pub scan_all : Str → Scan → ℕ
scan_all [] s = s.cnt
scan_all (c ∷ str) s = scan_all str (scan (is_nil str) c s)

-- `compute_argc`
unfoldable pub compute_argc : Str → ℕ
compute_argc str = scan_all str (record { cnt = 0; white = false; seenword = false })

-- a word that `strtok` has found, if it is not empty
abbrev pub flush : Str → List Str
flush [] = []
flush (c ∷ word) = (c ∷ word) ∷ []

-- what `strtok(str, " ")` and then `strtok(NULL, " ")` return, with the word begun before
unfoldable pub tokens_from : Str → Str → List Str
tokens_from word [] = flush word
tokens_from word (c ∷ str) =
    let ended = tokens_from [] str in
    let longer = tokens_from (word ++ c ∷ []) str in
    if c == b' ' then flush word ++ ended else longer

abbrev pub tokens : Str → List Str
tokens str = tokens_from [] str

-- `argv`: an entry that is not written yet is `none`
abbrev pub Argv : Type 0
Argv = List (Option Str)

-- a write to the array; `none` is a write out of bounds
unfoldable pub put : {V : Type 0} → List (Option V) → ℕ → V → Option (List (Option V))
put array i v = if ltb i (length array) then some (set array i (some v)) else none

-- the loop over the entries from `i` on, `n` of them; `strtok` returns NULL at the end
unfoldable pub put_rest : ℕ → ℕ → List Str → Argv → Option Argv
put_rest zero i words argv = some argv
put_rest (suc n) i [] argv = put_rest n (i + 1) [] argv
put_rest (suc n) i (word ∷ words) argv = do argv' ← put argv i word; put_rest n (i + 1) words argv'

-- the first token, if there is one, and the loop
unfoldable pub put_tokens : ℕ → List Str → Argv → Option Argv
put_tokens argc [] argv = some argv
put_tokens argc (word ∷ words) argv = do argv' ← put argv 1 word; put_rest (argc - 2) 2 words argv'

-- `reprompi_check_and_override_lib_env_params`, with the value of REPROMPI_LIB_PARAMS
unfoldable pub check_and_override_lib_env_params : Option Str → Str → ℕ → Argv → Option (ℕ × Argv)
check_and_override_lib_env_params none argv0 argc argv = some (argc, argv)
check_and_override_lib_env_params (some env) argv0 argc argv = do
  let argc' = compute_argc env + 1
  argvnew ← put (replicate argc' none) 0 argv0
  filled ← put_tokens argc' (tokens env) argvnew
  some (argc', filled)

abbrev pub n_user_vars : ℕ
n_user_vars = 4

-- The variables of a kind, text or integers, that a user adds to a job: an array and that of their
-- names, which are `none` for NULL.
pub record Vars (V : Type 0) : Type 0 where
  pub n_user : ℕ
  pub user : Option (List (Option V))
  pub names : Option (List (Option Str))

pub record JobInfo (T : Type 0) : Type 0 where
  pub n_rep : ℕ
  pub tstart_sec : List T
  pub tend_sec : List T
  pub timername : Option Str
  pub timertype : Option Str
  pub op : Option Str
  pub ivars : Vars ℤ
  pub svars : Vars Str

-- `realloc`, which keeps what fits; of NULL, it allocates
abbrev pub realloc : {V : Type 0} → ℕ → Option (List (Option V)) → List (Option V)
realloc size none = replicate size none
realloc size (some array) = take size array ++ replicate (size - length array) none

-- the array before the next entry is written: with N_USER_VARS more places if the number of entries
-- is a multiple of it
unfoldable pub grown : {V : Type 0} → ℕ → Option (List (Option V)) → Option (List (Option V))
grown n array = if n % n_user_vars == 0 then some (realloc (n + n_user_vars) array) else array

-- `reprompib_add_svar_to_job` and `reprompib_add_ivar_to_job`, on the variables of their kind
unfoldable pub add_var : {V : Type 0} → Str → V → Vars V → Option (Vars V)
add_var name v s = do
  old_user ← grown s.n_user s.user
  old_names ← grown s.n_user s.names
  user ← put old_user s.n_user v
  names ← put old_names s.n_user name
  some (record { n_user = s.n_user + 1; user = some user; names = some names })

abbrev pub add_svar_to_job : {T : Type 0} → Str → Str → JobInfo T → Option (JobInfo T)
add_svar_to_job name s job = do
  svars ← add_var name s job.svars
  some (record job { svars = svars })

abbrev pub add_ivar_to_job : {T : Type 0} → Str → ℤ → JobInfo T → Option (JobInfo T)
add_ivar_to_job name v job = do
  ivars ← add_var name v job.ivars
  some (record job { ivars = ivars })

abbrev pub no_vars : {V : Type 0} → Vars V
no_vars = record { n_user = 0; user = none; names = none }

-- `reprompib_initialize_job`
unfoldable pub initialize_job : {T : Type 0} → ℕ → List T → List T → Str → Str → Str → JobInfo T
initialize_job nrep tstart tend operation timername timertype = record {
  n_rep = nrep;
  tstart_sec = tstart;
  tend_sec = tend;
  timername = some timername;
  timertype = some timertype;
  op = some operation;
  ivars = no_vars;
  svars = no_vars;
}

-- the entries that are freed, of an array that is kept
abbrev pub freed : {V : Type 0} → ℕ → List (Option V) → List (Option V)
freed zero array = array
freed (suc n) [] = []
freed (suc n) (v ∷ array) = none ∷ freed n array

abbrev pub freed_names : ℕ → Option (List (Option Str)) → Option (List (Option Str))
freed_names n none = none
freed_names n (some array) = some (freed n array)

-- What `reprompib_cleanup_job` does to the variables of a kind: the array of the names is neither
-- freed nor set to NULL.
unfoldable pub cleanup_vars : {V : Type 0} → Vars V → Vars V
cleanup_vars s = elim s.user [
  | none ↦ s
  | some a ↦ record s { n_user = 0; user = none; names = freed_names s.n_user s.names }
]

unfoldable pub cleanup_job : {T : Type 0} → JobInfo T → JobInfo T
cleanup_job job = record job {
  timername = none;
  timertype = none;
  op = none;
  ivars = cleanup_vars job.ivars;
  svars = cleanup_vars job.svars;
}
