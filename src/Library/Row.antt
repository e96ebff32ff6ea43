-- ===== src/Library/Row.antt =====
-- The rows of a job and their columns: src/reprompi_bench/benchmark_lib/results_output.c.
use reprompi_dev.Prelude.{ℕ, zero, suc, ◌+◌, Option, none, some, ◌>>=◌, List, [], ◌∷◌, get_elem?}
use reprompi_dev.Prelude.Int.{ℤ}
use reprompi_dev.Prelude.Text.{Str}
use reprompi_dev.Library.{JobInfo}

-- the loop over the variables of a kind, `n` of them from the `j`-th on
unfoldable pub read_vars : {V : Type 0} → ℕ → ℕ → Option (List (Option V)) → Option (List V)
read_vars zero j array = some []
read_vars (suc n) j array = do
  entries ← array
  entry ← get_elem? entries j
  v ← entry
  rest ← read_vars n (j + 1) array
  some (v ∷ rest)

-- the first columns of a row
unfoldable pub user_columns : {T : Type 0} → JobInfo T → Option (List Str × List ℤ)
user_columns job = do
  svars ← read_vars job.svars.n_user 0 job.svars.user
  ivars ← read_vars job.ivars.n_user 0 job.ivars.user
  some (svars, ivars)

-- the column behind the name: the type of the timer, or a process
pub data Column : Type 0 where
  timer_type : Option Str → Column
  process : ℕ → Column

pub record RuntimeRow (T : Type 0) : Type 0 where
  pub user : List Str × List ℤ
  pub timername : Option Str
  pub column : Column
  pub errorcode : Option ℕ
  pub rep : ℕ
  pub runtime_sec : T

-- a row with `verbose`; the global times are there only with codes
pub record TimesRow (T : Type 0) : Type 0 where
  pub user : List Str × List ℤ
  pub timername : Option Str
  pub proc_id : ℕ
  pub rep : ℕ
  pub errorcode : Option ℕ
  pub local_start_sec : T
  pub local_end_sec : T
  pub global_sec : Option (T × T)

pub data Printed (T : Type 0) : Type 0 where
  runtimes : List (RuntimeRow T) → Printed T
  times : List (TimesRow T) → Printed T

-- the code of a row, if there are codes
unfoldable pub read_code : Option (List ℕ) → ℕ → Option (Option ℕ)
read_code none i = some none
read_code (some codes) i = do code ← get_elem? codes i; some (some code)

-- The rows of `n` repetitions from `i` on, whose values stand from `start` on
unfoldable pub runtime_rows :
    {T : Type 0}
    → JobInfo T
    → Column
    → List T
    → Option (List ℕ)
    → ℕ
    → ℕ
    → ℕ
    → Option (List (RuntimeRow T))
runtime_rows job column max_runtimes codes start zero i = some []
runtime_rows job column max_runtimes codes start (suc n) i = do
  user ← user_columns job
  code ← read_code codes (start + i)
  x ← get_elem? max_runtimes (start + i)
  rest ← runtime_rows job column max_runtimes codes start n (i + 1)
  some (
      record {
        user = user;
        timername = job.timername;
        column = column;
        errorcode = code;
        rep = i;
        runtime_sec = x;
      }
      ∷ rest)
