-- ===== src/Pingpong.antt =====
-- How two processes run the calls of a ping-pong of src/collective_ops/pingpong.c, as MPI
-- documents them, when it buffers no message: a send ends only when the receive that it
-- matches has started.

pub mod Progress
mod Rounds
mod Examples
use reprompi_dev.Prelude.{
  ℕ, zero, suc, ◌≡◌, Bool, true, false, ◌&&◌, not, Option, none, some, List, [], ◌∷◌, ◌++◌, ltb,
  ◌==◌, if◌then◌else◌,
}
use reprompi_dev.Prelude.Int.{ℤ, pos, eqb_ℤ}
use reprompi_dev.Buffers.{Params, Outcome, stopped, goes}
use reprompi_dev.Buffers.Calls.{
  MpiCall, Execution, send, recv, isend, irecv, wait_for, wait_all, sendrecv,
}

pub data Kind : Type 0 where
  sending : Kind
  receiving : Kind

-- what a call does in order: start an operation, or wait until one has ended
pub data Action : Type 0 where
  start : Kind → Action
  wait : Kind → Action

-- the requests that are open, with what each is for
abbrev pub Requests : Type 0
Requests = List (ℕ × Kind)

-- the waits for the requests that a test selects
abbrev waits : (ℕ → Bool) → Requests → List Action
waits chosen [] = []
waits chosen ((q, k) ∷ reqs) =
    let rest = waits chosen reqs in if chosen q then wait k ∷ rest else rest

abbrev prefix : List Action → Option (List Action) → Option (List Action)
prefix acts none = none
prefix acts (some bs) = some (acts ++ bs)

-- The actions of a sequence of calls with one peer; `none` for a call with another process
-- or one that is no call of a ping-pong.
unfoldable pub actions : ℤ → Requests → List MpiCall → Option (List Action)
actions peer reqs [] = some []
actions peer reqs (send b c t dst ∷ calls) =
    let rest = actions peer reqs calls in
    if eqb_ℤ dst peer then prefix (start sending ∷ wait sending ∷ []) rest else none
actions peer reqs (recv b c t src ∷ calls) =
    let rest = actions peer reqs calls in
    if eqb_ℤ src peer then prefix (start receiving ∷ wait receiving ∷ []) rest else none
actions peer reqs (isend b c t dst q ∷ calls) =
    let rest = actions peer (reqs ++ (q, sending) ∷ []) calls in
    if eqb_ℤ dst peer then prefix (start sending ∷ []) rest else none
actions peer reqs (irecv b c t src q ∷ calls) =
    let rest = actions peer (reqs ++ (q, receiving) ∷ []) calls in
    if eqb_ℤ src peer then prefix (start receiving ∷ []) rest else none
actions peer reqs (wait_for q ∷ calls) = prefix (waits (λ r. r == q) reqs) (actions peer reqs calls)
actions peer reqs (wait_all n ∷ calls) =
    prefix (waits (λ r. ltb r n) reqs) (actions peer reqs calls)
actions peer reqs (sendrecv s sc st dst r rc rt src ∷ calls) =
    let rest = actions peer reqs calls in
    if eqb_ℤ dst peer && eqb_ℤ src peer
    then prefix (start sending ∷ start receiving ∷ wait sending ∷ wait receiving ∷ []) rest
    else none
actions peer reqs (call ∷ calls) = none

-- A process: what it has left to do, and whether a send or a receive of it is under way
pub record Process : Type 0 where
  pub program : List Action
  pub sends : Bool
  pub receives : Bool

-- The next action of a process alone, `none` if it waits or has ended. No process has two
-- sends or two receives under way.
unfoldable pub act : List Action → Bool → Bool → Option Process
act [] s r = none
act (start sending ∷ rest) false r = some (record { program = rest; sends = true; receives = r })
act (start receiving ∷ rest) s false = some (record { program = rest; sends = s; receives = true })
act (wait sending ∷ rest) false r = some (record { program = rest; sends = false; receives = r })
act (wait receiving ∷ rest) s false = some (record { program = rest; sends = s; receives = false })
act _ s r = none

abbrev pub State : Type 0
State = Process × Process

-- a message passes from the first process to the second, or nothing happens
unfoldable pub pass : Process → Process → Option State
pass p q =
    if p.sends && q.receives
    then some (record p { sends = false }, record q { receives = false })
    else none

module _ {A B : Type 0} where
  abbrev pub list_of : (A → B) → Option A → List B
  list_of f none = []
  list_of f (some a) = f a ∷ []

abbrev swap : State → State
swap (p, q) = (q, p)

-- every state that one step leads to
unfoldable pub successors : State → List State
successors (p, q) =
    list_of (λ p'. (p', q)) (act p.program p.sends p.receives)
    ++ list_of (λ q'. (p, q')) (act q.program q.sends q.receives)
    ++ list_of (λ s. s) (pass p q)
    ++ list_of swap (pass q p)

abbrev ended : Process → Bool
ended p = elim p.program [ [] ↦ not p.sends && not p.receives | a ∷ acts ↦ false ]

-- Both programs have ended and no message is under way.
unfoldable pub finished : State → Bool
finished (p, q) = ended p && ended q

-- a process before its first action
abbrev pub fresh : List Action → Process
fresh acts = record { program = acts; sends = false; receives = false }

-- the actions of the process of rank `me` in an operation, with its peer
unfoldable pub side : Execution → Params → ℕ → ℕ → Option (List Action)
side call p me peer = elim (call (record p { rank = me })) [
  | stopped s ↦ none
  | goes calls ↦ actions (pos peer) [] calls
]

-- the two processes of an operation before their first action
unfoldable pub pair : Option (List Action) → Option (List Action) → Option State
pair (some a) (some b) = some (fresh a, fresh b)
pair _ _ = none
