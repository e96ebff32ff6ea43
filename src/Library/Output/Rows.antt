-- ===== src/Library/Output/Rows.antt =====
-- The rows of the type "all", src/reprompi_bench/benchmark_lib/results_output.c: one for each
-- repetition of each process, from the gathered times.
use mathlib.Core.List.{map}
use reprompi_dev.Prelude.{
  ℕ, ◌≡◌, refl, Bool, true, false, Option, none, some, List, get_elem?, get_or, tabulate, All,
  if◌then◌else◌, arith,
}
use reprompi_dev.Prelude.Double.{Doubles}
use reprompi_dev.Results.{Process}
use reprompi_dev.Results.Runtimes.{normalised_lem, slice_lem, on_all_lem}
use reprompi_dev.Results.Job.{HasTimes}
use reprompi_dev.Library.Row.{read_code}
use reprompi_dev.Library.Output.{Gathering, gather_codes, gather_local, gather_global}
use reprompi_dev.Library.Output.Gathered.{Gathers, Holds, gathered-Holds}

module _ {T : Type 0} (d : T) where
  -- What is measured, on the clock of a process and on the global clock
  abbrev pub measured_start : Process T → ℕ → T
  measured_start p i = get_or p.tstart_sec i d

  abbrev pub measured_end : Process T → ℕ → T
  measured_end p i = get_or p.tend_sec i d

  abbrev pub global_start : Process T → ℕ → T
  global_start p i = p.get_global_time (get_or p.tstart_sec i d)

  abbrev pub global_end : Process T → ℕ → T
  global_end p i = p.get_global_time (get_or p.tend_sec i d)

  -- the column of the codes
  abbrev pub code_of : Bool → Process T → ℕ → Option ℕ
  code_of window p i = if window then some (get_or p.errorcodes i 0) else none

  module _ (gather : Gathering T) (n : ℕ) (ps : List (Process T)) (room : All (HasTimes n) ps) where
    abbrev pub gathered : (Process T → ℕ → T) → List T
    gathered f = gather.of_doubles (map (λ q. tabulate (f q) n 0) ps)

    pub gather_local_lem :
        gather_local gather n ps ≡ some (gathered measured_start, gathered measured_end)
    unfolding gather_local HasTimes
    gather_local_lem =
        rw
          (
            on_all_lem _ (λ q. tabulate (measured_start q) n 0) (HasTimes n)
                (λ q (a, b, c). slice_lem d n 0 q.tstart_sec (omega arith)) ps room,
            on_all_lem _ (λ q. tabulate (measured_end q) n 0) (HasTimes n)
                (λ q (a, b, c). slice_lem d n 0 q.tend_sec (omega arith)) ps room,
          )
          refl

    pub gather_global_lem :
        Doubles T → gather_global gather n ps ≡ some (gathered global_start, gathered global_end)
    unfolding gather_global HasTimes
    gather_global_lem double =
        rw
          (
            on_all_lem _ (λ q. tabulate (global_start q) n 0) (HasTimes n)
                (λ q (a, b, c).
                  normalised_lem double d q.get_global_time n 0 q.tstart_sec (omega arith))
                ps room,
            on_all_lem _ (λ q. tabulate (global_end q) n 0) (HasTimes n)
                (λ q (a, b, c).
                  normalised_lem double d q.get_global_time n 0 q.tend_sec (omega arith))
                ps room,
          )
          refl

    pub gather_codes_lem :
        Gathers gather.of_ints
        → (window : Bool)
        → (codes : Option (List ℕ)) × (gather_codes gather n ps window ≡ some codes)
          × Holds (read_code codes) (code_of window) n 0 ps
    unfolding gather_codes HasTimes Holds read_code
    gather_codes_lem documented false = (none, refl, λ j p i at l. refl)
    gather_codes_lem documented true =
        let all =
          on_all_lem _ (λ q. tabulate (λ i. get_or q.errorcodes i 0) n 0) (HasTimes n)
            (λ q (a, b, c). slice_lem 0 n 0 q.errorcodes (omega arith)) ps room in
        let held : Holds
            (get_elem? (gather.of_ints (map (λ q. tabulate (λ i. get_or q.errorcodes i 0) n 0) ps)))
            (λ q i. get_or q.errorcodes i 0) n 0 ps =
          gathered-Holds (λ q i. get_or q.errorcodes i 0) n gather.of_ints documented ps in
        rw all (_, refl, λ j p i at l. rw (held j p i at l) refl)
