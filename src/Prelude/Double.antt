-- ===== src/Prelude/Double.antt =====
-- The operations on `double` that the synchronisation modules use, on any type of times.
use mathlib.Core.Bool.{Bool}

pub record Doubles (T : Type 0) : Type 0 where
  pub plus : T → T → T
  pub minus : T → T → T
  pub times : T → T → T
  pub le : T → T → Bool
  pub lt : T → T → Bool
