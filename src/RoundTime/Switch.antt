-- ===== src/RoundTime/Switch.antt =====
-- The switch from agreed start times to barriers, over the jobs of a run.
use reprompi_dev.Prelude.{
  ◌≡◌, Bool, true, false, some, List, [], ◌∷◌, arith, if◌then◌else◌, ◌&&◌, ◌||◌, leb,
}
use reprompi_dev.Prelude.Int.{ℤ, pos, negsuc, ltb_ℤ, leb_ℤ}
use reprompi_dev.Prelude.Double.{Doubles}
use reprompi_dev.Measure.{SyncParams}
use reprompi_dev.RoundTime.{Surroundings, RoundTime, init_synchronization}

-- a job of at least `switch_count` elements, where that is not negative
abbrev pub is_large : ℤ → SyncParams → Bool
is_large (pos n) p = leb n p.count
is_large (negsuc n) p = false

abbrev pub any_large : ℤ → List SyncParams → Bool
any_large n [] = false
any_large n (p ∷ ps) = is_large n p || any_large n ps

switch_test :
    (n : ℤ) (p : SyncParams) → (ltb_ℤ (negsuc 0) n && leb_ℤ n (pos p.count)) ≡ is_large n p
switch_test (pos n) p = ground arith
switch_test (negsuc n) p = ground arith

module _ {T : Type 0} (double : Doubles T) (env : Surroundings T) where
  -- the initialisations of several jobs, one after the other
  unfoldable pub init_all : List SyncParams → RoundTime T → RoundTime T
  init_all [] s = s
  init_all (p ∷ ps) s = init_all ps (init_synchronization double env (some p) s)

  abbrev IsMode : Bool → RoundTime T → Type 0
  IsMode b s = s.barrier_sync_mode ≡ (if b then 1 else 0)

  one_job :
      (p : SyncParams) (s : RoundTime T) (b : Bool)
      → IsMode b s
      → IsMode (b || is_large s.switch_count p) (init_synchronization double env (some p) s)
        × ((init_synchronization double env (some p) s).switch_count ≡ s.switch_count)
  unfolding init_synchronization
  one_job p s b h = ground (arith, switch_test s.switch_count p)

  any_large_lem :
      (ps : List SyncParams) (s : RoundTime T) (b : Bool)
      → IsMode b s
      → IsMode (b || any_large s.switch_count ps) (init_all ps s)
  unfolding init_all
  any_large_lem [] s true h = h
  any_large_lem [] s false h = h
  any_large_lem (p ∷ ps) s b h =
      let (h', e) = one_job p s b h in
      let q =
        any_large_lem ps (init_synchronization double env (some p) s)
          (b || is_large s.switch_count p) h' in
      ground (arith, q, e)

  -- A process starts with agreed start times and has switched to barriers, for good, exactly if one of
  -- the jobs so far had at least as many elements as the switch count, unless that is negative.
  pub init_all-mode :
      (ps : List SyncParams) (s : RoundTime T)
      → s.barrier_sync_mode ≡ 0
      → (init_all ps s).barrier_sync_mode ≡ (if any_large s.switch_count ps then 1 else 0)
  init_all-mode ps s h = any_large_lem ps s false h
