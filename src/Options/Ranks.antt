-- ===== src/Options/Ranks.antt =====
-- The ranks of a ping-pong, from the option that
-- src/reprompi_bench/option_parser/parse_common_options.c reads to the operations of
-- src/collective_ops/ that use them.
use Prim.{Unit, tt}
use mathlib.Core.Option.{none-ne-some, some-injective}
use reprompi_dev.Prelude.{
  ℕ, ◌*◌, ◌<◌, ◌≡◌, Bool, true, false, ◌||◌, Option, none, some, >>=-eq-some, List, [], ◌∷◌, ◌++◌,
  get_elem?, arith,
}
use reprompi_dev.Prelude.Int.{ℤ, pos, negsuc, ltb_ℤ, leb_ℤ, eqb_ℤ}
use reprompi_dev.Buffers.{
  Datatype, Params, CommonOptions, goes, init_collective_basic_info, int_max,
}
use reprompi_dev.Buffers.Calls.{MpiCall}
use reprompi_dev.Buffers.Fit.{IsPeer, AllFit}
use reprompi_dev.Buffers.Table.{CollectiveOps, collective_calls}
use reprompi_dev.Buffers.Cycle.{HasNoBlocks, measured_operation}
use reprompi_dev.Options.{to_int, read_ranks, two_different, parse_pingpong_ranks}

-- All ranks are processes of the communicator.
unfoldable pub ArePeers : List ℤ → ℕ → Type 0
ArePeers [] n = Unit {0}
ArePeers (r ∷ rs) n = IsPeer r n × ArePeers rs n

snoc-ArePeers :
    (rs : List ℤ) (r : ℤ) (n : ℕ) → ArePeers rs n → IsPeer r n → ArePeers (rs ++ r ∷ []) n
unfolding ArePeers
snoc-ArePeers [] r n all h = (h, tt)
snoc-ArePeers (q ∷ rs) r n (p, all) h = (p, snoc-ArePeers rs r n all h)

pub inside-IsPeer : (r : ℤ) (n : ℕ) → (ltb_ℤ r (pos 0) || leb_ℤ (pos n) r) ≡ false → IsPeer r n
unfolding IsPeer
inside-IsPeer (pos k) n h = ground arith
inside-IsPeer (negsuc k) n h = absurd (ground arith)

read_ranks_step :
    (nprocs : ℕ) (number : ℤ) (tokens : List (Option ℤ)) (ranks result : List ℤ)
    → read_ranks nprocs (some number ∷ tokens) ranks ≡ some result
    → ((ltb_ℤ (to_int number) (pos 0) || leb_ℤ (pos nprocs) (to_int number)) ≡ false)
      × (read_ranks nprocs tokens (ranks ++ to_int number ∷ []) ≡ some result)
unfolding read_ranks
read_ranks_step nprocs number tokens ranks result h = ground arith

pub read_ranks_lem :
    (nprocs : ℕ) (tokens : List (Option ℤ)) (ranks result : List ℤ)
    → ArePeers ranks nprocs
    → read_ranks nprocs tokens ranks ≡ some result
    → ArePeers result nprocs
read_ranks_lem nprocs [] ranks result all h =
    let same : ranks ≡ result = unfold read_ranks in some-injective _ _ h in rw (← same) all
read_ranks_lem nprocs (none ∷ tokens) ranks result all h =
    absurd (unfold read_ranks in none-ne-some result h)
read_ranks_lem nprocs (some number ∷ tokens) ranks result all h =
    let (inside, rest) = read_ranks_step nprocs number tokens ranks result h in
    read_ranks_lem nprocs tokens (ranks ++ to_int number ∷ []) result
      (snoc-ArePeers ranks (to_int number) nprocs all (inside-IsPeer (to_int number) nprocs inside))
      rest

two_ranks_read :
    (x y a b : ℤ)
    → two_different (x ∷ y ∷ []) ≡ some (a, b)
    → (eqb_ℤ x y ≡ false) × (x ≡ a) × (y ≡ b)
unfolding two_different
two_ranks_read x y a b h = ground arith

pub two_different_lem :
    (ranks : List ℤ) (a b : ℤ) (n : ℕ)
    → ArePeers ranks n
    → two_different ranks ≡ some (a, b)
    → IsPeer a n × IsPeer b n × (eqb_ℤ a b ≡ false)
unfolding two_different ArePeers
two_different_lem [] a b n all h = absurd (none-ne-some _ h)
two_different_lem (x ∷ []) a b n all h = absurd (none-ne-some _ h)
two_different_lem (x ∷ y ∷ z ∷ rs) a b n all h = absurd (none-ne-some _ h)
two_different_lem (x ∷ y ∷ []) a b n (px, (py, rest)) h =
    let (apart, same_a, same_b) = two_ranks_read x y a b h in
    rw (← same_a, ← same_b) (px, py, apart)

-- Every pair of ranks that the option accepts is good for every measured operation: with it,
-- when memory suffices and the count times the number of processes stays below INT_MAX, the
-- initialisation goes through on every process, the calls of MPI fit their buffers, and the
-- cleanup leaves no pointer to a block.
pub parsed_ranks_run :
    (tokens : List (Option ℤ)) (opts : CommonOptions) (procs : ℕ)
    → parse_pingpong_ranks procs tokens ≡ some (opts.pingpong_src, opts.pingpong_dst)
    → (i : ℕ) (ops : CollectiveOps) → get_elem? collective_calls i ≡ some ops
    → (extent : Datatype → ℕ) (memory : ℕ → ℕ → Bool) (rank count : ℕ) (p₀ : Params)
    → ((k n : ℕ) → memory k n ≡ true)
    → rank < procs
    → count * procs < int_max
    → (q : Params) × (calls : List MpiCall) × (ops.initialize_data extent memory rank
          (init_collective_basic_info opts procs)
          count
          p₀
        ≡ goes q)
      × (ops.collective_call q ≡ goes calls)
      × AllFit extent procs rank calls
      × HasNoBlocks (ops.cleanup_data q)
unfolding parse_pingpong_ranks
parsed_ranks_run tokens opts procs parsed i ops h extent memory rank count p₀ enough r_ok limit =
    let (ranks, read, different) =
      >>=-eq-some (read_ranks procs tokens []) two_different (opts.pingpong_src, opts.pingpong_dst)
        parsed in
    let (src, dst, apart) =
      two_different_lem ranks opts.pingpong_src opts.pingpong_dst procs
        (read_ranks_lem procs tokens [] ranks (unfold ArePeers in tt) read) different in
    measured_operation i ops h extent memory opts procs rank count p₀ enough r_ok limit
      (λ e. (src, dst, apart))
