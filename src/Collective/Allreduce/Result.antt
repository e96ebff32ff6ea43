-- ===== src/Collective/Allreduce/Result.antt =====
-- The whole loop of `Allreduce_bitwise_commutative`, and its result.
use native.Mathlib.Nat.{mod-eq_of_lt, div-eq_of_lt}
use native.Mathlib.Decide.{dec_lt}
use reprompi_dev.Prelude.{
  ℕ, zero, suc, ◌+◌, ◌-◌, ◌/◌, ◌^◌, ◌≤◌, ◌<◌, ◌≡◌, refl, sym, ap, ◌∙◌, true, false, Option, none,
  some, arith,
}
use reprompi_dev.Prelude.Bits.{pow-two_suc, pow-two_pos, top_bit}
use reprompi_dev.Collective.TopBit.{flp2, flp2-pow, flp2-zero}
use reprompi_dev.Collective.Allreduce.{
  Control, Buffers, Network, next_control, exchange, rounds, start, load, allreduce,
}
use reprompi_dev.Collective.Allreduce.Rounds.{Inv, step-Inv}
use reprompi_dev.Collective.Allreduce.Windows.{IsCommutative, window, window_all}

module _ {A : Type 0} {op : A → A → A} (laws : IsCommutative op) (net : Network A) (size : ℕ)
    (x : ℕ → A) where
  rounds_stop :
      (fuel : ℕ) (v : Control) (bufs : ℕ → Buffers A)
      → v.bit ≡ 0
      → rounds op net size (suc fuel) v bufs ≡ some (v, bufs)
  unfolding rounds
  rounds_stop fuel v bufs e = ground arith

  rounds_go :
      (fuel : ℕ) (v : Control) (bufs : ℕ → Buffers A)
      → 0 < v.bit
      → rounds op net size (suc fuel) v bufs
        ≡ rounds op net size fuel (next_control (size - 1) v) (exchange op net size v bufs)
  unfolding rounds
  rounds_go fuel v bufs h = ground arith

  bit-next : (v : Control) → (next_control (size - 1) v).bit ≡ v.bit / 2
  unfolding next_control
  bit-next v = ground arith

  first-next : (v : Control) → (next_control (size - 1) v).first ≡ false
  unfolding next_control
  first-next v = ground arith

  -- The loop, from the digit `k` on, ends with all the digits handled.
  rounds-Inv :
      (pos : 0 < size) (k fuel : ℕ) (v : Control) (bufs : ℕ → Buffers A)
      → k + 1 < fuel
      → Inv laws net size x (suc k) v bufs
      → v.bit ≡ 2 ^ k
      → (v.first ≡ true → 2 ^ k ≤ size - 1)
      → (v' : Control) × (bufs' : ℕ → Buffers A) × (rounds op net size fuel v bufs
          ≡ some (v', bufs'))
        × Inv laws net size x 0 v' bufs'
  rounds-Inv pos k zero v bufs lt inv bit top = absurd (omega arith)
  rounds-Inv pos zero (suc zero) v bufs lt inv bit top = absurd (omega arith)
  rounds-Inv pos zero (suc (suc fuel)) v bufs lt inv bit top = (
    next_control (size - 1) v,
    exchange op net size v bufs,
    rounds_go (suc fuel) v bufs (omega arith) ∙ rounds_stop fuel _ _ (bit-next v ∙ omega arith),
    step-Inv laws net size x pos zero v bufs inv bit top,
  )
  rounds-Inv pos (suc k) (suc fuel) v bufs lt inv bit top =
      let (v', bufs', run, last) =
        rounds-Inv pos k fuel (next_control (size - 1) v) (exchange op net size v bufs)
          (omega arith) (step-Inv laws net size x pos (suc k) v bufs inv bit top)
          (bit-next v ∙ omega (arith, pow-two_suc k)) (λ f. cc (first-next v)) in
      (v', bufs', rounds_go fuel v bufs (omega (arith, pow-two_pos (suc k))) ∙ run, last)

-- What a rank puts into the reduction: `recvbuf` if it passes MPI_IN_PLACE.
unfoldable pub contribution : {A : Type 0} → Option (ℕ → A) → (ℕ → A) → ℕ → A
contribution none recvbuf = recvbuf
contribution (some sendbuf) recvbuf = sendbuf

module _ {A : Type 0} {op : A → A → A} (laws : IsCommutative op) (net : Network A) (size : ℕ)
    (sendbuf : Option (ℕ → A)) (recvbuf fresh : ℕ → A) where
  load_lem : (rank : ℕ) → load op net size sendbuf recvbuf rank ≡ contribution sendbuf recvbuf rank
  load_lem rank = load_by sendbuf
    where
      load_by :
          (send : Option (ℕ → A))
          → load op net size send recvbuf rank ≡ contribution send recvbuf rank
      load_by none = unfold load contribution in refl
      load_by (some s) = unfold load contribution in net.delivers (λ r. r) s (λ r. r) rank refl

  first_buffers : ℕ → Buffers A
  first_buffers rank = record {
    recvbuf = load op net size sendbuf recvbuf rank;
    partbuf = fresh rank;
  }

  first-Inv :
      (k : ℕ)
      → size - 1 < 2 ^ k
      → Inv laws net size (contribution sendbuf recvbuf) k (start op net size) first_buffers
  unfolding first_buffers window
  first-Inv k h = record {
    digits = sym (div-eq_of_lt h);
    succ = refl;
    blocks = refl;
    mirror = refl;
    begins = λ _. refl;
    goes_on = λ e. cc;
    recv = λ r lt. load_lem r ∙ ap (contribution sendbuf recvbuf) (sym (mod-eq_of_lt lt));
    part = λ r m lt e. absurd (omega arith);
  }

  all_digits :
      0 < size
      → size < 2 ^ 31
      → (v : Control) × (bufs : ℕ → Buffers A) × (rounds op net size 33
            (start op net size)
            first_buffers
          ≡ some (v, bufs))
        × Inv laws net size (contribution sendbuf recvbuf) 0 v bufs
  all_digits pos small = elim (dec_lt 0 (size - 1)) [
    | yes p ↦
        let (k, lo, hi, lt) = top_bit 32 (size - 1) p (omega arith) in
        rounds-Inv laws net size (contribution sendbuf recvbuf) pos k 33 (start op net size)
          first_buffers (omega arith) (first-Inv (suc k) hi) (flp2-pow (size - 1) k lo hi lt)
          (λ _. lo)
    | no p ↦
        let single : size - 1 ≡ 0 = omega arith in
        (
          start op net size,
          first_buffers,
          rounds_stop laws net size (contribution sendbuf recvbuf) 32 (start op net size)
              first_buffers (ap flp2 single ∙ flp2-zero),
          first-Inv 0 (omega arith),
        )
  ]

  -- For a commutative and associative operation, among at least one and at most 2 ^ 30 ranks,
  -- whatever the fresh memory holds, the loop ends, has received from as many ranks as there are,
  -- and leaves on every rank the reduction of the contributions of the ranks 0, …, size - 1.
  pub allreduce_reduces :
      0 < size
      → size ≤ 2 ^ 30
      → (v : Control) × (bufs : ℕ → Buffers A) × (allreduce op net size sendbuf recvbuf fresh
          ≡ some (v, bufs))
        × (v.s ≡ size)
        × ((rank : ℕ)
            → rank < size
            → (bufs rank).recvbuf ≡ window op size (contribution sendbuf recvbuf) 0 (size - 1))
  unfolding allreduce first_buffers
  allreduce_reduces pos small =
      let (v, bufs, run, inv) = all_digits pos (omega arith) in
      let all : v.c0 ≡ size - 1 = omega (arith, inv.digits) in
      (
        v,
        bufs,
        run,
        omega (arith, inv.blocks),
        λ rank lt.
            inv.recv rank lt
            ∙ ap (window op size (contribution sendbuf recvbuf) rank) all
            ∙ window_all laws size (contribution sendbuf recvbuf) rank pos,
      )
