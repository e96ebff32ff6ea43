-- ===== src/RoundTime/Agreement.antt =====
-- All ranks get the same verdict at the end of a measurement, the one that their flags call for.
use Prim.Native.Nat.{max}
use native.Mathlib.Decide.{dec_le}
use native.Mathlib.Nat.{mod-eq_of_lt, mod-lt}
use reprompi_dev.Prelude.{
  ℕ, zero, suc, ◌+◌, ◌-◌, ◌%◌, ◌^◌, ◌≡◌, ◌<◌, ◌≤◌, ◌↔◌, ◌⊎◌, refl, ap, ap₂, sym, ◌∙◌, none, some,
  arith,
}
use reprompi_dev.Prelude.Double.{Doubles}
use reprompi_dev.Collective.Allreduce.{Network}
use reprompi_dev.Collective.Allreduce.Windows.{IsCommutative, window}
use reprompi_dev.Collective.Allreduce.Result.{allreduce_reduces, contribution}
use reprompi_dev.RoundTime.{
  Surroundings, RoundTime, Packet, max_packet, packet, check_time, classify, stop_synchronization,
}

max_packet-IsCommutative : IsCommutative max_packet
max_packet-IsCommutative = record {
  assoc = λ a b c. ap₂ (λ i s. record { invalid = i; stop_flag = s }) (omega arith) (omega arith);
  comm = λ a b. ap₂ (λ i s. record { invalid = i; stop_flag = s }) (omega arith) (omega arith);
}

-- One of the two numbers of a packet, and the largest of them among the ranks of a window.
module _ (part : Packet → ℕ)
    (part-max : (p q : Packet) → part (max_packet p q) ≡ max (part p) (part q)) (size : ℕ)
    (x : ℕ → Packet) where
  largest-ge : (n r i : ℕ) → i ≤ n → part (x ((r + i) % size)) ≤ part (window max_packet size x r n)
  unfolding window
  largest-ge zero r i h = let e : r + i ≡ r = omega arith in rw e (omega arith)
  largest-ge (suc n) r zero h =
      let e : r + 0 ≡ r = omega arith in
      rw e (omega (arith, part-max (x (r % size)) (window max_packet size x (r + 1) n)))
  largest-ge (suc n) r (suc i) h =
      let e : r + suc i ≡ r + 1 + i = omega arith in
      rw e (
        omega (
          arith,
          part-max (x (r % size)) (window max_packet size x (r + 1) n),
          largest-ge n (r + 1) i (omega arith),
        ))

  largest-reached :
      (n r : ℕ) → (i : ℕ) × (part (window max_packet size x r n) ≡ part (x (i % size)))
  unfolding window
  largest-reached zero r = (r, refl)
  largest-reached (suc n) r =
      let w = window max_packet size x (r + 1) n in
      let (i, e) = largest-reached n (r + 1) in
      elim (dec_le (part w) (part (x (r % size)))) [
        | yes h ↦ (r, omega (arith, h, part-max (x (r % size)) w))
        | no h ↦ (i, omega (arith, h, part-max (x (r % size)) w, e))
      ]

  -- The reduced number is a number of some rank, and at least that of every rank.
  largest_lem :
      0 < size
      → ((q : ℕ) → q < size → part (x q) ≤ part (window max_packet size x 0 (size - 1)))
        × (q : ℕ) × (q < size)
        × (part (window max_packet size x 0 (size - 1)) ≡ part (x q))
  largest_lem p =
      let (i, e) = largest-reached (size - 1) 0 in
      (
        λ q lt. omega (
          arith,
          largest-ge (size - 1) 0 q (omega arith),
          ap (λ k. part (x k))
              (ap (λ k. k % size) (let z : 0 + q ≡ q = omega arith in z) ∙ mod-eq_of_lt lt),
        ),
        i % size,
        mod-lt i p,
        e,
      )

classify_stop : (p : Packet) → ((classify p ≡ 2) ⊎ (classify p ≡ 3)) ↔ (p.stop_flag ≡ 1)
unfolding classify
classify_stop p = (λ h. ground arith, λ h. ground arith)

classify_invalid : (p : Packet) → ((classify p ≡ 1) ⊎ (classify p ≡ 3)) ↔ (0 < p.invalid)
unfolding classify
classify_invalid p = (λ h. ground arith, λ h. ground arith)

check_time-stop_flag :
    {T : Type 0} (double : Doubles T) (env : Surroundings T) (s : RoundTime T)
    → s.stop_flag ≤ 1
    → (check_time double env s).stop_flag ≤ 1
unfolding check_time
check_time-stop_flag double env s h = ground arith

module _ {T : Type 0} (double : Doubles T) (net : Network Packet) (size : ℕ)
    (env : ℕ → Surroundings T) (fresh : ℕ → Packet) (states : ℕ → RoundTime T) where
  -- what rank `p` is told, from the flags of all ranks
  pub record Verdict (codes : ℕ → ℕ) (p : ℕ) : Type 0 where
    pub out_of_time :
        ((codes p ≡ 2) ⊎ (codes p ≡ 3))
        ↔ ((q : ℕ) × (q < size) × ((check_time double (env q) (states q)).stop_flag ≡ 1))
    pub invalid :
        ((codes p ≡ 1) ⊎ (codes p ≡ 3))
        ↔ ((q : ℕ) × (q < size) × (0 < (check_time double (env q) (states q)).invalid))

  checked : ℕ → Packet
  checked q = packet (check_time double (env q) (states q))

  reduced : Packet
  reduced = window max_packet size checked 0 (size - 1)

  reduced-Verdict :
      (codes : ℕ → ℕ) (p : ℕ)
      → 0 < size
      → ((q : ℕ) → q < size → (states q).stop_flag ≤ 1)
      → codes p ≡ classify reduced
      → Verdict codes p
  unfolding checked reduced
  reduced-Verdict codes p pos small e =
      let (ge, q, lt, m) = largest_lem (λ p. p.stop_flag) (λ p q. refl) size checked pos in
      let (ge', q', lt', m') = largest_lem (λ p. p.invalid) (λ p q. refl) size checked pos in
      let one = check_time-stop_flag double (env q) (states q) (small q lt) in
      record {
        out_of_time = rw e (
          λ h. (q, lt, sym m ∙ (classify_stop reduced).0 h),
          λ (r, l, k). (classify_stop reduced).1 (omega (arith, ge r l, k, m, one)),
        );
        invalid = rw e (
          λ h. (q', lt', omega (arith, m', (classify_invalid reduced).0 h)),
          λ (r, l, k). (classify_invalid reduced).1 (omega (arith, ge' r l, k)),
        );
      }

  -- Among at least one and at most 2 ^ 30 ranks whose stop flags are 0 or 1, the end of a
  -- measurement comes back with the same code on all ranks. It says that the time is over exactly if
  -- some rank has raised its stop flag by then, and that the measurement is invalid exactly if it is
  -- so on some rank.
  pub stop_synchronization_agrees :
      0 < size
      → size ≤ 2 ^ 30
      → ((q : ℕ) → q < size → (states q).stop_flag ≤ 1)
      → (codes : ℕ → ℕ) × (after : ℕ → RoundTime T) × (stop_synchronization double net size env
            fresh states
          ≡ some (codes, after))
        × ((q : ℕ) → after q ≡ check_time double (env q) (states q))
        × ((p q : ℕ) → p < size → q < size → codes p ≡ codes q)
        × ((p : ℕ) → p < size → Verdict codes p)
  unfolding stop_synchronization checked reduced contribution
  stop_synchronization_agrees pos small flags =
      let (v, bufs, run, s, result) =
        allreduce_reduces max_packet-IsCommutative net size none checked fresh pos small in
      let told : (p : ℕ) → p < size → classify (bufs p).recvbuf ≡ classify reduced =
        λ p lt. ap classify (result p lt) in
      (
        (λ p. classify (bufs p).recvbuf),
        (λ q. check_time double (env q) (states q)),
        rw run refl,
        λ q. refl,
        λ p q l l'. told p l ∙ sym (told q l'),
        λ p l. reduced-Verdict (λ p. classify (bufs p).recvbuf) p pos flags (told p l),
      )
