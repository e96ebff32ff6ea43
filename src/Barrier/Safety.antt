-- ===== src/Barrier/Safety.antt =====
-- No process leaves the dissemination barrier before every process has entered it.
use native.Mathlib.Decide.{dec_lt}
use native.Mathlib.Nat.{mod-lt, mod-eq_of_lt, add-mod_right}
use reprompi_dev.Prelude.{
  ℕ, zero, suc, ◌+◌, ◌-◌, ◌%◌, ◌^◌, ◌≡◌, ◌≤◌, ◌<◌, ap, sym, ◌∙◌, some, get_elem?, length, arith,
}
use reprompi_dev.Prelude.Bits.{pow-two_suc}
use reprompi_dev.Prelude.Cyclic.{step_back}
use reprompi_dev.Barrier.{nrounds, send_rank, recv_rank, dissemination_barrier}
use reprompi_dev.Barrier.Peers.{
  nrounds_lem, send_rank-recv_rank, calls_lem, length-dissemination_barrier,
}

-- The times of one run of the barrier by `np` processes, where each `MPI_Sendrecv` is blocking: when
-- a process enters, starts and finishes its call of each round, and leaves. A call in which `p`
-- receives from `q` finishes only after `q` has started its call of the same round, if that one
-- sends to `p`.
pub record Run (np : ℕ) : Type 0 where
  pub enter : ℕ → ℕ
  pub starts : ℕ → ℕ → ℕ
  pub finishes : ℕ → ℕ → ℕ
  pub leave : ℕ → ℕ
  pub entered : (p i : ℕ) → enter p ≤ starts p i
  pub blocks : (p i : ℕ) → starts p i ≤ finishes p i
  pub in_order : (p i j : ℕ) → i < j → finishes p i ≤ starts p j
  pub left : (p i : ℕ) → i < length (dissemination_barrier np p) → finishes p i ≤ leave p
  pub entered_left : (p : ℕ) → enter p ≤ leave p
  pub receives :
      (p q i to from : ℕ)
      → p < np
      → q < np
      → get_elem? (dissemination_barrier np p) i ≡ some (to, q)
      → get_elem? (dissemination_barrier np q) i ≡ some (p, from)
      → starts q i ≤ finishes p i

module _ (np : ℕ) (few : np ≤ 2 ^ 30) (run : Run np) where
  -- A process finishes a round only after its peer has started it.
  hears : (i p : ℕ) → i < nrounds np → p < np → run.starts (recv_rank np i p) i ≤ run.finishes p i
  hears i p lt hp =
      let q = recv_rank np i p in
      let offset : 2 ^ i < np = (nrounds_lem np (omega (arith, few))).1 i lt in
      let back = send_rank-recv_rank np i p hp offset in
      let hq : q < np = unfold recv_rank in mod-lt (p + np - 2 ^ i) (omega arith) in
      run.receives p q i (send_rank np i p) (recv_rank np i q) hp hq (calls_lem np p i lt)
        (calls_lem np q i lt ∙ ap (λ t. some (t, recv_rank np i q)) back)

  -- After round `i` a process has heard, directly or not, from the 2 ^ (i + 1) - 1 before it.
  heard :
      (i p q d : ℕ)
      → i < nrounds np
      → p < np
      → q < np
      → d < 2 ^ suc i
      → (q + d) % np ≡ p
      → run.enter q ≤ run.finishes p i
  heard zero p q zero lt hp hq hd e =
      let same : q ≡ p = sym (mod-eq_of_lt hq) ∙ ap (λ t. t % np) (omega arith) ∙ e in
      rw same (omega (arith, run.entered p 0, run.blocks p 0))
  heard zero p q (suc d) lt hp hq hd e =
      let offset : 2 ^ 0 < np = (nrounds_lem np (omega (arith, few))).1 0 lt in
      let one : q + (suc d - 1) ≡ q = omega arith in
      let from : q ≡ recv_rank np 0 p =
        unfold recv_rank in
        sym (mod-eq_of_lt hq)
        ∙ ap (λ t. t % np) (sym one)
        ∙ step_back np 1 q (suc d) p (omega arith) (omega arith) (omega arith) e in
      omega (arith, run.entered q 0, ap (λ t. run.starts t 0) from, hears 0 p lt hp)
  heard (suc i) p q d lt hp hq hd e = elim (dec_lt d (2 ^ suc i)) [
    | yes near ↦ omega (
      arith,
      heard i p q d (omega arith) hp hq near e,
      run.in_order p i (suc i) (omega arith),
      run.blocks p (suc i),
    )
    | no far ↦
        let s = recv_rank np (suc i) p in
        let offset : 2 ^ suc i < np = (nrounds_lem np (omega (arith, few))).1 (suc i) lt in
        let hs : s < np = unfold recv_rank in mod-lt (p + np - 2 ^ suc i) (omega arith) in
        let from : (q + (d - 2 ^ suc i)) % np ≡ s =
          unfold recv_rank in
          step_back np (2 ^ suc i) q d p (omega arith) (omega arith) (omega arith) e in
        omega (
          arith,
          heard i s q (d - 2 ^ suc i) (omega arith) hs hq (omega (arith, pow-two_suc (suc i))) from,
          run.in_order s i (suc i) (omega arith),
          hears (suc i) p lt hp,
        )
  ]

  distance : (p q : ℕ) → p < np → q < np → (d : ℕ) × (d < np) × ((q + d) % np ≡ p)
  distance p q hp hq = elim (dec_lt p q) [
    | yes h ↦
        let e : q + (p + np - q) ≡ p + np = omega arith in
        (p + np - q, omega arith, ap (λ t. t % np) e ∙ add-mod_right p np ∙ mod-eq_of_lt hp)
    | no h ↦
        let e : q + (p - q) ≡ p = omega arith in
        (p - q, omega arith, ap (λ t. t % np) e ∙ mod-eq_of_lt hp)
  ]

  at_least_one_round : 1 < np → 0 < nrounds np
  at_least_one_round h = elim (dec_lt 0 (nrounds np)) [
    | yes p ↦ p
    | no p ↦
        let none_made : nrounds np ≡ 0 = omega arith in
        absurd (omega (arith, (nrounds_lem np (omega (arith, few))).0, ap (λ t. 2 ^ t) none_made))
  ]

  -- In every run of the barrier by at most 2 ^ 30 processes, no process leaves before every process
  -- has entered.
  pub barrier_safe : (p q : ℕ) → p < np → q < np → run.enter q ≤ run.leave p
  barrier_safe p q hp hq = elim (dec_lt 1 np) [
    | no alone ↦ let same : q ≡ p = omega arith in rw same (run.entered_left p)
    | yes many ↦
        let (d, hd, e) = distance p q hp hq in
        let last = nrounds np - 1 in
        let rounds : nrounds np ≡ suc last = omega (arith, at_least_one_round many) in
        let enough : np ≤ 2 ^ suc last = rw rounds at (nrounds_lem np (omega (arith, few))).0 in
        omega (
          arith,
          heard last p q d (omega (arith, rounds)) hp hq (omega arith) e,
          run.left p last (omega (arith, length-dissemination_barrier np p, rounds)),
        )
  ]
