-- ===== src/Collective/Bcast/Tree.antt =====
-- The sends and receives of `RemproMPI_Bcast_binomial` from rank 0 match, and form a tree that
-- reaches every rank.
use native.Mathlib.Decide.{dec_lt}
use native.Mathlib.Nat.{pow-le-pow_right}
use reprompi_dev.Prelude.{
  ℕ, zero, suc, ◌+◌, ◌-◌, ◌*◌, ◌^◌, ◌≤◌, ◌<◌, ◌≡◌, refl, ap, sym, ◌∙◌, Option, none, some, List,
  arith, inl, inr, ◌↔◌, if◌then◌else◌, ◌==◌,
}
use reprompi_dev.Prelude.Bits.{pow-two_suc, pow-two_pos, pow-add}
use reprompi_dev.Collective.Bcast.{Plan, bcast}
use reprompi_dev.Collective.Bcast.Loops.{
  AreBits, In, IsReached, occurrences, le-mul-pow, find_bits_total, destinations_total,
}

-- what the two loops find for a rank
record Found (size rank : ℕ) : Type 0 where
  d : ℕ
  dd : ℕ
  bits : AreBits rank d dd
  above : rank < d
  sends : List ℕ
  single : (q : ℕ) → occurrences q sends ≤ 1
  reaches : (q : ℕ) → In q sends ↔ IsReached rank size d q
  run :
      (root : ℕ)
      → bcast size root rank
        ≡ some (record {
          receive_from = if rank == root then none else some (rank - dd);
          send_to = sends;
        })

found : (size rank : ℕ) → size ≤ 2 ^ 30 → rank < size → Found size rank
found size rank small lt =
    let (d, dd, run, bits, above) = find_bits_total 32 rank 1 0 (omega arith) (inl (refl, refl)) in
    let (ps, runs, reach, once) = destinations_total 32 rank size d (omega arith) in
    record {
      d = d;
      dd = dd;
      bits = bits;
      above = above;
      sends = ps;
      single = once (omega arith);
      reaches = reach;
      run = λ root. unfold bcast in ground arith;
    }

top_unique : (i k q : ℕ) → 2 ^ i ≤ q → q < 2 ^ suc i → 2 ^ k ≤ q → q < 2 ^ suc k → i ≡ k
top_unique i k q a b c d = elim (dec_lt i k) [
  | yes p ↦
      let lower : 2 ^ suc i ≤ 2 ^ k = pow-le-pow_right (omega arith) (omega arith) in
      absurd (omega arith)
  | no p ↦ elim (dec_lt k i) [
    | yes p' ↦
        let lower : 2 ^ suc k ≤ 2 ^ i = pow-le-pow_right (omega arith) (omega arith) in
        absurd (omega arith)
    | no p' ↦ omega arith
  ]
]

-- The offset found for a rank, doubled some times, is any power of two above the rank.
doubles_to : (rank d dd k : ℕ) → AreBits rank d dd → rank < 2 ^ k → (i : ℕ) × (d * 2 ^ i ≡ 2 ^ k)
doubles_to rank d dd k (inl (one, _)) h = (k, rw one (omega arith))
doubles_to rank d dd k (inr (k', e, _, le)) h = elim (dec_lt k' k) [
  | yes p ↦
      let sum : suc k' + (k - suc k') ≡ k = omega arith in
      (k - suc k', rw e (sym (pow-add (suc k') (k - suc k')) ∙ ap (λ t. 2 ^ t) sum))
  | no p ↦
      let lower : 2 ^ k ≤ 2 ^ k' = pow-le-pow_right (omega arith) (omega arith) in
      absurd (omega arith)
]

offset_pow : (rank d dd : ℕ) → AreBits rank d dd → (j : ℕ) × (d ≡ 2 ^ j)
offset_pow rank d dd (inl (one, _)) = (0, one)
offset_pow rank d dd (inr (k, e, _, _)) = (suc k, e)

parent_of_reached :
    (p q m d dd : ℕ) → q ≡ p + 2 ^ m → p < 2 ^ m → AreBits q d dd → q < d → (0 < q) × (q - dd ≡ p)
parent_of_reached p q m d dd e lt (inl (one, _)) above = absurd (omega (arith, pow-two_pos m))
parent_of_reached p q m d dd e lt (inr (k, ed, edd, le)) above =
    let same : k ≡ m =
      top_unique k m q le (omega arith) (omega arith) (omega (arith, pow-two_suc m)) in
    let power : 2 ^ k ≡ 2 ^ m = ap (λ t. 2 ^ t) same in (omega (arith, pow-two_pos m), omega arith)

IsReached-of_parent :
    (size p q d dd d' dd' : ℕ)
    → q < size
    → AreBits q d dd
    → q < d
    → 0 < q
    → q - dd ≡ p
    → AreBits p d' dd'
    → IsReached p size d' q
IsReached-of_parent size p q d dd d' dd' lt (inl (one, _)) above pos e bits = absurd (omega arith)
IsReached-of_parent size p q d dd d' dd' lt (inr (k, ed, edd, le)) above pos e bits =
    let (i, double) = doubles_to p d' dd' k bits (omega (arith, pow-two_suc k)) in
    (i, omega arith, lt)

-- A rank `q` that `p` sends to has `p` as its parent, and the other way round.
IsReached-parent :
    (size p q : ℕ) (fp : Found size p) (fq : Found size q)
    → q < size
    → IsReached p size fp.d q ↔ ((0 < q) × (q - fq.dd ≡ p))
IsReached-parent size p q fp fq lt = (
  λ r.
      let (i, e, _) = r in
      let (j, ed) = offset_pow p fp.d fp.dd fp.bits in
      let product : fp.d * 2 ^ i ≡ 2 ^ (j + i) = rw (ed, pow-add j i) refl in
      parent_of_reached p q (j + i) fq.d fq.dd (omega arith)
        (omega (arith, fp.above, le-mul-pow fp.d i)) fq.bits fq.above,
  λ h. IsReached-of_parent size p q fq.d fq.dd fp.d fp.dd lt fq.bits fq.above h.0 h.1 fp.bits,
)

-- With root 0, of at most 2 ^ 30 ranks, each finishes its loops, and the calls match: rank p sends
-- to rank q exactly if q receives, and does so from p; it sends to no rank twice, and to none that
-- is not there.
pub bcast_matches :
    (size p q : ℕ)
    → size ≤ 2 ^ 30
    → p < size
    → q < size
    → (of_p of_q : Plan) × (bcast size 0 p ≡ some of_p)
      × (bcast size 0 q ≡ some of_q)
      × (In q of_p.send_to ↔ (of_q.receive_from ≡ some p))
      × (occurrences q of_p.send_to ≤ 1)
      × ((r : ℕ) → In r of_p.send_to → r < size)
bcast_matches size p q small hp hq =
    let fp = found size p small hp in
    let fq = found size q small hq in
    let step = IsReached-parent size p q fp fq hq in
    (
      _,
      _,
      fp.run 0,
      fq.run 0,
      (
        λ m. let h = step.0 ((fp.reaches q).0 m) in ground arith,
        λ e. (fp.reaches q).1 (step.1 (received_from q fq.dd p e)),
      ),
      fp.single q,
      λ r m. let (i, e, lt) = (fp.reaches r).0 m in lt,
    )
  where
    received_from :
        (q dd p : ℕ) → (if q == 0 then none else some (q - dd)) ≡ some p → (0 < q) × (q - dd ≡ p)
    received_from q dd p e = ground arith

-- The value that the buffer of a rank ends with, where the calls match: the root keeps its own, and
-- a receive takes what the sender has once that has its value.
pub data Gets {A : Type 0} (size : ℕ) (buffer : ℕ → A) : ℕ → A → Type 0 where
  keeps :
      (rank : ℕ) (plan : Plan)
      → bcast size 0 rank ≡ some plan
      → plan.receive_from ≡ none
      → Gets size buffer rank (buffer rank)
  receives :
      (p q : ℕ) (of_p of_q : Plan) (a : A)
      → bcast size 0 p ≡ some of_p
      → bcast size 0 q ≡ some of_q
      → of_q.receive_from ≡ some p
      → In q of_p.send_to
      → Gets size buffer p a
      → Gets size buffer q a

parent-lt : (q d dd : ℕ) → AreBits q d dd → q < d → 0 < q → q - dd < q
parent-lt q d dd (inl (one, _)) above pos = absurd (omega arith)
parent-lt q d dd (inr (k, ed, edd, le)) above pos = omega (arith, pow-two_pos k)

same_value : {A : Type 0} {o : Option A} {a b : A} → o ≡ some a → o ≡ some b → a ≡ b
same_value p q = cc

not_root : (q : ℕ) (o : Option ℕ) → (if suc q == 0 then none else o) ≡ o
not_root q o = ground arith

Gets-below :
    {A : Type 0} (size : ℕ) (buffer : ℕ → A)
    → size ≤ 2 ^ 30
    → (bound q : ℕ) → q < bound
    → q < size
    → Gets size buffer q (buffer 0)
Gets-below size buffer small zero q lt hq = absurd (omega arith)
Gets-below size buffer small (suc bound) zero lt hq = keeps 0 _ ((found size 0 small hq).run 0) refl
Gets-below size buffer small (suc bound) (suc q) lt hq =
    let fq = found size (suc q) small hq in
    let p = suc q - fq.dd in
    let p-lt : p < suc q = parent-lt (suc q) fq.d fq.dd fq.bits fq.above (omega arith) in
    let (of_p, of_q, run_p, run_q, match, once, there) =
      bcast_matches size p (suc q) small (omega arith) hq in
    let from : of_q.receive_from ≡ some p =
      ap (λ (t : Plan). t.receive_from) (same_value run_q (fq.run 0)) ∙ not_root q _ in
    receives p (suc q) of_p of_q (buffer 0) run_p run_q from (match.1 from)
      (Gets-below size buffer small bound p (omega arith) (omega arith))

-- With root 0, every one of at most 2 ^ 30 ranks ends with the value that rank 0 started with.
pub bcast_reaches :
    {A : Type 0} (size : ℕ) (buffer : ℕ → A) (rank : ℕ)
    → size ≤ 2 ^ 30
    → rank < size
    → Gets size buffer rank (buffer 0)
bcast_reaches size buffer rank small h =
    Gets-below size buffer small (suc rank) rank (omega arith) h
