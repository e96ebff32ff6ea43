-- ===== src/Collective/Allreduce/Rounds.antt =====
-- The loop of `Allreduce_bitwise_commutative`: what the buffers hold after each round, and the
-- result.
use native.Mathlib.Nat.{mod-add-mod, mod-lt, div-div-eq-div-mul, div-le_self, le-div_iff_mul-le}
use reprompi_dev.Prelude.{
  ℕ, suc, ◌+◌, ◌-◌, ◌*◌, ◌/◌, ◌%◌, ◌^◌, ◌≤◌, ◌<◌, ◌≡◌, refl, sym, ap, ap₂, ◌∙◌, Bool, true, false,
  arith, ◌==◌, ◌⊎◌, inl, inr, Bool-cases, if◌then◌else◌,
}
use reprompi_dev.Prelude.Cyclic.{back-forth}
use reprompi_dev.Prelude.Bits.{pow-two_suc, pow-two_pos}
use reprompi_dev.Collective.TopBit.{has_bit, has_bit-pow}
use reprompi_dev.Collective.Allreduce.{
  Control, Buffers, Network, offset, cyci, cyco, next_control, received, exchange,
}
use reprompi_dev.Collective.Allreduce.Windows.{IsCommutative, window, window-mod, window-append}

-- The rank that a rank receives from sends to it.
pub cyco-cyci : (size c rank : ℕ) → rank < size → c ≤ size → cyco size c (cyci size c rank) ≡ rank
unfolding cyco cyci
cyco-cyci size c rank h k = back-forth size c rank h k

half_pow : (n k : ℕ) → n / 2 ^ suc k ≡ n / 2 ^ k / 2
half_pow n k =
    let e : 2 ^ suc k ≡ 2 ^ k * 2 = omega (arith, pow-two_suc k) in rw (e, div-div-eq-div-mul) refl

module _ {A : Type 0} {op : A → A → A} (laws : IsCommutative op) (net : Network A) (size : ℕ)
    (x : ℕ → A) where
  -- With `k` digits of `size - 1` to go, `c0` is the number that the digits before them make. A rank
  -- has reduced the inputs of itself and the `c0` ranks after it, and in `partbuf` those of the
  -- `c0` ranks alone.
  pub record Inv (k : ℕ) (v : Control) (bufs : ℕ → Buffers A) : Type 0 where
    pub digits : v.c0 ≡ (size - 1) / 2 ^ k
    pub succ : v.c1 ≡ suc v.c0
    pub blocks : v.s ≡ suc v.c0
    pub mirror : v.c ≡ v.c0
    pub begins : v.first ≡ true → v.c0 ≡ 0
    pub goes_on : v.first ≡ false → 0 < v.c0
    pub recv : (r : ℕ) → r < size → (bufs r).recvbuf ≡ window op size x r v.c0
    pub part : (r m : ℕ) → r < size → v.c0 ≡ suc m → (bufs r).partbuf ≡ window op size x (r + 1) m

  module _ (pos : 0 < size) (k : ℕ) (v : Control) (bufs : ℕ → Buffers A) (inv : Inv (suc k) v bufs)
      (bit : v.bit ≡ 2 ^ k) (top : v.first ≡ true → 2 ^ k ≤ size - 1) where
    abbrev rest : ℕ
    rest = (size - 1) / 2 ^ k

    digit :
        (has_bit (size - 1) v.bit ≡ true) × (rest ≡ 2 * v.c0 + 1)
        ⊎ (has_bit (size - 1) v.bit ≡ false) × (rest ≡ 2 * v.c0) × (0 < v.c0)
    digit = elim (Bool-cases (rest % 2 == 1)) [
      | inl odd ↦ inl (tested ∙ odd, ground (arith, halves))
      | inr even ↦ inr (
        tested ∙ even,
        ground (arith, halves),
        elim (Bool-cases v.first) [
          | inl e ↦ ground (arith, halves, some_digit e)
          | inr e ↦ inv.goes_on e
        ],
      )
    ]
      where
        tested : has_bit (size - 1) v.bit ≡ (rest % 2 == 1)
        tested = rw (bit, has_bit-pow) refl

        halves : v.c0 ≡ rest / 2
        halves = inv.digits ∙ half_pow (size - 1) k

        some_digit : v.first ≡ true → 1 ≤ rest
        some_digit e = (le-div_iff_mul-le (pow-two_pos k)).1 (omega (arith, top e))

    c0-lt : v.c0 < size
    c0-lt = omega (arith, inv.digits, div-le_self (size - 1) (2 ^ suc k))

    received_lem :
        (r : ℕ)
        → r < size
        → received op net size v bufs r ≡ (
            if has_bit (size - 1) v.bit
            then (bufs ((r + v.c1) % size)).recvbuf
            else (bufs ((r + v.c0) % size)).partbuf)
    unfolding received offset
    received_lem r h =
        let c = offset (size - 1) v in
        let fits : c ≤ size = ground (arith, inv.succ, c0-lt) in
        net.delivers (cyco size c) _ (cyci size c) r (cyco-cyci size c r h fits)
        ∙ unfold cyci in ground arith

    received_set :
        (r : ℕ)
        → r < size
        → has_bit (size - 1) v.bit ≡ true
        → received op net size v bufs r ≡ window op size x (r + suc v.c0) v.c0
    received_set r h has = ground (
      arith,
      received_lem r h,
      inv.succ,
      inv.recv ((r + suc v.c0) % size) (mod-lt (r + suc v.c0) pos),
      window-mod op size x (r + suc v.c0) v.c0,
    )

    received_clear :
        (r m : ℕ)
        → r < size
        → has_bit (size - 1) v.bit ≡ false
        → v.c0 ≡ suc m
        → received op net size v bufs r ≡ window op size x (r + suc v.c0) m
    received_clear r m h has e =
        ground (
          arith,
          received_lem r h,
          inv.part ((r + v.c0) % size) m (mod-lt (r + v.c0) pos) e,
          shifted,
        )
      where
        next : r + v.c0 + 1 ≡ r + suc v.c0
        next = omega arith

        shifted : window op size x ((r + v.c0) % size + 1) m ≡ window op size x (r + suc v.c0) m
        shifted =
            sym (window-mod op size x ((r + v.c0) % size + 1) m)
            ∙ ap (λ t. window op size x t m) (mod-add-mod (r + v.c0) size 1)
            ∙ window-mod op size x (r + v.c0 + 1) m
            ∙ ap (λ t. window op size x t m) next

    c0-next : (next_control (size - 1) v).c0 ≡ rest
    unfolding next_control
    c0-next = ground (arith, digit, inv.succ)

    exchange-recv :
        (r : ℕ) → r < size → (exchange op net size v bufs r).recvbuf ≡ window op size x r rest
    unfolding exchange
    exchange-recv r h = elim digit [
      | inl (has, e) ↦
          ap₂ op (received_set r h has) (inv.recv r h)
          ∙ window-append laws size x r v.c0 v.c0
          ∙ ap (window op size x r) (omega arith)
      | inr (has, e, some_c0) ↦
          ap₂ op (received_clear r (v.c0 - 1) h has (omega arith)) (inv.recv r h)
          ∙ window-append laws size x r v.c0 (v.c0 - 1)
          ∙ ap (window op size x r) (omega arith)
    ]

    -- In the first round the peer's `recvbuf` is received into `partbuf` itself.
    exchange-part_first :
        (r m : ℕ)
        → r < size
        → v.first ≡ true
        → rest ≡ suc m
        → (exchange op net size v bufs r).partbuf ≡ window op size x (r + 1) m
    unfolding exchange
    exchange-part_first r m h f e =
        let got = received op net size v bufs r in
        let overwritten = ap (λ (b : Bool). if b then got else op got (bufs r).partbuf) f in
        let none_yet = inv.begins f in
        overwritten ∙ elim digit [
          | inl (has, d) ↦
              let at : r + suc v.c0 ≡ r + 1 = omega arith in
              let last : v.c0 ≡ m = omega arith in
              received_set r h has
              ∙ ap (λ t. window op size x t v.c0) at
              ∙ ap (window op size x (r + 1)) last
          | inr (has, d, some_c0) ↦ absurd (omega (arith, none_yet))
        ]

    exchange-part_later :
        (r m : ℕ)
        → r < size
        → v.first ≡ false
        → rest ≡ suc m
        → (exchange op net size v bufs r).partbuf ≡ window op size x (r + 1) m
    unfolding exchange
    exchange-part_later r m h f e =
        let pred : v.c0 ≡ suc (v.c0 - 1) = omega (arith, inv.goes_on f) in
        let behind : r + suc v.c0 ≡ r + 1 + suc (v.c0 - 1) = omega arith in
        let got = received op net size v bufs r in
        ap (λ (b : Bool). if b then got else op got (bufs r).partbuf) f ∙ elim digit [
          | inl (has, d) ↦
              let sum : v.c0 - 1 + suc v.c0 ≡ m = omega arith in
              ap₂ op (received_set r h has ∙ ap (λ t. window op size x t v.c0) behind)
                (inv.part r (v.c0 - 1) h pred)
              ∙ window-append laws size x (r + 1) (v.c0 - 1) v.c0
              ∙ ap (window op size x (r + 1)) sum
          | inr (has, d, some_c0) ↦
              let sum : v.c0 - 1 + suc (v.c0 - 1) ≡ m = omega arith in
              ap₂ op
                (received_clear r (v.c0 - 1) h has pred
                  ∙ ap (λ t. window op size x t (v.c0 - 1)) behind)
                (inv.part r (v.c0 - 1) h pred)
              ∙ window-append laws size x (r + 1) (v.c0 - 1) (v.c0 - 1)
              ∙ ap (window op size x (r + 1)) sum
        ]

    -- One round handles one digit.
    pub step-Inv : Inv k (next_control (size - 1) v) (exchange op net size v bufs)
    step-Inv = record {
      digits = c0-next;
      succ = unfold next_control in ground (arith, inv.succ);
      blocks = unfold next_control offset in ground (arith, inv.succ, inv.blocks);
      mirror = unfold next_control in ground (arith, inv.succ, inv.mirror);
      begins = unfold next_control in ground arith;
      goes_on = λ _. rw c0-next (ground (arith, digit));
      recv = λ r h. rw c0-next (exchange-recv r h);
      part = λ r m h e. elim (Bool-cases v.first) [
        | inl f ↦ exchange-part_first r m h f (rw c0-next at e)
        | inr f ↦ exchange-part_later r m h f (rw c0-next at e)
      ];
    }
