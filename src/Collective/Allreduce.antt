-- ===== src/Collective/Allreduce.antt =====
-- `Allreduce_bitwise_commutative` of reprompi_collectives.c. A buffer of `count` elements is one
-- value of `A`; the loop is run by all ranks in step, as its `MPI_Sendrecv` forces them.
pub mod Windows
pub mod Rounds
pub mod Result
use reprompi_dev.Prelude.{
  ℕ, zero, suc, ◌+◌, ◌-◌, ◌*◌, ◌/◌, ◌%◌, ◌≡◌, Bool, true, false, Option, none, some, ◌==◌,
  if◌then◌else◌,
}
use reprompi_dev.Collective.TopBit.{flp2, has_bit}

-- The local variables of the loop that every rank computes alike; `first` is the test
-- `tempbuf == partbuf`.
pub record Control : Type 0 where
  pub c0 : ℕ
  pub c1 : ℕ
  pub c : ℕ
  pub s : ℕ
  pub bit : ℕ
  pub first : Bool

-- The buffers of one rank. `inbuf` holds only what was received last.
pub record Buffers (A : Type 0) : Type 0 where
  pub recvbuf : A
  pub partbuf : A

-- The offset to the peers: c1 or c0.
unfoldable pub offset : ℕ → Control → ℕ
offset n v = if has_bit n v.bit then v.c1 else v.c0

-- `cyci` and `cyco`. The offset is at most `size`, so `rank - c + size` is not
-- negative. The sums are of type `int`: they stay below 2 ^ 31 for at most 2 ^ 30 ranks, and nothing
-- is said of more.
unfoldable pub cyci : ℕ → ℕ → ℕ → ℕ
cyci size c rank = (rank + c) % size

unfoldable pub cyco : ℕ → ℕ → ℕ → ℕ
cyco size c rank = (rank + size - c) % size

unfoldable pub next_control : ℕ → Control → Control
unfolding offset
next_control n v =
    let s = v.s + offset n v in
    if has_bit n v.bit
    then record {
      c0 = v.c0 + v.c1;
      c1 = v.c1 + v.c1;
      c = v.c * 2 + 1;
      s = s;
      bit = v.bit / 2;
      first = false;
    }
    else record {
      c0 = v.c0 + v.c0;
      c1 = v.c1 + v.c0;
      c = v.c * 2;
      s = s;
      bit = v.bit / 2;
      first = false;
    }

-- `MPI_Sendrecv` among ranks that call it once each: the ranks to send to, what they send, the
-- ranks to receive from, and what each receives. A receive matches the message that its source
-- sends to the receiver.
pub record Network (A : Type 0) : Type 0 where
  pub sendrecv : (ℕ → ℕ) → (ℕ → A) → (ℕ → ℕ) → ℕ → A
  pub delivers :
      (dest : ℕ → ℕ) (out : ℕ → A) (source : ℕ → ℕ) (rank : ℕ)
      → dest (source rank) ≡ rank
      → sendrecv dest out source rank ≡ out (source rank)

module _ {A : Type 0} (op : A → A → A) (net : Network A) (size : ℕ) where
  -- what `MPI_Sendrecv` puts into `tempbuf`
  unfoldable pub received : Control → (ℕ → Buffers A) → ℕ → A
  unfolding offset
  received v bufs rank =
      let c = offset (size - 1) v in
      net.sendrecv (cyco size c)
        (λ r. if has_bit (size - 1) v.bit then (bufs r).recvbuf else (bufs r).partbuf) (cyci size c)
        rank

  -- The calls of `PMPI_Reduce_local`. With `tempbuf == partbuf` the receive has overwritten
  -- `partbuf`.
  unfoldable pub exchange : Control → (ℕ → Buffers A) → ℕ → Buffers A
  exchange v bufs rank = record {
    recvbuf = op (received v bufs rank) (bufs rank).recvbuf;
    partbuf =
        if v.first then received v bufs rank else op (received v bufs rank) (bufs rank).partbuf;
  }

  -- `while (bit != 0x0)`, on fuel; `none` means that the fuel ran out.
  unfoldable pub rounds : ℕ → Control → (ℕ → Buffers A) → Option (Control × (ℕ → Buffers A))
  rounds zero v bufs = none
  rounds (suc fuel) v bufs = elim (v.bit == 0) [
    | true ↦ some (v, bufs)
    | false ↦ rounds fuel (next_control (size - 1) v) (exchange v bufs)
  ]

  abbrev pub start : Control
  start = record { c0 = 0; c1 = 1; c = 0; s = 1; bit = flp2 (size - 1); first = true }

  -- The copy of `sendbuf`, a message of each rank to itself; `none` stands for MPI_IN_PLACE.
  unfoldable pub load : Option (ℕ → A) → (ℕ → A) → ℕ → A
  load none recvbuf rank = recvbuf rank
  load (some sendbuf) recvbuf rank = net.sendrecv (λ r. r) sendbuf (λ r. r) rank

  -- The whole function: `recvbuf` before the call, the contents of the fresh `partbuf`, and
  -- `recvbuf` afterwards beside the loop's variables.
  unfoldable pub allreduce : Option (ℕ → A) → (ℕ → A) → (ℕ → A) → Option (Control × (ℕ → Buffers A))
  unfolding load
  allreduce sendbuf recvbuf fresh =
      rounds 33 start (λ rank. record { recvbuf = load sendbuf recvbuf rank; partbuf = fresh rank })
