-- ===== src/Buffers/Room/Pingpong.antt =====
-- The buffers of the ping-pong operations, src/collective_ops/pingpong.c, are large enough.
use Prim.{tt}
use reprompi_dev.Prelude.{
  ℕ, ◌≡◌, refl, false, some, Option-cases, List, [], Bool-cases, inl, inr, arith,
}
use reprompi_dev.Prelude.Int.{ℤ, pos, eqb_ℤ}
use reprompi_dev.Buffers.{Datatype, Params, goes, check}
use reprompi_dev.Buffers.Pingpong.{initialize_data_pingpong}
use reprompi_dev.Buffers.Calls.{
  MpiCall, recv_rank, with_peer, execute_pingpong_Send_Recv, execute_pingpong_Isend_Recv,
  execute_pingpong_Isend_Irecv, execute_pingpong_Send_Irecv, execute_pingpong_Sendrecv,
}
use reprompi_dev.Buffers.Effects.{pingpong_made}
use reprompi_dev.Buffers.Fit.{AllFit, Fits, IsPeer}
use reprompi_dev.Buffers.Table.{entry}
use reprompi_dev.Buffers.Room.{HasRoom, exact}

-- The peers of a ping-pong are ranks of the communicator.
recv_rank-IsPeer :
    (p : Params) (r : ℤ) (n : ℕ)
    → IsPeer p.pingpong_src n
    → IsPeer p.pingpong_dst n
    → recv_rank p ≡ some r
    → IsPeer r n
unfolding recv_rank
recv_rank-IsPeer p r n src dst h = ground arith

-- Calls that fit with every rank of the communicator fit on all processes.
with_peer_room :
    (p : Params) (extent : Datatype → ℕ) (n rank : ℕ) (calls : ℤ → List MpiCall)
    → eqb_ℤ p.pingpong_src p.pingpong_dst ≡ false
    → IsPeer p.pingpong_src n
    → IsPeer p.pingpong_dst n
    → ((r : ℤ) → IsPeer r n → AllFit extent n rank (calls r))
    → (made : List MpiCall) × (with_peer p calls ≡ goes made) × AllFit extent n rank made
unfolding check AllFit
with_peer_room p extent n rank calls apart src dst fit = elim (Option-cases (recv_rank p)) [
  | inl idle ↦ rw (apart, idle) ([], refl, tt)
  | inr (r, found) ↦ rw (apart, found) (calls r, refl, fit r (recv_rank-IsPeer p r n src dst found))
]

pub sendrecv_room : HasRoom (entry execute_pingpong_Sendrecv initialize_data_pingpong (λ p. p))
unfolding AllFit Fits execute_pingpong_Sendrecv
sendrecv_room extent memory rank info count p₀ q r_ok root_ok no_overflow h =
    let (small, src, dst, apart, e) = pingpong_made extent memory rank info count p₀ q h in
    with_peer_room q extent info.nprocs rank _ (rw e apart) (rw e src) (rw e dst)
      (λ r there. rw e (((small, small, there, there, exact _, exact _), tt)))

pub isend_recv_room : HasRoom (entry execute_pingpong_Isend_Recv initialize_data_pingpong (λ p. p))
unfolding AllFit Fits execute_pingpong_Isend_Recv
isend_recv_room extent memory rank info count p₀ q r_ok root_ok no_overflow h =
    let (small, src, dst, apart, e) = pingpong_made extent memory rank info count p₀ q h in
    with_peer_room q extent info.nprocs rank _ (rw e apart) (rw e src) (rw e dst)
      (λ r there. rw e (((small, there, exact _), ((small, there, exact _), (tt, tt)))))

pub isend_irecv_room :
    HasRoom (entry execute_pingpong_Isend_Irecv initialize_data_pingpong (λ p. p))
unfolding AllFit Fits execute_pingpong_Isend_Irecv
isend_irecv_room extent memory rank info count p₀ q r_ok root_ok no_overflow h =
    let (small, src, dst, apart, e) = pingpong_made extent memory rank info count p₀ q h in
    with_peer_room q extent info.nprocs rank _ (rw e apart) (rw e src) (rw e dst)
      (λ r there. rw e (((small, there, exact _), ((small, there, exact _), (tt, tt)))))

pub send_irecv_room : HasRoom (entry execute_pingpong_Send_Irecv initialize_data_pingpong (λ p. p))
unfolding AllFit Fits execute_pingpong_Send_Irecv
send_irecv_room extent memory rank info count p₀ q r_ok root_ok no_overflow h =
    let (small, src, dst, apart, e) = pingpong_made extent memory rank info count p₀ q h in
    with_peer_room q extent info.nprocs rank _ (rw e apart) (rw e src) (rw e dst)
      (λ r there. rw e (((small, there, exact _), ((small, there, exact _), (tt, tt)))))

-- The operation whose two sides are written out
pub send_recv_room : HasRoom (entry execute_pingpong_Send_Recv initialize_data_pingpong (λ p. p))
unfolding AllFit Fits execute_pingpong_Send_Recv check
send_recv_room extent memory rank info count p₀ q r_ok root_ok no_overflow h =
    let (small, src, dst, apart, e) = pingpong_made extent memory rank info count p₀ q h in
    elim (Bool-cases (eqb_ℤ (pos rank) info.pingpong_src)) [
      | inl at_src ↦
          rw (e, apart, at_src) (_, refl, ((small, dst, exact _), ((small, dst, exact _), tt)))
      | inr off_src ↦ elim (Bool-cases (eqb_ℤ (pos rank) info.pingpong_dst)) [
        | inl at_dst ↦
            rw (e, apart, off_src, at_dst)
              (_, refl, ((small, src, exact _), ((small, src, exact _), tt)))
        | inr off_dst ↦ rw (e, apart, off_src, off_dst) ([], refl, tt)
      ]
    ]
