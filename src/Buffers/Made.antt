-- ===== src/Buffers/Made.antt =====
-- What an initialisation leaves behind when it does not stop the process.
use mathlib.Core.List.{append-nil}
use reprompi_dev.Prelude.{
  ℕ, zero, suc, ◌+◌, ◌*◌, ◌<◌, ◌≡◌, refl, ap, sym, ◌∙◌, Bool, true, false, none, some, List, ◌∷◌,
  length, replicate, set, ◌++◌, length-append, lt→ltb, ltb, ltb→lt, length-replicate, arith,
}
use reprompi_dev.Buffers.Inits.{memset, clear_buffers, fill_counts}
use reprompi_dev.Buffers.{
  Datatype, Info, Params, Stop, Outcome, stopped, goes, ◌>>=◌, ◌>>◌, check, assertion_failed,
  Buffer, int_max, reprompi_calloc, initialize_common_data, allocate,
}

module _ {A : Type 0} where
  pub stopped-ne-goes : (s : Stop) (a : A) → stopped s ≡ goes a → ⊥
  stopped-ne-goes s a h = cc

  pub goes-injective : (a b : A) → goes a ≡ goes b → a ≡ b
  goes-injective a b h = cc

module _ {A B : Type 0} where
  pub >>=-goes :
      (o : Outcome A) (f : A → Outcome B) (b : B)
      → (o >>= f) ≡ goes b
      → (a : A) × (o ≡ goes a) × (f a ≡ goes b)
  >>=-goes (stopped s) f b h = absurd (stopped-ne-goes s b h)
  >>=-goes (goes a) f b h = (a, refl, h)

module _ {B : Type 0} where
  pub >>-check :
      (t : Bool) (s : Stop) (o : Outcome B) (b : B)
      → (check t s >> o) ≡ goes b
      → (t ≡ true) × (o ≡ goes b)
  unfolding check
  >>-check true s o b h = (refl, h)
  >>-check false s o b h = absurd (stopped-ne-goes s b h)

pub reprompi_calloc_goes :
    (memory : ℕ → Bool) (n e : ℕ) (b : Buffer)
    → reprompi_calloc memory n e ≡ goes b
    → b ≡ replicate (n * e) 0
unfolding reprompi_calloc
reprompi_calloc_goes memory n e b h = ground arith

-- the members that `initialize_common_data` sets
abbrev pub common : (Datatype → ℕ) → ℕ → Info → Params → Params
common extent rank info p = record p {
  sbuf = none;
  rbuf = none;
  tmp_buf = none;
  nprocs = info.nprocs;
  root = info.root;
  datatype = info.datatype;
  datatype_extent = extent info.datatype;
  op = info.op;
  rank = rank;
  counts_array = none;
  displ_array = none;
  pingpong_src = info.pingpong_src;
  pingpong_dst = info.pingpong_dst;
}

-- the members that `allocate` sets
abbrev pub allocated : ℕ → ℕ → ℕ → Params → Params
allocated count scount rcount p = record p {
  count = count;
  scount = scount;
  rcount = rcount;
  sbuf = some (replicate (scount * p.datatype_extent) 0);
  rbuf = some (replicate (rcount * p.datatype_extent) 0);
}

pub initialize_common_data_goes :
    (extent : Datatype → ℕ) (rank : ℕ) (info : Info) (p q : Params)
    → initialize_common_data extent rank info p ≡ goes q
    → (0 < info.nprocs) × (q ≡ common extent rank info p)
unfolding initialize_common_data
initialize_common_data_goes extent rank info p q h =
    let (t, e) =
      >>-check (ltb 0 info.nprocs) assertion_failed (goes (common extent rank info p)) q h in
    (ltb→lt 0 info.nprocs t, sym (goes-injective _ _ e))

pub allocate_goes :
    (memory : ℕ → ℕ → Bool) (k count scount rcount : ℕ) (p q : Params)
    → allocate memory k count scount rcount p ≡ goes q
    → (scount < int_max) × (rcount < int_max) × (q ≡ allocated count scount rcount p)
unfolding allocate reprompi_calloc check
allocate_goes memory k count scount rcount p q h = ground arith

-- After the common part, the rest runs on the members that it set.
pub after_common :
    (extent : Datatype → ℕ) (rank : ℕ) (info : Info) (p q : Params) (rest : Params → Outcome Params)
    → (initialize_common_data extent rank info p >>= rest) ≡ goes q
    → rest (common extent rank info p) ≡ goes q
unfolding initialize_common_data check
after_common extent rank info p q rest h = ground arith

-- The two calls of `memset` stay inside their blocks and change nothing.
memset_zeros : (n : ℕ) → memset (replicate n 0) 0 n ≡ goes (replicate n 0)
unfolding memset
memset_zeros zero = refl
memset_zeros (suc n) = rw (memset_zeros n) refl

pub clear_buffers_goes :
    (count scount rcount : ℕ) (p : Params)
    → let q : Params = allocated count scount rcount p in clear_buffers q.sbuf q.rbuf q ≡ goes q
unfolding clear_buffers
clear_buffers_goes count scount rcount p =
    rw (memset_zeros (scount * p.datatype_extent), memset_zeros (rcount * p.datatype_extent)) refl

-- One write of the loop over the counts, behind `i` counts that are written already.
set_next :
    (i count : ℕ) (rest : List ℕ)
    → set (replicate i count ++ 0 ∷ rest) i count ≡ replicate (suc i) count ++ rest
set_next zero count rest = refl
set_next (suc i) count rest = ap (λ xs. count ∷ xs) (set_next i count rest)

-- The loop over the counts stays inside its array.
fill_counts_from :
    (n i count : ℕ)
    → fill_counts n i count (replicate i count ++ replicate n 0) ≡ goes (replicate (i + n) count)
unfolding fill_counts
fill_counts_from zero i count =
    let same_length : i + 0 ≡ i = omega arith in
    rw (append-nil (replicate i count), same_length) refl
fill_counts_from (suc n) i count =
    let inside : ltb i (length (replicate i count ++ 0 ∷ replicate n 0)) ≡ true = lt→ltb i _ (
      omega
        (arith, length-append (replicate i count) (0 ∷ replicate n 0), length-replicate i count)) in
    let next : i + 1 ≡ suc i = omega arith in
    let last : i + suc n ≡ suc i + n = omega arith in
    rw (inside, set_next i count (replicate n 0), next, last) (fill_counts_from n (suc i) count)

pub fill_counts_goes :
    (n count : ℕ) → fill_counts n 0 count (replicate n 0) ≡ goes (replicate n count)
fill_counts_goes n count =
    let total : n ≡ 0 + n = omega arith in
    fill_counts_from n 0 count ∙ ap (λ m. goes (replicate m count)) (sym total)
