-- ===== src/Measure/Judge.antt =====
-- One iteration of the measurement loop: the judgement agrees with the description of the report.
use native.Mathlib.Decide.{dec_lt}
use reprompi_dev.Prelude.{
  ℕ, suc, ◌+◌, ◌-◌, ◌≡◌, ◌<◌, ap, sym, ◌∙◌, true, some, List, [], ◌∷◌, ◌++◌, arith, length,
  length-set, length-append, set, ◌≢◌, inl, inr,
}
use reprompi_dev.Measure.{
  Samples, Attempt, Next, stop, again, judge, invalid_measurement, out_of_time_valid,
  out_of_time_invalid,
}
use reprompi_dev.Measure.Kept.{
  pairs, reported, drop_last, report, pairs-set, pairs-set_above, drop_last-pairs, length-pairs,
  all, counts, report_redo, report_valid, report_invalid, report_full, report_more, verdicts,
}

module _ {T : Type 0} where
  -- There is room for one more pair, and the arrays are as long as the struct says.
  pub record IsOpen (s : Samples T) : Type 0 where
    pub room : s.i < s.n_rep
    pub starts : length s.tstart_sec ≡ s.n_rep
    pub ends : length s.tend_sec ≡ s.n_rep

  abbrev pub kept : Samples T → List (T × T)
  kept s = pairs s.i s.tstart_sec s.tend_sec

  abbrev pub written : Samples T → Attempt T → Samples T
  written s a = record s {
    tstart_sec = set s.tstart_sec s.i a.tstart;
    tend_sec = set s.tend_sec s.i a.tend;
  }

  kept-written :
      (s : Samples T) (a : Attempt T)
      → IsOpen s
      → pairs (suc s.i) (written s a).tstart_sec (written s a).tend_sec
        ≡ kept s ++ ((a.tstart, a.tend) ∷ [])
  kept-written s a o =
      pairs-set s.i s.tstart_sec s.tend_sec a.tstart a.tend (omega (arith, o.room, o.starts))
        (omega (arith, o.room, o.ends))

  -- The loop goes on, or it ends, as the description does.
  abbrev pub Agrees : Samples T → Attempt T → List (Attempt T) → Next T → Type 0
  Agrees s a rest (stop s') = report s.n_rep (kept s) (a ∷ rest) ≡ some (reported s')
  Agrees s a rest (again s') =
      IsOpen s' × (report s.n_rep (kept s) (a ∷ rest) ≡ report s'.n_rep (kept s') rest)

  judge_redo :
      (s : Samples T) (c : ℕ) → s.i < s.n_rep → c ≡ invalid_measurement → judge c s ≡ again s
  unfolding judge
  judge_redo s c p h = ground arith

  judge_valid :
      (s : Samples T) (c : ℕ)
      → c ≡ out_of_time_valid
      → judge c s ≡ stop (record s { n_rep = s.i + 1 })
  unfolding judge
  judge_valid s c h = ground arith

  judge_invalid :
      (s : Samples T) (c : ℕ)
      → c ≡ out_of_time_invalid
      → judge c s ≡ stop (record s { n_rep = s.i - 1 })
  unfolding judge
  judge_invalid s c h = ground arith

  judge_full :
      (s : Samples T) (a : Attempt T)
      → counts a ≡ true
      → suc s.i ≡ s.n_rep
      → judge a.code s ≡ stop (record s { i = s.i + 1 })
  unfolding judge
  judge_full s a h e = ground arith

  judge_more :
      (s : Samples T) (a : Attempt T)
      → counts a ≡ true
      → suc s.i ≢ s.n_rep
      → judge a.code s ≡ again (record s { i = s.i + 1 })
  unfolding judge
  judge_more s a h e = ground arith

  pub judge-report :
      (s : Samples T) (a : Attempt T) (rest : List (Attempt T))
      → IsOpen s
      → Agrees s a rest (judge a.code (written s a))
  judge-report s a rest o =
      let s' = written s a in
      let starts : length s'.tstart_sec ≡ s.n_rep =
        length-set s.tstart_sec s.i a.tstart ∙ o.starts in
      let ends : length s'.tend_sec ≡ s.n_rep = length-set s.tend_sec s.i a.tend ∙ o.ends in
      let k : length (kept s) ≡ s.i =
        length-pairs s.i s.tstart_sec s.tend_sec (omega (arith, o.room, o.starts))
          (omega (arith, o.room, o.ends)) in
      let k' : length (all s.n_rep (kept s) a rest) ≡ suc s.i =
        omega (arith, length-append (kept s) ((a.tstart, a.tend) ∷ []), k) in
      let same : pairs s.i s'.tstart_sec s'.tend_sec ≡ kept s =
        pairs-set_above s.i s.i s.tstart_sec s.tend_sec a.tstart a.tend (omega arith) in
      let next : s.i + 1 ≡ suc s.i = omega arith in
      let more : pairs (s.i + 1) s'.tstart_sec s'.tend_sec ≡ all s.n_rep (kept s) a rest =
        ap (λ n. pairs n s'.tstart_sec s'.tend_sec) next ∙ kept-written s a o in
      elim (verdicts a) [
        | inl h ↦ rw (judge_redo s' a.code o.room h) (
          record { room = o.room; starts = starts; ends = ends },
          report_redo s.n_rep (kept s) a rest h ∙ ap (λ d. report s.n_rep d rest) (sym same),
        )
        | inr (inl h) ↦
            unfold reported in
            rw (judge_valid s' a.code h)
              (report_valid s.n_rep (kept s) a rest h ∙ ap some (sym more))
        | inr (inr (inl h)) ↦
            unfold reported in
            rw (judge_invalid s' a.code h) (
              report_invalid s.n_rep (kept s) a rest h
              ∙ ap (λ d. some (drop_last d)) (sym same)
              ∙ ap some (
                  sym (
                    drop_last-pairs s.i s'.tstart_sec s'.tend_sec (omega (arith, starts, o.room))
                      (omega (arith, ends, o.room)))))
        | inr (inr (inr h)) ↦ elim (dec_lt (suc s.i) s.n_rep) [
          | yes lt ↦ rw (judge_more s' a h (omega (arith, lt))) (
            record { room = omega (arith, lt); starts = starts; ends = ends },
            report_more s.n_rep (kept s) a rest h (omega (arith, k', lt))
                ∙ ap (λ d. report s.n_rep d rest) (sym more),
          )
          | no ge ↦
              let full : suc s.i ≡ s.n_rep = omega (arith, o.room) in
              unfold reported in
              rw (judge_full s' a h full) (
                report_full s.n_rep (kept s) a rest h (k' ∙ full)
                ∙ ap some (
                    sym (
                      ap (λ n. pairs n s'.tstart_sec s'.tend_sec) (sym full) ∙ kept-written s a o)))
        ]
      ]
