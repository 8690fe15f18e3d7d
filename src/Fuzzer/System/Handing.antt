-- ===== src/Fuzzer/System/Handing.antt =====
-- src/mishegos/mishegos.c: `main` hands a chunk over while the workers go on.
use mishegos.Base.{
  ℕ, ◌+◌, ◌*◌, ◌≤◌, ◌<◌, ◌≡◌, refl, sym, ap, subst, inl, inr, true, false, ◌==◌, arith, Bool-cases,
  ==_iff,
}
use mishegos.Slots.{InputSlot, OutputSlot}
use mishegos.Fuzzer.Worker.{InputChunk, Decoding, update, start_slot}
use mishegos.Fuzzer.Crew.{Worker}
use mishegos.Fuzzer.System.{Position}
use mishegos.Fuzzer.System.Stamps.{stamp, jobs}
use mishegos.Fuzzer.System.Fit.{Answered, Standing, Crashed, Noted, Stands, Fit, none-Answered}

-- The chunk at `idx` is replaced; this worker had ended it and owes the new one.
module _ (try_decode : OutputSlot → InputSlot → Decoding) (chunks : ℕ → InputChunk) (w : Worker)
    (v idx : ℕ) (new : InputChunk) where
  after : ℕ → InputChunk
  after = jobs (update chunks idx new)

  elsewhere-jobs : (j : ℕ) → (j == idx) ≡ false → jobs chunks j ≡ after j
  unfolding after
  elsewhere-jobs j other = rw other refl

  -- A chunk that the worker is in is not replaced.
  handed-elsewhere :
      (x : ℕ) → stamp chunks idx < v + 16 → stamp chunks x ≡ v + 16 → (x == idx) ≡ false
  handed-elsewhere x past handed = elim (Bool-cases (x == idx)) [
    | inl here ↦
        let same : x ≡ idx = ground arith in
        absurd (omega (arith, past, handed, ap (stamp chunks) same))
    | inr other ↦ other
  ]

  handed-Standing :
      (x : ℕ)
      → stamp chunks idx < v + 16
      → Standing try_decode (jobs chunks x) w.output_chunks x v
      → Standing try_decode (after x) w.output_chunks x v
  handed-Standing x past st = elim st.fresh [
    | inl handed ↦
        subst (λ (ic : InputChunk). Standing try_decode ic w.output_chunks x v)
          (elsewhere-jobs x (handed-elsewhere x past handed)) st
    | inr quiet ↦
        let none : start_slot (after x) (w.output_chunks x) ≡ 0 =
          unfold start_slot in
          let begun : ((w.output_chunks x).remaining == 0) ≡ true = (==_iff _ _).1 quiet in
          rw begun refl in
        record {
          inside = st.inside;
          in_chunk = rw none (omega arith);
          begun = rw none (none-Answered try_decode (after x) (w.output_chunks x).outputs);
          fresh = inr quiet;
          elsewhere = st.elsewhere;
        }
  ]

  handed-Stands :
      (p : Position)
      → stamp chunks idx < v + 16
      → Stands try_decode (jobs chunks) w v p
      → Stands try_decode after w v p
  unfolding Stands
  handed-Stands (Position.at g x) past (quiet, e, st) = (quiet, e, handed-Standing x past st)
  handed-Stands (Position.counted g x) past h = h
  handed-Stands Position.ended past h = h
  handed-Stands (Position.dead g x) past (e, h) = elim h [
    | inl (quiet, c) ↦ (
      e,
      inl (
        quiet,
        subst (λ (ic : InputChunk). Crashed try_decode ic w.output_chunks x v)
            (elsewhere-jobs x (handed-elsewhere x past c.handed)) c,
      ),
    )
    | inr n ↦ (
      e,
      inr (
          subst (λ (ic : InputChunk). Noted try_decode ic w g x v)
            (elsewhere-jobs x (handed-elsewhere x past n.handed)) n),
    )
  ]

  pub handed-Fit :
      (p : Position)
      → stamp chunks idx < v + 16
      → v + 16 ≤ new.generation * 16 + idx
      → Fit try_decode (jobs chunks) w p v
      → Fit try_decode (jobs (update chunks idx new)) w p v
  unfolding after
  handed-Fit p past later f = record {
    stands = handed-Stands p past f.stands;
    behind = λ j within from lt. elim (Bool-cases (j == idx)) [
      | inl here ↦
          let same : j ≡ idx = ground arith in
          let now : stamp (update chunks idx new) j ≡ new.generation * 16 + j = rw here refl in
          absurd (omega (arith, now, lt, same, later))
      | inr other ↦
          subst
            (λ (ic : InputChunk). Answered try_decode ic ic.input_count (w.output_chunks j).outputs)
            (elsewhere-jobs j other)
            (f.behind j within
              (subst (λ (ic : InputChunk). 16 ≤ ic.generation * 16 + j)
                (sym (elsewhere-jobs j other)) from)
              (subst (λ (ic : InputChunk). ic.generation * 16 + j < v + 16)
                (sym (elsewhere-jobs j other)) lt))
    ];
  }
