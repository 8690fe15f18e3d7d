-- ===== src/Fuzzer/System/Handover.antt =====
-- src/mishegos/mishegos.c: a round of the loop of `main` between the moves of the workers.
use mishegos.Base.{
  ℕ, ◌+◌, ◌*◌, ◌^◌, ◌≤◌, ◌<◌, ◌≡◌, Bool, true, false, some, ◌==◌, if◌then◌else◌, arith, Bool-cases,
  inl, inr,
}
use mishegos.Slots.{InputSlot, OutputSlot}
use mishegos.Gen.{Gen}
use mishegos.Fuzzer.Worker.{Decoding, to_u32, mishegos_num_chunks}
use mishegos.Fuzzer.Fill.{Filling, Ring, advance, publish, handed_over, fill_next}
use mishegos.Fuzzer.Loop.Round.{advance_lem}
use mishegos.Fuzzer.Crew.{restart_workers}
use mishegos.Fuzzer.System.{System, chunk, ring_of, with_ring}
use mishegos.Fuzzer.System.Stamps.{Words-update, dues-all}
use mishegos.Fuzzer.System.Handing.{handed-Fit}
use mishegos.Fuzzer.System.Round.{
  Round, Round-jobs, Round-unjobs, advance-Round, publish-Round, fill_next-cases,
}
use mishegos.Fuzzer.System.Invariant.{Inv, all-done, no-flags}

module _ (try_decode : ℕ → OutputSlot → InputSlot → Decoding) (n : ℕ) (few : n ≤ 31) (sys : System)
    (fork : ℕ → ℕ) (v : Inv try_decode n sys) (waited : (chunk sys sys.idx).remaining_workers ≡ 0)
    (quiet : (restart_workers fork n 0 sys.crew).0 ≡ false) (bound : sys.gen + 1 < 2 ^ 32) where
  plain : Round (chunk sys) sys.gen sys.idx sys.exit_idx sys.published
  plain = Round-unjobs _ _ _ _ _ v.round

  -- `main` fills the chunk and hands it over: every worker in use owes it.
  publish-Inv :
      (f : Filling)
      → (sys.exit_idx == mishegos_num_chunks) ≡ true
      → Inv try_decode n (with_ring (advance (publish n f (ring_of sys))) (sys.published + 1) sys)
  unfolding publish
  publish-Inv f filling =
      let p = publish n f (ring_of sys) in
      let (_, _, ec, _) = advance_lem p in
      let here = v.round.filling filling in
      let done = all-done try_decode n sys fork few v waited quiet in
      let low = (v.round.stamps sys.idx v.round.inside).0 in
      record {
        round =
            Round-jobs _ _ _ _ _
              (publish-Round n f (ring_of sys) sys.published plain filling bound);
        fits = λ k lt. rw ec (
            handed-Fit (try_decode k) (chunk sys) (sys.crew.workers k) (sys.served k) sys.idx
              (handed_over n f sys.gen) (sys.positions k) (done k lt)
              (omega (arith, here, v.pace k lt, bound)) (v.fits k lt));
        pace = λ k lt. (omega (arith, v.pace k lt), omega (arith, low, done k lt));
        counts = λ j within. rw ec (elim (Bool-cases (j == sys.idx)) [
          | inl at ↦
              let same : j ≡ sys.idx = ground arith in
              let none = no-flags try_decode n sys fork v quiet j in
              let owed =
                dues-all sys.served (to_u32 sys.gen * 16 + j) n
                  (λ i lt. omega (arith, here, v.pace i lt, bound, same)) in
              rw (at, none, owed) (omega arith)
          | inr other ↦ rw other (v.counts j within)
        ]);
        words = rw ec (Words-update (chunk sys) sys.idx _ v.words (omega arith));
        unused = v.unused;
      }

  -- `main` is on its last round of the ring, and hands nothing over.
  go_on-Inv :
      (sys.exit_idx == mishegos_num_chunks) ≡ false
      → (sys.idx == sys.exit_idx) ≡ false
      → Inv try_decode n (with_ring (advance (ring_of sys)) sys.published sys)
  go_on-Inv leaving on =
      let (_, _, ec, _) = advance_lem (ring_of sys) in
      record {
        round =
            Round-jobs _ _ _ _ _ (advance-Round (ring_of sys) sys.published plain leaving on bound);
        fits = λ k lt. rw ec (v.fits k lt);
        pace = v.pace;
        counts = λ j within. rw ec (v.counts j within);
        words = rw ec v.words;
        unused = v.unused;
      }

  pub rounds-Inv :
      {S : Type 0} (mutator : InputSlot → Gen S (Bool × InputSlot)) (r : Ring) (s s' : S)
      → (sys.idx == sys.exit_idx) ≡ false
      → fill_next mutator n (ring_of sys) s ≡ some (r, s')
      → Inv try_decode n (
          with_ring r
            (if sys.exit_idx == mishegos_num_chunks then sys.published + 1 else sys.published)
            sys)
  rounds-Inv mutator r s s' on e = elim (fill_next-cases mutator n (ring_of sys) r s s' e) [
    | inl (filling, (f, same)) ↦ rw (same, filling) (publish-Inv f filling)
    | inr (leaving, same) ↦ rw (same, leaving) (go_on-Inv leaving on)
  ]
