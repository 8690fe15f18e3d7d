-- ===== src/Fuzzer/System/Signals.antt =====
-- src/mishegos/mishegos.c: the handler of a worker's death, and its restart.
use mishegos.Base.{
  ℕ, zero, suc, ◌+◌, ◌*◌, ◌^◌, ◌<◌, ◌≡◌, refl, ap, ◌∙◌, inl, inr, true, false, ◌==◌, arith,
  Bool-cases, ==_iff,
}
use mishegos.Slots.{InputSlot, OutputSlot}
use mishegos.Fuzzer.Worker.{
  InputChunk, OutputChunk, Shared, Decoding, update, sub_u32, to_u32, marked, minus_one, start_slot,
  find_crash, sigchld_handler, restart, mishegos_num_chunks,
}
use mishegos.Fuzzer.Worker.Slot.{Filled, expected, sub_u32_lem, update_same}
use mishegos.Fuzzer.Worker.Restart.{find_crash_lem, note_crash_lem, start_slot_lem}
use mishegos.Fuzzer.System.{Position, Gone}
use mishegos.Fuzzer.System.Stamps.{stamp, jobs, jobs-add_workers, Words, Words-update}
use mishegos.Fuzzer.System.Fit.{worker_of, Answered, Crashed, Noted, Resting, Stands, Fit}

find_crash-quiet :
    (n w : ℕ) (s : Shared) → ((j : ℕ) → (s.output_chunks j).remaining ≡ 0) → find_crash n w s ≡ s
unfolding find_crash
find_crash-quiet zero w s quiet = refl
find_crash-quiet (suc n) w s quiet =
    let none : ((s.output_chunks w).remaining == 0) ≡ true = (==_iff _ _).1 (quiet w) in
    rw none (find_crash-quiet n (w + 1) s quiet)

module _ (try_decode : OutputSlot → InputSlot → Decoding) (v : ℕ) (s : Shared) where
  abbrev chunks : ℕ → InputChunk
  chunks = jobs s.input_chunks

  -- The work in the chunks is as before, and the worker fits.
  abbrev pub Still : ℕ → Position → Shared → Type 0
  Still pid p s' =
      (jobs s'.input_chunks ≡ chunks)
      × (Words s.input_chunks → Words s'.input_chunks)
      × Fit try_decode chunks (worker_of pid s') p v

  crash-Still :
      (pid g x : ℕ)
      → ((j : ℕ) → (s.input_chunks j).input_count < 2 ^ 32)
      → Fit try_decode chunks (worker_of pid s) (Position.dead g x) v
      → g * 16 + x ≡ v + 16
      → Crashed try_decode (chunks x) s.output_chunks x v
      → Still pid (Position.dead g x) (sigchld_handler s)
  unfolding sigchld_handler Stands start_slot Answered Filled expected
  crash-Still pid g x counts f e c =
      let ic = s.input_chunks x in
      let oc = s.output_chunks x in
      let at : sub_u32 ic.input_count oc.remaining ≡ c.slot = rw c.remains (
        sub_u32_lem ic.input_count (suc c.left) (omega (arith, c.in_chunk)) (counts x)
        ∙ omega (arith, c.in_chunk)) in
      let found =
        find_crash_lem mishegos_num_chunks 0 x s c.left (omega arith) (omega (arith, c.inside))
          c.elsewhere c.remains
        ∙ note_crash_lem ic oc x c.slot s refl refl at in
      let again : OutputChunk = record oc {
        outputs = update oc.outputs c.slot (marked (oc.outputs c.slot));
      } in
      let fresh = update_same x again s.output_chunks in
      let start : start_slot ic again ≡ suc c.slot =
        start_slot_lem ic again c.slot c.left c.remains c.in_chunk (counts x) in
      rw found (
        jobs-add_workers s.input_chunks minus_one x,
        (λ words. Words-update s.input_chunks x _ words (omega arith)),
        record {
          stands = (
            e,
            inr (record {
              signalled = refl;
              again_gen = omega (arith, c.handed, e);
              again_idx = refl;
              handed = c.handed;
              standing = record {
                inside = c.inside;
                in_chunk = rw (fresh, start) (omega (arith, c.in_chunk));
                begun = rw (fresh, start) c.begun;
                fresh = inl c.handed;
                elsewhere = λ j other. rw other (c.elsewhere j other);
              };
            }),
          );
          behind = λ j within later lt. elim (Bool-cases (j == x)) [
            | inl here ↦
                let same : j ≡ x = ground arith in
                absurd (omega (arith, c.handed, lt, ap (stamp chunks) same))
            | inr other ↦ rw other (f.behind j within later lt)
          ];
        },
      )

  -- The handler notes the crash of a worker that died, and lets one that ended be.
  pub handler-Still :
      (pid : ℕ) (p : Position)
      → ((j : ℕ) → (s.input_chunks j).input_count < 2 ^ 32)
      → Fit try_decode chunks (worker_of pid s) p v
      → Gone p
      → s.sigchld ≡ false
      → Still pid p (sigchld_handler s)
  unfolding Stands Resting sigchld_handler
  handler-Still pid (Position.at g x) counts f gone quiet = absurd gone
  handler-Still pid (Position.counted g x) counts f gone quiet = absurd gone
  handler-Still pid Position.ended counts f gone quiet =
      rw (find_crash-quiet mishegos_num_chunks 0 s f.stands.1) (refl, (λ words. words), f)
  handler-Still pid (Position.dead g x) counts f gone quiet = elim f.stands.1 [
    | inl (_, c) ↦ crash-Still pid g x counts f f.stands.0 c
    | inr n ↦ absurd (cc (n.signalled, quiet))
  ]

  -- A worker that is started again fits where it starts.
  again-Still :
      (pid pid' g x : ℕ)
      → v + 16 < 2 ^ 36
      → Fit try_decode chunks (worker_of pid s) (Position.dead g x) v
      → g * 16 + x ≡ v + 16
      → Noted try_decode (chunks x) (worker_of pid s) g x v
      → Still pid' (Position.at (to_u32 s.start_gen) s.start_idx) (restart s)
  unfolding restart Stands
  again-Still pid pid' g x bound f e n =
      let small : to_u32 s.start_gen ≡ g = omega (arith, n.again_gen) in
      rw n.signalled (
        jobs-add_workers s.input_chunks 1 s.start_idx,
        (λ words. Words-update s.input_chunks s.start_idx _ words (omega arith)),
        rw (small, n.again_idx) (record { stands = (refl, e, n.standing); behind = f.behind }),
      )

  pub restart-Still :
      (pid pid' : ℕ) (p : Position)
      → v + 16 < 2 ^ 36
      → Fit try_decode chunks (worker_of pid s) p v
      → s.sigchld ≡ true
      → Still pid' (Position.at (to_u32 s.start_gen) s.start_idx) (restart s)
  unfolding Stands Resting
  restart-Still pid pid' (Position.at g x) bound f marked = absurd (cc (f.stands.0, marked))
  restart-Still pid pid' (Position.counted g x) bound f marked = absurd (cc (f.stands.0.0, marked))
  restart-Still pid pid' Position.ended bound f marked = absurd (cc (f.stands.0, marked))
  restart-Still pid pid' (Position.dead g x) bound f marked = elim f.stands.1 [
    | inl (quiet, _) ↦ absurd (cc (quiet, marked))
    | inr n ↦ again-Still pid pid' g x bound f f.stands.0 n
  ]
