-- ===== src/Fuzzer/Worker/Serve.antt =====
-- A worker gets through a chunk, however often it crashes.
use mishegos.Base.{
  ℕ, zero, suc, ◌+◌, ◌-◌, ◌^◌, ◌≤◌, ◌<◌, ◌≡◌, refl, sym, ap, ◌∙◌, subst, true, false, ltb, ◌==◌,
  if◌then◌else◌, arith, ==_iff, Bool-cases, inl, inr,
}
use mishegos.Slots.{InputSlot, OutputSlot}
use mishegos.Fuzzer.Worker.{
  InputChunk, OutputChunk, Shared, Decoding, Decoded, WorkerStep, mishegos_num_slots_per_chunk,
  mishegos_num_chunks, update, sub_size, to_u32, add_workers, minus_one, sigchld_handler, restart,
  start_slot, decode_chunk, after_chunk, worker_step, by_death, serve,
}
use mishegos.Fuzzer.Worker.Slot.{
  Filled, After, decode_slots-After, sub_size_lem, to_u32_lem, update_same,
}
use mishegos.Fuzzer.Worker.Restart.{Elsewhere, Pending, Quiet, update_other, after_death-Pending}

module _ (try_decode : OutputSlot → InputSlot → Decoding) (s0 : Shared) (idx : ℕ) where
  abbrev here : InputChunk
  here = s0.input_chunks idx

  -- The chunk is done: each slot has its output, nothing remains, and the worker has counted itself once.
  pub record Served (s : Shared) : Type 0 where
    pub all :
        Filled try_decode here
          (s0.output_chunks idx).outputs
          here.input_count
          (s.output_chunks idx).outputs
    pub nothing_left : (s.output_chunks idx).remaining ≡ 0
    pub counted :
        s.input_chunks idx ≡ record here { remaining_workers = here.remaining_workers - 1 }
    pub elsewhere : Elsewhere try_decode s0 idx s

  -- The worker ends behind a chunk that is not full, and goes on to the next one otherwise.
  pub Goes : ℕ → WorkerStep → Type 0
  Goes gen (WorkerStep.exits s) =
      ((here.input_count == mishegos_num_slots_per_chunk) ≡ false) × Served s
  Goes gen (WorkerStep.next gen' idx' s) =
      ((here.input_count == mishegos_num_slots_per_chunk) ≡ true)
      × (gen' ≡ (if idx + 1 == mishegos_num_chunks then to_u32 (gen + 1) else gen))
      × (idx' ≡ (if idx + 1 == mishegos_num_chunks then 0 else idx + 1))
      × Served s
  Goes gen WorkerStep.waits = ⊥
  Goes gen (WorkerStep.dies s) = ⊥

  after_chunk-Goes :
      (gen k : ℕ) (s : Shared) (oc : OutputChunk)
      → 1 ≤ here.remaining_workers
      → here.remaining_workers < 2 ^ 32
      → Pending try_decode s0 idx k s
      → oc.remaining ≡ 0
      → Filled try_decode here (s0.output_chunks idx).outputs here.input_count oc.outputs
      → Goes gen (after_chunk gen idx s (Decoded.finished oc))
  unfolding after_chunk Goes
  after_chunk-Goes gen k s oc pos lt p r f =
      let s' : Shared = record s {
        input_chunks = update s.input_chunks idx (add_workers minus_one (s.input_chunks idx));
        output_chunks = update s.output_chunks idx oc;
      } in
      let done : Served s' = record {
        all =
            subst
              (λ (o : OutputChunk).
                Filled try_decode here (s0.output_chunks idx).outputs here.input_count o.outputs)
              (sym (update_same idx oc s.output_chunks)) f;
        nothing_left =
            ap (λ (o : OutputChunk). o.remaining) (update_same idx oc s.output_chunks) ∙ r;
        counted =
            update_same idx _ s.input_chunks
            ∙ ap (add_workers minus_one) p.input_here
            ∙ ap (λ (w : ℕ). record here { remaining_workers = w }) (omega arith);
        elsewhere = λ j h. (
          update_other idx j _ s.input_chunks h ∙ (p.elsewhere j h).0,
          update_other idx j _ s.output_chunks h ∙ (p.elsewhere j h).1,
        );
      } in
      let size : ((s.input_chunks idx).input_count == mishegos_num_slots_per_chunk)
          ≡ (here.input_count == mishegos_num_slots_per_chunk) =
        ap (λ (ic : InputChunk). ic.input_count == mishegos_num_slots_per_chunk) p.input_here in
      elim (Bool-cases (here.input_count == mishegos_num_slots_per_chunk)) [
        | inl full ↦ elim (Bool-cases (idx + 1 == mishegos_num_chunks)) [
          | inl last ↦ rw (size, full, last) (full, rw last refl, rw last refl, done)
          | inr inner ↦ rw (size, full, inner) (full, rw inner refl, rw inner refl, done)
        ]
        | inr short ↦ rw (size, short) (short, done)
      ]

  decode_chunk-After :
      (k : ℕ) (s : Shared)
      → here.input_count < 2 ^ 32
      → Pending try_decode s0 idx k s
      → After try_decode here
          (s0.output_chunks idx).outputs
          (here.input_count - k)
          (decode_chunk try_decode here (s.output_chunks idx))
  unfolding decode_chunk
  decode_chunk-After k s lt p =
      let left : to_u32 (sub_size here.input_count k) ≡ here.input_count - k =
        ap to_u32 (sub_size_lem here.input_count k p.in_chunk lt) ∙ to_u32_lem _ (omega arith) in
      rw p.start (
        decode_slots-After try_decode here (s0.output_chunks idx).outputs (here.input_count - k) k _
          lt (omega (arith, p.in_chunk)) left p.filled)

  by_death_lem :
      (gen : ℕ) (f : Shared → WorkerStep) (step : WorkerStep)
      → Goes gen step
      → Goes gen (by_death f step)
  unfolding Goes
  by_death_lem gen f (WorkerStep.exits s) h = h
  by_death_lem gen f (WorkerStep.next gen' idx' s) h = h
  by_death_lem gen f (WorkerStep.waits) h = h
  by_death_lem gen f (WorkerStep.dies s) h = absurd h

  worker_step_lem :
      (k : ℕ) (s : Shared)
      → Pending try_decode s0 idx k s
      → worker_step try_decode here.generation idx s
        ≡ after_chunk here.generation idx s (decode_chunk try_decode here (s.output_chunks idx))
  unfolding worker_step
  worker_step_lem k s p =
      let ready : (here.generation == here.generation) ≡ true = (==_iff _ _).1 refl in
      rw (p.input_here, ready) refl

  abbrev on_death : ℕ → Shared → WorkerStep
  on_death fuel s =
      let s' = restart (sigchld_handler s) in serve try_decode fuel s'.start_gen s'.start_idx s'

  settle :
      (fuel k : ℕ) (s : Shared) (d : Decoded)
      → 1 ≤ here.remaining_workers
      → here.remaining_workers < 2 ^ 32
      → here.input_count < 2 ^ 32
      → idx < mishegos_num_chunks
      → Quiet try_decode s0 idx
      → Pending try_decode s0 idx k s
      → After try_decode here (s0.output_chunks idx).outputs (here.input_count - k) d
      → ((k' : ℕ) (s' : Shared)
          → here.input_count - k' < here.input_count - k
          → Pending try_decode s0 idx k' s'
          → Goes here.generation (serve try_decode fuel here.generation idx s'))
      → Goes here.generation (by_death (on_death fuel) (after_chunk here.generation idx s d))
  unfolding After after_chunk
  settle fuel k s (Decoded.finished oc) pos few lt inside quiet p h ih =
      by_death_lem here.generation _ _ (after_chunk-Goes here.generation k s oc pos few p h.0 h.1)
  settle fuel k s (Decoded.died oc) pos few lt inside quiet p h ih =
      let (i, m, r, e, le, f) = h in
      let (p', gen, at) =
        after_death-Pending try_decode s0 idx k i m s oc few lt inside quiet p r e f in
      simp (gen, at) (ih (suc i) _ (omega arith) p')

  serve_from :
      (fuel k : ℕ) (s : Shared)
      → here.input_count - k < fuel
      → 1 ≤ here.remaining_workers
      → here.remaining_workers < 2 ^ 32
      → here.input_count < 2 ^ 32
      → idx < mishegos_num_chunks
      → Quiet try_decode s0 idx
      → Pending try_decode s0 idx k s
      → Goes here.generation (serve try_decode fuel here.generation idx s)
  unfolding serve
  serve_from zero k s enough pos few lt inside quiet p = absurd (omega arith)
  serve_from (suc fuel) k s enough pos few lt inside quiet p = rw (worker_step_lem k s p) (
      settle fuel k s _ pos few lt inside quiet p (decode_chunk-After k s lt p)
        (λ k' s' less p'. serve_from fuel k' s' (omega arith) pos few lt inside quiet p'))

-- A worker that waits for a chunk which it has not begun, with nothing remaining in any chunk, gets
-- through it however often its decoder crashes: with a start for each slot and one more it neither
-- waits nor stays dead; each slot has the output that the decoder left, marked as a crash where the
-- worker died; nothing remains; the worker has counted itself exactly once; the other chunks are as
-- before; and it ends exactly if the chunk is not full, and goes on to the next chunk otherwise.
pub serve-Goes :
    (try_decode : OutputSlot → InputSlot → Decoding) (s : Shared) (idx fuel : ℕ)
    → (s.input_chunks idx).input_count < fuel
    → 1 ≤ (s.input_chunks idx).remaining_workers
    → (s.input_chunks idx).remaining_workers < 2 ^ 32
    → (s.input_chunks idx).input_count < 2 ^ 32
    → idx < mishegos_num_chunks
    → ((j : ℕ) → (s.output_chunks j).remaining ≡ 0)
    → Goes try_decode s idx
        (s.input_chunks idx).generation
        (serve try_decode fuel (s.input_chunks idx).generation idx s)
unfolding Quiet Filled start_slot
serve-Goes try_decode s idx fuel enough pos few lt inside quiet =
    let begun : ((s.output_chunks idx).remaining == 0) ≡ true = (==_iff _ _).1 (quiet idx) in
    let pending : Pending try_decode s idx 0 s = record {
      input_here = refl;
      elsewhere = λ j h. (refl, refl);
      start = rw begun refl;
      in_chunk = omega arith;
      filled = λ j. let unfilled : ltb j 0 ≡ false = ground arith in rw unfilled refl;
    } in
    serve_from try_decode s idx fuel 0 s (omega arith) pos few lt inside (λ j h. quiet j) pending
