-- ===== src/Fuzzer/Worker/Restart.antt =====
-- Behind a crash: the handler finds the slot, and the worker goes on with the next one.
use mishegos.Base.{
  ℕ, zero, suc, ◌+◌, ◌^◌, ◌≤◌, ◌<◌, ◌≡◌, refl, sym, ap, ◌∙◌, subst, true, false, ◌==◌, arith,
  lt→==_false, Bool-cases, inl, inr,
}
use mishegos.Slots.{InputSlot, OutputSlot}
use mishegos.Fuzzer.Worker.{
  InputChunk, OutputChunk, Shared, Decoding, mishegos_num_chunks, update, sub_size, sub_u32, to_u32,
  marked, add_workers, minus_one, note_crash, find_crash, sigchld_handler, restart, start_slot,
}
use mishegos.Fuzzer.Worker.Slot.{Filled, sub_size_lem, sub_u32_lem, update_same}

pub update_other :
    {A : Type 0} (i j : ℕ) (a : A) (f : ℕ → A) → (j == i) ≡ false → update f i a j ≡ f j
update_other i j a f h = rw h refl

-- The handler passes over the chunks in which the worker has nothing left.
pub find_crash_lem :
    (n w idx : ℕ) (s : Shared) (m : ℕ)
    → w ≤ idx
    → idx < n + w
    → ((j : ℕ) → (j == idx) ≡ false → (s.output_chunks j).remaining ≡ 0)
    → (s.output_chunks idx).remaining ≡ suc m
    → find_crash n w s ≡ note_crash idx s
unfolding find_crash
find_crash_lem zero w idx s m le lt quiet r = absurd (omega arith)
find_crash_lem (suc n) w idx s m le lt quiet r = elim (Bool-cases (w == idx)) [
  | inl here ↦
      let we : w ≡ idx = ground arith in
      let busy : ((s.output_chunks idx).remaining == 0) ≡ false =
        ap (λ (t : ℕ). t == 0) r ∙ lt→==_false 0 (suc m) (omega arith) in
      rw (we, busy) refl
  | inr other ↦
      rw (quiet w other) (find_crash_lem n (w + 1) idx s m (ground arith) (omega arith) quiet r)
]

-- The count of a worker that died and was started again is as before.
count_again : (w : ℕ) → w < 2 ^ 32 → to_u32 (to_u32 (w + minus_one) + 1) ≡ w
count_again w lt = omega arith

-- The handler's notes on a crash in slot `i`.
abbrev pub noted : InputChunk → OutputChunk → ℕ → ℕ → Shared → Shared
noted ic oc idx i s = record {
  input_chunks = update s.input_chunks idx (add_workers minus_one ic);
  output_chunks =
      update s.output_chunks idx
        (record oc { outputs = update oc.outputs i (marked (oc.outputs i)) });
  start_gen = ic.generation;
  start_idx = idx;
  sigchld = true;
}

pub note_crash_lem :
    (ic : InputChunk) (oc : OutputChunk) (idx i : ℕ) (s : Shared)
    → s.input_chunks idx ≡ ic
    → s.output_chunks idx ≡ oc
    → sub_u32 ic.input_count oc.remaining ≡ i
    → note_crash idx s ≡ noted ic oc idx i s
unfolding note_crash
note_crash_lem ic oc idx i s hi ho ha = rw (hi, ho, ha) refl

pub start_slot_lem :
    (ic : InputChunk) (oc : OutputChunk) (i m : ℕ)
    → oc.remaining ≡ suc m
    → i + suc m ≡ ic.input_count
    → ic.input_count < 2 ^ 32
    → start_slot ic oc ≡ suc i
unfolding start_slot
start_slot_lem ic oc i m r e lt =
    let at : sub_size ic.input_count (suc m) ≡ i =
      sub_size_lem ic.input_count (suc m) (omega arith) lt ∙ omega arith in
    rw (r, lt→==_false 0 (suc m) (omega arith), at) (omega arith)

module _ (try_decode : OutputSlot → InputSlot → Decoding) (s0 : Shared) (idx : ℕ) where
  abbrev pub here : InputChunk
  here = s0.input_chunks idx

  -- The other chunks are as before.
  abbrev pub Elsewhere : Shared → Type 0
  Elsewhere s =
      (j : ℕ)
      → (j == idx) ≡ false
      → (s.input_chunks j ≡ s0.input_chunks j) × (s.output_chunks j ≡ s0.output_chunks j)

  -- The worker is about to go on at slot `k` of the chunk.
  pub record Pending (k : ℕ) (s : Shared) : Type 0 where
    pub input_here : s.input_chunks idx ≡ here
    pub elsewhere : Elsewhere s
    pub start : start_slot here (s.output_chunks idx) ≡ k
    pub in_chunk : k ≤ here.input_count
    pub filled :
        Filled try_decode here (s0.output_chunks idx).outputs k (s.output_chunks idx).outputs

  -- Nothing remains in the other chunks.
  unfoldable pub Quiet : Type 0
  Quiet = (j : ℕ) → (j == idx) ≡ false → (s0.output_chunks j).remaining ≡ 0

  abbrev pub after_death : Shared → OutputChunk → Shared
  after_death s oc =
      restart (sigchld_handler (record s { output_chunks = update s.output_chunks idx oc }))

  pub after_death-Pending :
      (k i m : ℕ) (s : Shared) (oc : OutputChunk)
      → here.remaining_workers < 2 ^ 32
      → here.input_count < 2 ^ 32
      → idx < mishegos_num_chunks
      → Quiet
      → Pending k s
      → oc.remaining ≡ suc m
      → i + suc m ≡ here.input_count
      → Filled try_decode here
          (s0.output_chunks idx).outputs
          (suc i)
          (update oc.outputs i (marked (oc.outputs i)))
      → Pending (suc i) (after_death s oc)
        × ((after_death s oc).start_gen ≡ here.generation)
        × ((after_death s oc).start_idx ≡ idx)
  unfolding restart sigchld_handler Quiet start_slot
  after_death-Pending k i m s oc few lt inside quiet p r e f =
      let s1 : Shared = record s { output_chunks = update s.output_chunks idx oc } in
      let at : sub_u32 here.input_count oc.remaining ≡ i =
        rw r (sub_u32_lem here.input_count (suc m) (omega arith) lt ∙ omega arith) in
      let out : s1.output_chunks idx ≡ oc = update_same idx oc s.output_chunks in
      let silent : (j : ℕ) → (j == idx) ≡ false → (s1.output_chunks j).remaining ≡ 0 = λ j h.
        ap (λ (o : OutputChunk). o.remaining)
          (update_other idx j oc s.output_chunks h ∙ (p.elsewhere j h).1)
        ∙ quiet j h in
      let found =
        find_crash_lem mishegos_num_chunks 0 idx s1 m (omega arith) (omega arith) silent
          (ap (λ (o : OutputChunk). o.remaining) out ∙ r)
        ∙ note_crash_lem here oc idx i s1 p.input_here out at in
      let again = record oc { outputs = update oc.outputs i (marked (oc.outputs i)) } in
      let fresh = update_same idx again s1.output_chunks in
      let less = add_workers minus_one here in
      let counts = update s.input_chunks idx less in
      let pending : Pending (suc i) (restart (noted here oc idx i s1)) = record {
        input_here =
            update_same idx (add_workers 1 (counts idx)) counts
            ∙ ap (add_workers 1) (update_same idx less s.input_chunks)
            ∙ ap (λ (w : ℕ). record here { remaining_workers = w })
                (count_again here.remaining_workers few);
        elsewhere = λ j h. (
          update_other idx j (add_workers 1 (counts idx)) counts h
              ∙ update_other idx j less s.input_chunks h
              ∙ (p.elsewhere j h).0,
          update_other idx j _ s1.output_chunks h
              ∙ update_other idx j oc s.output_chunks h
              ∙ (p.elsewhere j h).1,
        );
        start = ap (start_slot here) fresh ∙ start_slot_lem here again i m r e lt;
        in_chunk = omega arith;
        filled =
            subst
              (λ (o : OutputChunk).
                Filled try_decode here (s0.output_chunks idx).outputs (suc i) o.outputs)
              (sym fresh) f;
      } in
      rw found (pending, refl, refl)
