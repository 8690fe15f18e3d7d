-- ===== src/Fuzzer/System/Fit.antt =====
-- src/mishegos/mishegos.c: what one worker has made of the chunks, by where it is.
use mishegos.Base.{
  ℕ, suc, ◌+◌, ◌*◌, ◌≤◌, ◌<◌, ◌≡◌, refl, sym, subst, ◌⊎◌, inl, inr, true, false, ◌==◌, arith, ltb,
  ==_iff, Bool-cases,
}
use mishegos.Slots.{InputSlot, OutputSlot}
use mishegos.Fuzzer.Worker.{
  InputChunk, OutputChunk, Shared, Decoding, update, marked, start_slot, mishegos_num_chunks,
}
use mishegos.Fuzzer.Worker.Slot.{Filled, expected}
use mishegos.Fuzzer.Crew.{Worker}
use mishegos.Fuzzer.System.{Position}
use mishegos.Fuzzer.System.Stamps.{stamp, job}

-- A worker as its part of the shared memory.
abbrev pub worker_of : ℕ → Shared → Worker
worker_of pid s = record {
  pid = pid;
  output_chunks = s.output_chunks;
  start_gen = s.start_gen;
  start_idx = s.start_idx;
  sigchld = s.sigchld;
}

module _ (try_decode : OutputSlot → InputSlot → Decoding) where
  -- The first `k` outputs are what the decoder left for the inputs, with the mark of a crash where it died.
  unfoldable pub Answered : InputChunk → ℕ → (ℕ → OutputSlot) → Type 0
  Answered ic k out = (old : ℕ → OutputSlot) × Filled try_decode ic old k out

  -- The worker is to go on in the chunk at `x`.
  pub record Standing (ic : InputChunk) (out : ℕ → OutputChunk) (x v : ℕ) : Type 0 where
    pub inside : x < mishegos_num_chunks
    pub in_chunk : start_slot ic (out x) ≤ ic.input_count
    pub begun : Answered ic (start_slot ic (out x)) (out x).outputs
    pub fresh : (ic.generation * 16 + x ≡ v + 16) ⊎ ((out x).remaining ≡ 0)
    pub elsewhere : (j : ℕ) → (j == x) ≡ false → (out j).remaining ≡ 0

  -- It died in a slot of the chunk at `x`, and nobody has noted that.
  pub record Crashed (ic : InputChunk) (out : ℕ → OutputChunk) (x v : ℕ) : Type 0 where
    pub inside : x < mishegos_num_chunks
    pub handed : ic.generation * 16 + x ≡ v + 16
    pub slot : ℕ
    pub left : ℕ
    pub remains : (out x).remaining ≡ suc left
    pub in_chunk : slot + suc left ≡ ic.input_count
    pub begun : Answered ic (suc slot) (update (out x).outputs slot (marked ((out x).outputs slot)))
    pub elsewhere : (j : ℕ) → (j == x) ≡ false → (out j).remaining ≡ 0

  pub record Noted (ic : InputChunk) (w : Worker) (g x v : ℕ) : Type 0 where
    pub signalled : w.sigchld ≡ true
    pub again_gen : w.start_gen ≡ g
    pub again_idx : w.start_idx ≡ x
    pub handed : ic.generation * 16 + x ≡ v + 16
    pub standing : Standing ic w.output_chunks x v

  unfoldable pub Resting : Worker → Type 0
  Resting w = (w.sigchld ≡ false) × ((j : ℕ) → (w.output_chunks j).remaining ≡ 0)

  unfoldable pub Stands : (ℕ → InputChunk) → Worker → ℕ → Position → Type 0
  unfolding Resting
  Stands chunks w v (Position.at g x) =
      (w.sigchld ≡ false) × (g * 16 + x ≡ v + 16) × Standing (chunks x) w.output_chunks x v
  Stands chunks w v (Position.counted g x) =
      Resting w × (x < mishegos_num_chunks) × (g * 16 + x + 1 ≡ v + 16)
  Stands chunks w v Position.ended = Resting w
  Stands chunks w v (Position.dead g x) =
      (g * 16 + x ≡ v + 16)
      × (((w.sigchld ≡ false) × Crashed (chunks x) w.output_chunks x v) ⊎ Noted (chunks x) w g x v)

  -- A worker that has ended `v` chunks.
  pub record Fit (chunks : ℕ → InputChunk) (w : Worker) (p : Position) (v : ℕ) : Type 0 where
    pub stands : Stands chunks w v p
    pub behind :
        (j : ℕ)
        → j < mishegos_num_chunks
        → 16 ≤ stamp chunks j
        → stamp chunks j < v + 16
        → Answered (chunks j) (chunks j).input_count (w.output_chunks j).outputs

  pub none-Answered : (ic : InputChunk) (out : ℕ → OutputSlot) → Answered ic 0 out
  unfolding Answered Filled
  none-Answered ic out =
      (out, λ j. let unfilled : ltb j 0 ≡ false = ground arith in rw unfilled refl)

  -- The counter of a chunk does not matter for the answers.
  pub Answered-unjob :
      (ic : InputChunk) (k : ℕ) (out : ℕ → OutputSlot) → Answered (job ic) k out → Answered ic k out
  unfolding Answered Filled expected
  Answered-unjob ic k out h = h

-- The other workers fit as before, and the worker at index `i` fits again.
pub Fit-update :
    (try_decode : ℕ → OutputSlot → InputSlot → Decoding) (chunks : ℕ → InputChunk)
    (workers : ℕ → Worker) (positions : ℕ → Position) (served : ℕ → ℕ) (w : Worker) (i n : ℕ)
    → ((k : ℕ)
        → k < n
        → (k == i) ≡ false
        → Fit (try_decode k) chunks (workers k) (positions k) (served k))
    → Fit (try_decode i) chunks w (positions i) (served i)
    → (k : ℕ) → k < n
    → Fit (try_decode k) chunks (update workers i w k) (positions k) (served k)
Fit-update try_decode chunks workers positions served w i n before new k lt =
    elim (Bool-cases (k == i)) [
      | inl here ↦
          let same : k ≡ i = ground arith in
          rw here
            (subst (λ (m : ℕ). Fit (try_decode m) chunks w (positions m) (served m)) (sym same) new)
      | inr other ↦ rw other (before k lt other)
    ]

-- A worker without anything left in its outputs can go on in any chunk.
pub rest-Standing :
    (try_decode : OutputSlot → InputSlot → Decoding) (ic : InputChunk) (out : ℕ → OutputChunk)
    (x v : ℕ)
    → x < mishegos_num_chunks
    → ((j : ℕ) → (out j).remaining ≡ 0)
    → Standing try_decode ic out x v
unfolding start_slot
rest-Standing try_decode ic out x v lt quiet =
    let begun : ((out x).remaining == 0) ≡ true = (==_iff _ _).1 (quiet x) in
    record {
      inside = lt;
      in_chunk = rw begun (omega arith);
      begun = rw begun (none-Answered try_decode ic (out x).outputs);
      fresh = inr (quiet x);
      elsewhere = λ j other. quiet j;
    }
