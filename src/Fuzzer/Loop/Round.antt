-- ===== src/Fuzzer/Loop/Round.antt =====
-- src/mishegos/mishegos.c: what is in the ring before a round of the loop of `main`.
use mishegos.Base.{
  ℕ, zero, suc, ◌+◌, ◌*◌, ◌%◌, ◌^◌, ◌≤◌, ◌<◌, ◌≡◌, refl, ap, ◌∙◌, true, false, List, ◌∷◌, ◌++◌, map,
  length, ltb, ◌==◌, if◌then◌else◌, arith, append-nil, Bool-cases, inl, inr,
}
use mishegos.Slots.{InputSlot}
use mishegos.Fuzzer.Process.{WorkerSlot}
use mishegos.Fuzzer.Worker.{InputChunk, mishegos_num_slots_per_chunk, mishegos_num_chunks}
use mishegos.Fuzzer.Worker.Slot.{update_same}
use mishegos.Fuzzer.Fill.{Filling, Ring, advance, handed_over, publish}
use mishegos.Fuzzer.Loop.{Sample, samples_from, inputs_from, slots, ready, handed}
use mishegos.Fuzzer.Loop.Window.{next_idx, distance, window, window-cons}

-- The chunks that the loop still comes by: all of them, or those up to the exit index.
abbrev pub live : Ring → ℕ
live r =
    if r.exit_idx == mishegos_num_chunks then mishegos_num_chunks else distance r.idx r.exit_idx + 1

-- The inputs in them, in the order in which the loop comes by.
unfoldable pub pending : Ring → List InputSlot
pending r = window r.input_chunks r.idx (live r)

module _ (P : InputSlot → Type 0) where
  -- In the first generation the chunks from `idx` on are as mmap left them: with no input.
  pub record IsRing (r : Ring) : Type 0 where
    pub inside : r.idx < mishegos_num_chunks
    pub exit_in : r.exit_idx ≤ mishegos_num_chunks
    pub started : 1 ≤ r.gen
    pub unfilled :
        r.gen ≡ 1
        → (j : ℕ) → r.idx ≤ j
        → j < mishegos_num_chunks
        → (r.input_chunks j).input_count ≡ 0
    pub kept : (j i : ℕ) → P ((r.input_chunks j).inputs i)

length-inputs_from : (n i : ℕ) (inputs : ℕ → InputSlot) → length (inputs_from n i inputs) ≡ n
unfolding inputs_from
length-inputs_from zero i inputs = refl
length-inputs_from (suc n) i inputs = ap suc (length-inputs_from n (i + 1) inputs)

pub length-slots : (ic : InputChunk) → length (slots ic) ≡ ic.input_count
unfolding slots
length-slots ic = length-inputs_from ic.input_count 0 ic.inputs

inputs-samples_from :
    (n i : ℕ) (inputs : ℕ → InputSlot) (answers : ℕ → List WorkerSlot)
    → map (λ (s : Sample). s.0) (samples_from n i inputs answers) ≡ inputs_from n i inputs
unfolding samples_from inputs_from
inputs-samples_from zero i inputs answers = refl
inputs-samples_from (suc n) i inputs answers =
    ap (inputs i ∷◌) (inputs-samples_from n (i + 1) inputs answers)

-- The samples that a round processes are the inputs of its chunk.
pub inputs-ready :
    (P : InputSlot → Type 0) (r : Ring) (answers : ℕ → List WorkerSlot)
    → IsRing P r
    → map (λ (s : Sample). s.0) (ready r answers) ≡ slots (r.input_chunks r.idx)
unfolding ready slots
inputs-ready P r answers v = elim (Bool-cases (ltb 1 r.gen)) [
  | inl later ↦ rw later (inputs-samples_from _ 0 _ answers)
  | inr first ↦
      let none_yet = v.unfilled (ground arith) r.idx (omega arith) v.inside in
      rw (first, none_yet) (unfold inputs_from in refl)
]

-- At the exit index one chunk is pending.
pub last-pending :
    (P : InputSlot → Type 0) (r : Ring)
    → IsRing P r
    → (r.idx == r.exit_idx) ≡ true
    → pending r ≡ slots (r.input_chunks r.idx)
unfolding pending
last-pending P r v last =
    let here : r.idx ≡ r.exit_idx = ground arith in
    let leaving : (r.exit_idx == mishegos_num_chunks) ≡ false = ground (arith, v.inside) in
    let one : live r ≡ 1 = rw leaving (omega (arith, v.inside)) in
    ap (window r.input_chunks r.idx) one
    ∙ window-cons r.input_chunks r.idx 0
    ∙ unfold window in append-nil (slots (r.input_chunks r.idx))

pub advance_lem :
    (r : Ring)
    → ((advance r).idx ≡ next_idx r.idx)
      × ((advance r).exit_idx ≡ r.exit_idx)
      × ((advance r).input_chunks ≡ r.input_chunks)
      × ((advance r).gen
          ≡ (if r.idx + 1 == mishegos_num_chunks then (r.gen + 1) % 2 ^ 64 else r.gen))
unfolding advance
advance_lem r = elim (Bool-cases (r.idx + 1 == mishegos_num_chunks)) [
  | inl last ↦ rw last (refl, refl, refl, refl)
  | inr inner ↦ rw inner (refl, refl, refl, refl)
]

-- What a round that fills its chunk hands over is that chunk.
pub handed-publish :
    (nworkers : ℕ) (f : Filling) (r : Ring)
    → (r.exit_idx == mishegos_num_chunks) ≡ true
    → handed r (advance (publish nworkers f r)) ≡ slots (handed_over nworkers f r.gen)
unfolding handed publish
handed-publish nworkers f r filling =
    let (_, _, ec, _) = advance_lem (publish nworkers f r) in
    rw filling (
      ap slots (
        ap (λ (c : ℕ → InputChunk). c r.idx) ec
        ∙ update_same r.idx (handed_over nworkers f r.gen) r.input_chunks))

-- The rounds that the loop may still take without a full chunk.
abbrev pub credit : Ring → ℕ
credit r =
    if r.exit_idx == mishegos_num_chunks
    then mishegos_num_chunks + 1
    else distance r.idx r.exit_idx + 1

-- A round keeps the ring, and takes from the front of what is pending the inputs of its chunk; what it
-- hands to the workers goes behind the rest. A round that hands over no full chunk uses up a credit.
pub record Moves (P : InputSlot → Type 0) (r r' : Ring) : Type 0 where
  pub ring : IsRing P r'
  pub slower : r'.gen ≤ r.gen + 1
  pub order : pending r ++ handed r r' ≡ slots (r.input_chunks r.idx) ++ pending r'
  pub pace :
      mishegos_num_slots_per_chunk * (1 + credit r')
      ≤ length (handed r r') + mishegos_num_slots_per_chunk * credit r
