-- ===== src/Fuzzer/Fill.antt =====
-- src/mishegos/mishegos.c: `main` fills a chunk with the mutator's candidates and hands it to the workers.
pub mod Full
use mishegos.Base.{ℕ, zero, suc, ◌+◌, ◌%◌, ◌^◌, Bool, true, false, ◌==◌, if◌then◌else◌}
use mishegos.Slots.{InputSlot}
use mishegos.Gen.{Gen, ◌>>=◌, pure}
use mishegos.Fuzzer.Worker.{
  InputChunk, mishegos_num_slots_per_chunk, mishegos_num_chunks, update, to_u32,
}

-- The filled slots, their number, and whether there are no more mutations.
pub record Filling : Type 0 where
  pub inputs : ℕ → InputSlot
  pub count : ℕ
  pub exhausted : Bool

-- The ring that `main` fills: the chunks, `gen`, `idx` and `exit_idx`.
pub record Ring : Type 0 where
  pub input_chunks : ℕ → InputChunk
  pub gen : ℕ  -- uint64_t
  pub idx : ℕ
  pub exit_idx : ℕ

-- The step to the next index, and to the next generation behind the last one.
unfoldable pub advance : Ring → Ring
advance r =
    if r.idx + 1 == mishegos_num_chunks
    then record r { idx = 0; gen = (r.gen + 1) % 2 ^ 64 }
    else record r { idx = r.idx + 1 }

abbrev pub handed_over : ℕ → Filling → ℕ → InputChunk
handed_over nworkers f gen = record {
  generation = to_u32 gen;
  remaining_workers = to_u32 nworkers;
  input_count = to_u32 f.count;
  inputs = f.inputs;
}

-- The chunk is handed to `nworkers` workers.
unfoldable pub publish : ℕ → Filling → Ring → Ring
publish nworkers f r = record r {
  input_chunks = update r.input_chunks r.idx (handed_over nworkers f r.gen);
  exit_idx = if f.exhausted then r.idx else r.exit_idx;
}

module _ {S : Type 0} (mutator : InputSlot → Gen S (Bool × InputSlot)) where
  -- The loop over the slots, with `n` rounds left from slot `i` on.
  unfoldable pub fill_slots : ℕ → ℕ → Filling → Gen S Filling
  fill_slots zero i f = pure f
  fill_slots (suc n) i f = mutator (f.inputs i) >>= λ r.
      if r.0
      then fill_slots n (i + 1) (record f { inputs = update f.inputs i r.1; count = f.count + 1 })
      else pure (record f { inputs = update f.inputs i r.1; exhausted = true })

  unfoldable pub fill : (ℕ → InputSlot) → Gen S Filling
  unfolding fill_slots
  fill inputs =
      fill_slots mishegos_num_slots_per_chunk 0
        (record { inputs = inputs; count = 0; exhausted = false })

  -- One round of the loop of `main` behind the exit test: fill a chunk unless the program is exiting,
  -- publish it to `nworkers` workers, and go on to the next index.
  unfoldable pub fill_next : ℕ → Ring → Gen S Ring
  fill_next nworkers r =
      if r.exit_idx == mishegos_num_chunks
      then (do f ← fill (r.input_chunks r.idx).inputs; pure (advance (publish nworkers f r)))
      else pure (advance r)
