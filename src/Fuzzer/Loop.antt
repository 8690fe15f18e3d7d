-- ===== src/Fuzzer/Loop.antt =====
-- src/mishegos/mishegos.c: the loop of `main`, which writes out what the workers made of a chunk and
-- fills the chunk again.
pub mod Window
pub mod Round
pub mod Moves
pub mod Order
pub mod Ends
use mishegos.Base.{
  ℕ, zero, suc, ◌+◌, Bool, true, false, Option, none, some, List, [], ◌∷◌, ◌++◌, ltb, ◌==◌,
  if◌then◌else◌, replicate,
}
use mishegos.Slots.{InputSlot, mishegos_insn_maxlen}
use mishegos.Gen.{Gen, ◌>>=◌, pure}
use mishegos.Fuzzer.Process.{FilterConfig, WorkerSlot, process}
use mishegos.Fuzzer.Worker.{InputChunk, mishegos_num_chunks}
use mishegos.Fuzzer.Fill.{Ring, fill_next}

abbrev pub unset : InputSlot
unset = record { len = 0; raw_insn = replicate mishegos_insn_maxlen 0 }

-- The ring as `main` starts with it, in memory that mmap zeroed.
abbrev pub start_ring : Ring
start_ring = record {
  input_chunks =
      λ j. record { generation = 0; remaining_workers = 0; input_count = 0; inputs = λ i. unset };
  gen = 1;
  idx = 0;
  exit_idx = mishegos_num_chunks;
}

-- An input, and what the workers left in their slots for it.
abbrev pub Sample : Type 0
Sample = InputSlot × List WorkerSlot

-- A call that reads past the end of an object has no result.
unfoldable pub checked : {S A : Type 0} → Option A → Gen S A
checked none s = none
checked (some a) s = some (a, s)

-- The loop over the slots of a chunk, with `n` rounds left from slot `i` on.
unfoldable pub samples_from : ℕ → ℕ → (ℕ → InputSlot) → (ℕ → List WorkerSlot) → List Sample
samples_from zero i inputs answers = []
samples_from (suc n) i inputs answers =
    (inputs i, answers i) ∷ samples_from n (i + 1) inputs answers

abbrev pub joined : Option (List ℕ) → Option (List ℕ) → Option (List ℕ)
joined none rest = none
joined (some bytes) none = none
joined (some bytes) (some rest) = some (bytes ++ rest)

-- The calls of `process` for one sample after the other.
unfoldable pub process_all : FilterConfig → List Sample → Option (List ℕ)
process_all f [] = some []
process_all f ((input, ws) ∷ samples) = joined (process f input ws) (process_all f samples)

-- The samples of the chunk at `idx`, once the program is in its second generation.
unfoldable pub ready : Ring → (ℕ → List WorkerSlot) → List Sample
unfolding samples_from
ready r answers =
    let ic = r.input_chunks r.idx in
    if ltb 1 r.gen then samples_from ic.input_count 0 ic.inputs answers else []

-- What a run of the loop has done: the samples it processed, the bytes that it wrote, the inputs that
-- it handed to the workers, whether it has ended, and the ring that it leaves.
pub record Log : Type 0 where
  pub processed : List Sample
  pub written : List ℕ
  pub published : List InputSlot
  pub ended : Bool
  pub ring : Ring

unfoldable pub inputs_from : ℕ → ℕ → (ℕ → InputSlot) → List InputSlot
inputs_from zero i inputs = []
inputs_from (suc n) i inputs = inputs i ∷ inputs_from n (i + 1) inputs

unfoldable pub slots : InputChunk → List InputSlot
unfolding inputs_from
slots ic = inputs_from ic.input_count 0 ic.inputs

-- The inputs that a round hands to the workers.
unfoldable pub handed : Ring → Ring → List InputSlot
unfolding slots
handed r r' = if r.exit_idx == mishegos_num_chunks then slots (r'.input_chunks r.idx) else []

-- A round goes before the rest of a run.
unfoldable pub logged : List Sample → List ℕ → List InputSlot → Log → Log
logged samples bytes inputs log = record log {
  processed = samples ++ log.processed;
  written = bytes ++ log.written;
  published = inputs ++ log.published;
}

-- A run that does no more: it has no round left, or its round does not come past the wait.
abbrev pub stopped : Ring → Log
stopped r = record { processed = []; written = []; published = []; ended = false; ring = r }

-- The wait for the chunk at `idx`, and the rest of the round behind it.
unfoldable pub awaited :
    {S : Type 0}
    → Ring
    → Option (ℕ → List WorkerSlot)
    → ((ℕ → List WorkerSlot) → Gen S Log)
    → Gen S Log
awaited r none goes_on = pure (stopped r)
awaited r (some answers) goes_on = goes_on answers

-- `n` rounds of the loop from round `t` on. `waits t` is how the wait of round `t` comes out, with the
-- restarts and the further waits that follow it: no worker is left in the chunk at `idx`, where the
-- workers have left `answers i` for its slot `i`, or the wait, or a restart in it, never
-- comes back.
module _ {S : Type 0} (mutator : InputSlot → Gen S (Bool × InputSlot)) (f : FilterConfig)
    (nworkers : ℕ) (waits : ℕ → Option (ℕ → List WorkerSlot)) where
  unfoldable pub run : ℕ → ℕ → Ring → Gen S Log
  run zero t r = pure (stopped r)
  run (suc n) t r = awaited r (waits t) λ answers.
      let samples = ready r answers in
      checked (process_all f samples) >>= λ bytes.
      if r.idx == r.exit_idx
      then pure
          (record { processed = samples; written = bytes; published = []; ended = true; ring = r })
      else (fill_next mutator nworkers r >>= λ r'.
          run n (t + 1) r' >>= λ log. pure (logged samples bytes (handed r r') log))
