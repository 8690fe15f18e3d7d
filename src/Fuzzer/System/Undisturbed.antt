-- ===== src/Fuzzer/System/Undisturbed.antt =====
-- src/mishegos/mishegos.c: a worker that goes through a round of its loop alone.
use mishegos.Base.{ℕ, ◌+◌, ◌≡◌, refl, ap, ◌∙◌, not, ◌==◌, if◌then◌else◌, Bool-cases, inl, inr}
use mishegos.Slots.{InputSlot, OutputSlot}
use mishegos.Fuzzer.Worker.{
  InputChunk, Shared, Decoding, Decoded, WorkerStep, after_chunk, worker_step, update, to_u32,
  add_workers, minus_one, mishegos_num_chunks, mishegos_num_slots_per_chunk,
}
use mishegos.Fuzzer.Worker.Slot.{update_same}
use mishegos.Fuzzer.System.{Position, Move, work, by_decoded, behind_chunk}

-- The two moves of a worker in a chunk, one behind the other.
abbrev pub by_position : Shared → Position → WorkerStep
by_position s (Position.at gen idx) = WorkerStep.next gen idx s
by_position s Position.ended = WorkerStep.exits s
by_position s (Position.counted gen idx) = WorkerStep.waits
by_position s (Position.dead gen idx) = WorkerStep.waits

abbrev pub undisturbed : Move → WorkerStep
undisturbed (Move.finishes gen idx s) = by_position s (behind_chunk gen idx (s.input_chunks idx))
undisturbed (Move.dies gen idx s) = WorkerStep.dies s
undisturbed (Move.leaves p) = WorkerStep.waits
undisturbed Move.blocked = WorkerStep.waits

behind_chunk_lem :
    (gen idx : ℕ) (ic : InputChunk) (s : Shared)
    → by_position s (behind_chunk gen idx ic) ≡ (
        if not (ic.input_count == mishegos_num_slots_per_chunk)
        then WorkerStep.exits s
        else if idx + 1 == mishegos_num_chunks
        then WorkerStep.next (to_u32 (gen + 1)) 0 s
        else WorkerStep.next gen (idx + 1) s)
behind_chunk_lem gen idx ic s = elim (Bool-cases (ic.input_count == mishegos_num_slots_per_chunk)) [
  | inr short ↦ rw short refl
  | inl full ↦ elim (Bool-cases (idx + 1 == mishegos_num_chunks)) [
    | inl last ↦ rw (full, last) refl
    | inr inner ↦ rw (full, inner) refl
  ]
]

undisturbed-after_chunk :
    (gen idx : ℕ) (s : Shared) (d : Decoded)
    → undisturbed (by_decoded gen idx s d) ≡ after_chunk gen idx s d
unfolding after_chunk
undisturbed-after_chunk gen idx s (Decoded.died oc) = refl
undisturbed-after_chunk gen idx s (Decoded.finished oc) =
    let counted : InputChunk = add_workers minus_one (s.input_chunks idx) in
    let s' : Shared = record s {
      input_chunks = update s.input_chunks idx counted;
      output_chunks = update s.output_chunks idx oc;
    } in
    ap (λ (ic : InputChunk). by_position s' (behind_chunk gen idx ic))
      (update_same idx counted s.input_chunks)
    ∙ behind_chunk_lem gen idx counted s'

-- If nothing comes between the two moves, they are a round of the loop of `worker`.
pub undisturbed-work :
    (try_decode : OutputSlot → InputSlot → Decoding) (gen idx : ℕ) (s : Shared)
    → undisturbed (work try_decode (Position.at gen idx) s) ≡ worker_step try_decode gen idx s
unfolding work worker_step
undisturbed-work try_decode gen idx s = elim (Bool-cases ((s.input_chunks idx).generation == gen)) [
  | inl mine ↦ rw mine (undisturbed-after_chunk gen idx s _)
  | inr waiting ↦ rw waiting refl
]
