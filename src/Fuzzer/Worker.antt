-- ===== src/Fuzzer/Worker.antt =====
-- src/mishegos/mishegos.c: `worker` decodes the slots of a chunk, `sigchld_handler` finds out where a
-- worker crashed, and `main` starts it again.
pub mod Slot
pub mod Restart
pub mod Serve
use mishegos.Base.{
  ℕ, zero, suc, ◌+◌, ◌-◌, ◌%◌, ◌^◌, Bool, true, false, not, ltb, ◌==◌, if◌then◌else◌,
}
use mishegos.Slots.{InputSlot, OutputSlot, s_crash}

abbrev pub mishegos_num_slots_per_chunk : ℕ
mishegos_num_slots_per_chunk = 4096

abbrev pub mishegos_num_chunks : ℕ
mishegos_num_chunks = 16

-- An array is a function of the index. The futex counters beside the atomic values are left out.
pub record InputChunk : Type 0 where
  pub generation : ℕ
  pub remaining_workers : ℕ  -- uint32_t
  pub input_count : ℕ  -- uint32_t
  pub inputs : ℕ → InputSlot

pub record OutputChunk : Type 0 where
  pub remaining : ℕ  -- uint32_t
  pub outputs : ℕ → OutputSlot

abbrev pub update {ℓ} : {A : Type ℓ} → (ℕ → A) → ℕ → A → ℕ → A
update f i a j = if j == i then a else f j

-- What one worker and `main` share, with the fields of worker_config that they change.
pub record Shared : Type 0 where
  pub input_chunks : ℕ → InputChunk
  pub output_chunks : ℕ → OutputChunk
  pub start_gen : ℕ
  pub start_idx : ℕ
  pub sigchld : Bool

-- size_t and uint32_t.
abbrev pub sub_size : ℕ → ℕ → ℕ
sub_size a b = (a + 2 ^ 64 - b) % 2 ^ 64

-- Subtraction on a uint32_t.
abbrev pub sub_u32 : ℕ → ℕ → ℕ
sub_u32 a b = (a + 2 ^ 32 - b) % 2 ^ 32

abbrev pub to_u32 : ℕ → ℕ
to_u32 a = a % 2 ^ 32

-- A call of a decoder returns, or the process dies in it and leaves the slot half written.
pub data Decoding : Type 0 where
  returned : OutputSlot → Decoding
  crashed : OutputSlot → Decoding

-- The loop over the slots ends, or the process dies in a slot.
pub data Decoded : Type 0 where
  finished : OutputChunk → Decoded
  died : OutputChunk → Decoded

abbrev pub by_call : (OutputSlot → Decoded) → (OutputSlot → Decoded) → Decoding → Decoded
by_call on_return on_crash (Decoding.returned o) = on_return o
by_call on_return on_crash (Decoding.crashed o) = on_crash o

-- One round of the worker's loop, by what comes next: the next chunk, the end of the worker, a wait
-- for the chunk's generation, or the process dies.
pub data WorkerStep : Type 0 where
  next : ℕ → ℕ → Shared → WorkerStep
  exits : Shared → WorkerStep
  waits : WorkerStep
  dies : Shared → WorkerStep

abbrev pub cleared : OutputSlot → OutputSlot
cleared o = record o { len = 0; ndecoded = 0 }

abbrev pub marked : OutputSlot → OutputSlot
marked o = record o { status = s_crash }

-- `mish_atomic_fetch_add(&remaining_workers, d)` on a uint32_t.
abbrev pub add_workers : ℕ → InputChunk → InputChunk
add_workers d ic = record ic { remaining_workers = to_u32 (ic.remaining_workers + d) }

abbrev pub minus_one : ℕ
minus_one = 2 ^ 32 - 1

-- The part of the crash that `sigchld_handler` deals with, at the chunk `widx`.
unfoldable pub note_crash : ℕ → Shared → Shared
note_crash widx s =
    let ic = s.input_chunks widx in
    let oc = s.output_chunks widx in
    let at = sub_u32 ic.input_count oc.remaining in
    record {
      input_chunks = update s.input_chunks widx (add_workers minus_one ic);
      output_chunks =
          update s.output_chunks widx
            (record oc { outputs = update oc.outputs at (marked (oc.outputs at)) });
      start_gen = ic.generation;
      start_idx = widx;
      sigchld = true;
    }

-- The loop of `sigchld_handler` for one worker, with `n` chunks left from `widx` on.
unfoldable pub find_crash : ℕ → ℕ → Shared → Shared
find_crash zero widx s = s
find_crash (suc n) widx s =
    let later = find_crash n (widx + 1) s in
    if (s.output_chunks widx).remaining == 0 then later else note_crash widx s

unfoldable pub sigchld_handler : Shared → Shared
unfolding find_crash
sigchld_handler s = find_crash mishegos_num_chunks 0 s

-- What `main` does for a worker whose signal it received; the worker starts at `start_gen` and
-- `start_idx`.
unfoldable pub restart : Shared → Shared
restart s =
    if s.sigchld
    then record s {
      input_chunks = update s.input_chunks s.start_idx (add_workers 1 (s.input_chunks s.start_idx));
      sigchld = false;
    }
    else s

-- The rest of a round: the worker counts itself as done with the chunk, and ends behind a chunk that
-- is not full.
unfoldable pub after_chunk : ℕ → ℕ → Shared → Decoded → WorkerStep
after_chunk gen idx s (Decoded.died oc) =
    WorkerStep.dies (record s { output_chunks = update s.output_chunks idx oc })
after_chunk gen idx s (Decoded.finished oc) =
    let ic = s.input_chunks idx in
    let s' : Shared = record s {
      input_chunks = update s.input_chunks idx (add_workers minus_one ic);
      output_chunks = update s.output_chunks idx oc;
    } in
    if not (ic.input_count == mishegos_num_slots_per_chunk)
    then WorkerStep.exits s'
    else if idx + 1 == mishegos_num_chunks
    then WorkerStep.next (to_u32 (gen + 1)) 0 s'
    else WorkerStep.next gen (idx + 1) s'

abbrev pub by_death : (Shared → WorkerStep) → WorkerStep → WorkerStep
by_death on_death (WorkerStep.dies s) = on_death s
by_death on_death (WorkerStep.exits s) = WorkerStep.exits s
by_death on_death (WorkerStep.next gen idx s) = WorkerStep.next gen idx s
by_death on_death WorkerStep.waits = WorkerStep.waits

-- Where a worker goes on in a chunk: behind the slot that it crashed in.
unfoldable pub start_slot : InputChunk → OutputChunk → ℕ
start_slot ic oc =
    if oc.remaining == 0 then 0 else (sub_size ic.input_count oc.remaining + 1) % 2 ^ 64

module _ (try_decode : OutputSlot → InputSlot → Decoding) where
  -- The loop over the slots, with `n` rounds left from slot `i` on.
  unfoldable pub decode_slots : ℕ → ℕ → InputChunk → OutputChunk → Decoded
  decode_slots zero i ic oc = Decoded.finished oc
  decode_slots (suc n) i ic oc =
      by_call
        (λ o. decode_slots n (i + 1) ic (record {
          remaining = to_u32 (sub_size (sub_size ic.input_count i) 1);
          outputs = update oc.outputs i o;
        }))
        (λ o. Decoded.died (record oc { outputs = update oc.outputs i o }))
        (try_decode (cleared (oc.outputs i)) (ic.inputs i))

  unfoldable pub decode_chunk : InputChunk → OutputChunk → Decoded
  unfolding decode_slots start_slot
  decode_chunk ic oc =
      let start = start_slot ic oc in
      decode_slots (ic.input_count - start) start ic
        (record oc { remaining = to_u32 (sub_size ic.input_count start) })

  -- One round of the loop of `worker`.
  unfoldable pub worker_step : ℕ → ℕ → Shared → WorkerStep
  unfolding decode_chunk after_chunk
  worker_step gen idx s =
      let ic = s.input_chunks idx in
      if ic.generation == gen
      then after_chunk gen idx s (decode_chunk ic (s.output_chunks idx))
      else WorkerStep.waits

  -- A worker in one chunk, with the handler and the restart behind each crash.
  unfoldable pub serve : ℕ → ℕ → ℕ → Shared → WorkerStep
  unfolding worker_step restart sigchld_handler
  serve zero gen idx s = WorkerStep.waits
  serve (suc fuel) gen idx s =
      by_death
        (λ s'. let s'' = restart (sigchld_handler s') in serve fuel s''.start_gen s''.start_idx s'')
        (worker_step gen idx s)
