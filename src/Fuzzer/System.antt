-- ===== src/Fuzzer/System.antt =====
-- src/mishegos/mishegos.c: `main`, the workers and the handler of their deaths as processes that run at
-- the same time.
pub mod Stamps
pub mod Fit
pub mod Moves
pub mod Signals
pub mod Handing
pub mod Round
pub mod Invariant
pub mod Start
pub mod Handover
pub mod Answers
pub mod Progress
pub mod Unloaded
pub mod Complete
pub mod Undisturbed
use mishegos.Base.{
  ℕ, ◌+◌, ◌*◌, ◌^◌, ◌<◌, ◌≡◌, Bool, true, false, not, some, ◌==◌, if◌then◌else◌, replicate,
}
use mishegos.Slots.{InputSlot, OutputSlot}
use mishegos.Gen.{Gen}
use mishegos.Fuzzer.Worker.{
  InputChunk, Shared, Decoding, Decoded, update, to_u32, add_workers, minus_one, restart,
  mishegos_num_slots_per_chunk, mishegos_num_chunks, decode_chunk,
}
use mishegos.Fuzzer.Fill.{Ring, fill_next}
use mishegos.Fuzzer.Loop.{start_ring}
use mishegos.Fuzzer.Crew.{Worker, Crew, view, put, worker_for_pid, handle_pid, restart_workers}

-- Where a worker is: it waits for a generation of a chunk; it has counted itself off a chunk and is about
-- to look at its size; it has left its loop; or its process died in a chunk.
pub data Position : Type 0 where
  at : ℕ → ℕ → Position
  counted : ℕ → ℕ → Position
  ended : Position
  dead : ℕ → ℕ → Position

pub data Move : Type 0 where
  finishes : ℕ → ℕ → Shared → Move
  dies : ℕ → ℕ → Shared → Move
  leaves : Position → Move
  blocked : Move

abbrev pub by_decoded : ℕ → ℕ → Shared → Decoded → Move
by_decoded gen idx s (Decoded.finished oc) = Move.finishes gen idx (record s {
  input_chunks = update s.input_chunks idx (add_workers minus_one (s.input_chunks idx));
  output_chunks = update s.output_chunks idx oc;
})
by_decoded gen idx s (Decoded.died oc) =
    Move.dies gen idx (record s { output_chunks = update s.output_chunks idx oc })

-- The test behind a chunk reads its size again, after the worker has counted itself off.
abbrev pub behind_chunk : ℕ → ℕ → InputChunk → Position
behind_chunk gen idx ic =
    if not (ic.input_count == mishegos_num_slots_per_chunk)
    then Position.ended
    else if idx + 1 == mishegos_num_chunks
    then Position.at (to_u32 (gen + 1)) 0
    else Position.at gen (idx + 1)

-- What the worker does next: a round of its loop is done in two moves, between which others can come.
unfoldable pub work : (OutputSlot → InputSlot → Decoding) → Position → Shared → Move
work try_decode (Position.at gen idx) s =
    let ic = s.input_chunks idx in
    if ic.generation == gen
    then by_decoded gen idx s (decode_chunk try_decode ic (s.output_chunks idx))
    else Move.blocked
work try_decode (Position.counted gen idx) s =
    Move.leaves (behind_chunk gen idx (s.input_chunks idx))
work try_decode Position.ended s = Move.blocked
work try_decode (Position.dead gen idx) s = Move.blocked

-- The crew, what `main` keeps in its variables, where each worker is, how many chunks each worker has
-- ended, and how many `main` has handed over. The program does not store the last two.
pub record System : Type 0 where
  pub crew : Crew
  pub gen : ℕ
  pub idx : ℕ
  pub exit_idx : ℕ
  pub positions : ℕ → Position
  pub served : ℕ → ℕ
  pub published : ℕ

abbrev pub chunk : System → ℕ → InputChunk
chunk sys = sys.crew.input_chunks

abbrev pub ring_of : System → Ring
ring_of sys = record {
  input_chunks = sys.crew.input_chunks;
  gen = sys.gen;
  idx = sys.idx;
  exit_idx = sys.exit_idx;
}

abbrev pub with_worker : ℕ → ℕ → Shared → Position → System → System
with_worker i pid s p sys = record sys {
  crew = put i pid s sys.crew;
  positions = update sys.positions i p;
}

abbrev pub with_ring : Ring → ℕ → System → System
with_ring r published sys = record sys {
  crew = record { input_chunks = r.input_chunks; workers = sys.crew.workers };
  gen = r.gen;
  idx = r.idx;
  exit_idx = r.exit_idx;
  published = published;
}

-- How `worker` begins: it returns at once if dlopen does not load its shared object.
unfoldable pub enter : Bool → ℕ → ℕ → Position
enter false start_gen start_idx = Position.ended
enter true start_gen start_idx = Position.at (to_u32 start_gen) start_idx

-- The memory that `alloc_shared` gives is zeroed.
abbrev pub zero_slot : OutputSlot
zero_slot = record { status = 0; ndecoded = 0; len = 0; result = replicate 248 0 }

-- All workers wait for the first chunk, but those whose shared objects are not loaded.
unfoldable pub start_system : (ℕ → ℕ) → (ℕ → Bool) → System
unfolding enter
start_system pids loaded = record {
  crew = record {
    input_chunks = start_ring.input_chunks;
    workers = λ i. record {
      pid = pids i;
      output_chunks = λ j. record { remaining = 0; outputs = λ k. zero_slot };
      start_gen = 1;
      start_idx = 0;
      sigchld = false;
    };
  };
  gen = 1;
  idx = 0;
  exit_idx = mishegos_num_chunks;
  positions = λ i. enter (loaded i) 1 0;
  served = λ i. 0;
  published = 0;
}

-- A process that waitpid can report.
abbrev pub Gone : Position → Type 0
Gone Position.ended = Unit
Gone (Position.dead gen idx) = Unit
Gone (Position.at gen idx) = ⊥
Gone (Position.counted gen idx) = ⊥

-- A shared object that was loaded is loaded again.
-- The states that the processes come to, in any order of their moves, while the generation stays below
-- 2 ^ 32. `rounds` is a round of the loop of `main` behind its wait and its pass over the workers.
module _ {S : Type 0} (try_decode : ℕ → OutputSlot → InputSlot → Decoding)
    (mutator : InputSlot → Gen S (Bool × InputSlot)) (nworkers : ℕ) (pids : ℕ → ℕ)
    (loaded : ℕ → Bool) where
  pub data Reaches : System → Type 0 where
    begin : Reaches (start_system pids loaded)
    finishes :
        {sys : System} (i gen idx : ℕ) (s : Shared)
        → Reaches sys
        → i < nworkers
        → work (try_decode i) (sys.positions i) (view sys.crew i) ≡ Move.finishes gen idx s
        → Reaches
            (record (with_worker i (sys.crew.workers i).pid s (Position.counted gen idx) sys) {
              served = update sys.served i (sys.served i + 1);
            })
    dies :
        {sys : System} (i gen idx : ℕ) (s : Shared)
        → Reaches sys
        → i < nworkers
        → work (try_decode i) (sys.positions i) (view sys.crew i) ≡ Move.dies gen idx s
        → Reaches (with_worker i (sys.crew.workers i).pid s (Position.dead gen idx) sys)
    leaves :
        {sys : System} (i : ℕ) (p : Position)
        → Reaches sys
        → i < nworkers
        → work (try_decode i) (sys.positions i) (view sys.crew i) ≡ Move.leaves p
        → Reaches (record sys { positions = update sys.positions i p })
    reported :
        {sys : System} {c : Crew} (pid i : ℕ)
        → Reaches sys
        → i < nworkers
        → worker_for_pid sys.crew.workers pid ≡ some i
        → Gone (sys.positions i)
        → (sys.crew.workers i).sigchld ≡ false
        → handle_pid pid sys.crew ≡ some c
        → Reaches (record sys { crew = c })
    restarted :
        {sys : System} (i pid : ℕ)
        → Reaches sys
        → i < nworkers
        → (sys.crew.workers i).sigchld ≡ true
        → Reaches (
            with_worker i pid
              (restart (view sys.crew i))
              (Position.at (to_u32 (sys.crew.workers i).start_gen) (sys.crew.workers i).start_idx)
              sys)
    rounds :
        {sys : System} {r : Ring} (fork : ℕ → ℕ) (s s' : S)
        → Reaches sys
        → (chunk sys sys.idx).remaining_workers ≡ 0
        → (restart_workers fork nworkers 0 sys.crew).0 ≡ false
        → (sys.idx == sys.exit_idx) ≡ false
        → sys.gen + 1 < 2 ^ 32
        → fill_next mutator nworkers (ring_of sys) s ≡ some (r, s')
        → Reaches (
            with_ring r
              (if sys.exit_idx == mishegos_num_chunks then sys.published + 1 else sys.published)
              sys)
