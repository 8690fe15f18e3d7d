-- ===== src/Fuzzer/Crew.antt =====
-- src/mishegos/mishegos.c: all the workers, the handler of their deaths, and their restart in `main`.
pub mod Flags
pub mod Counts
pub mod Interleaving
use mishegos.Base.{
  ℕ, zero, suc, ◌+◌, ◌≤◌, ◌<◌, ◌≡◌, Bool, true, false, Option, none, some, ◌>>=◌, List, [], ◌∷◌,
  ◌==◌, if◌then◌else◌,
}
use mishegos.Slots.{InputSlot, OutputSlot, mishegos_max_nworkers}
use mishegos.Fuzzer.Worker.{
  InputChunk, OutputChunk, Shared, Decoding, WorkerStep, update, sigchld_handler, restart,
  worker_step,
}

-- A worker_config without the fields of its shared object.
pub record Worker : Type 0 where
  pub pid : ℕ
  pub output_chunks : ℕ → OutputChunk
  pub start_gen : ℕ
  pub start_idx : ℕ
  pub sigchld : Bool

pub record Crew : Type 0 where
  pub input_chunks : ℕ → InputChunk
  pub workers : ℕ → Worker

-- What the worker at index `i` shares with `main`, and the crew with that part replaced.
abbrev pub view : Crew → ℕ → Shared
view c i = record {
  input_chunks = c.input_chunks;
  output_chunks = (c.workers i).output_chunks;
  start_gen = (c.workers i).start_gen;
  start_idx = (c.workers i).start_idx;
  sigchld = (c.workers i).sigchld;
}

abbrev pub put : ℕ → ℕ → Shared → Crew → Crew
put i pid s c = record {
  input_chunks = s.input_chunks;
  workers = update c.workers i (record {
    pid = pid;
    output_chunks = s.output_chunks;
    start_gen = s.start_gen;
    start_idx = s.start_idx;
    sigchld = s.sigchld;
  });
}

-- The loop over the indices, with `n` left from `i` on.
unfoldable pub find_pid : (ℕ → Worker) → ℕ → ℕ → ℕ → Option ℕ
find_pid workers pid zero i = none
find_pid workers pid (suc n) i =
    let later = find_pid workers pid n (i + 1) in if (workers i).pid == pid then some i else later

unfoldable pub worker_for_pid : (ℕ → Worker) → ℕ → Option ℕ
worker_for_pid workers pid = find_pid workers pid mishegos_max_nworkers 0

-- One round of the handler's loop: a process that waitpid reports. An unknown one makes it abort.
unfoldable pub handle_pid : ℕ → Crew → Option Crew
handle_pid pid c = do
  i ← worker_for_pid c.workers pid
  some (put i (c.workers i).pid (sigchld_handler (view c i)) c)

-- What waitpid reports, one process behind the other.
unfoldable pub handle_pids : List ℕ → Crew → Option Crew
handle_pids [] c = some c
handle_pids (pid ∷ pids) c = do c' ← handle_pid pid c; handle_pids pids c'

-- The loop of `main` over the workers, with `n` left from index `i` on: those with a signal are started
-- again, `fork` gives their new processes; the result says whether there was one.
unfoldable pub restart_workers : (ℕ → ℕ) → ℕ → ℕ → Crew → Bool × Crew
restart_workers fork zero i c = (false, c)
restart_workers fork (suc n) i c =
    let again = restart_workers fork n (i + 1) (put i (fork i) (restart (view c i)) c) in
    let others = restart_workers fork n (i + 1) c in
    if (c.workers i).sigchld then (true, again.1) else others

-- What can happen while `main` fills no chunk, in any order: a worker goes through a round of its loop,
-- or dies in it, the handler runs, and `main` starts workers again. `finished` counts the rounds that
-- ended a chunk. A process that waitpid reports is not reported again before it is started again.
module _ (try_decode : ℕ → OutputSlot → InputSlot → Decoding) (c : Crew) where
  pub data Steps : (ℕ → ℕ) → Crew → Type 0 where
    begin : Steps (λ j. 0) c
    goes_on :
        {finished : ℕ → ℕ} {c' : Crew} (i gen idx gen' idx' : ℕ) (s : Shared)
        → Steps finished c'
        → i < mishegos_max_nworkers
        → worker_step (try_decode i) gen idx (view c' i) ≡ WorkerStep.next gen' idx' s
        → Steps (update finished idx (finished idx + 1)) (put i (c'.workers i).pid s c')
    ends :
        {finished : ℕ → ℕ} {c' : Crew} (i gen idx : ℕ) (s : Shared)
        → Steps finished c'
        → i < mishegos_max_nworkers
        → worker_step (try_decode i) gen idx (view c' i) ≡ WorkerStep.exits s
        → Steps (update finished idx (finished idx + 1)) (put i (c'.workers i).pid s c')
    crashes :
        {finished : ℕ → ℕ} {c' : Crew} (i gen idx : ℕ) (s : Shared)
        → Steps finished c'
        → i < mishegos_max_nworkers
        → worker_step (try_decode i) gen idx (view c' i) ≡ WorkerStep.dies s
        → Steps finished (put i (c'.workers i).pid s c')
    signalled :
        {finished : ℕ → ℕ} {c' c'' : Crew} (pid i : ℕ)
        → Steps finished c'
        → worker_for_pid c'.workers pid ≡ some i
        → (c'.workers i).sigchld ≡ false
        → handle_pid pid c' ≡ some c''
        → Steps finished c''
    restarted :
        {finished : ℕ → ℕ} {c' : Crew} (fork : ℕ → ℕ) (n : ℕ)
        → Steps finished c'
        → n ≤ mishegos_max_nworkers
        → Steps finished (restart_workers fork n 0 c').1
