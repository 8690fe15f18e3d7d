-- ===== src/Fuzzer/Main.antt =====
-- src/mishegos/mishegos.c: `main` from its arguments to the end of its loop.
pub mod Whole
use mishegos.Base.{
  ℕ, zero, suc, ◌+◌, Bool, true, false, if◌then◌else◌, Option, none, some, List, length,
}
use mishegos.Slots.{InputSlot}
use mishegos.Gen.{Rng}
use mishegos.Mutator.Opcode.{Opcode}
use mishegos.Mutator.Select.{Mutator, Globals, mutator_create, call_mutator}
use mishegos.Fuzzer.Process.{WorkerSlot, resolve_filter}
use mishegos.Fuzzer.Options.{Options, read_arguments}
use mishegos.Fuzzer.Startup.{Loaded, load_workers}
use mishegos.Fuzzer.Loop.{Log, start_ring, run}

-- The program ends with an error before its loop, or its loop has run, or its loop left an array.
pub data Outcome (g : Rng) : Type 0 where
  refused : Outcome g
  looped : Log → Globals g → Outcome g
  undefined : Outcome g

-- The rest of `main` behind each step that can fail.
abbrev pub by_arguments :
    {g : Rng} → (Options → List ℕ → Outcome g) → Option (Options × List ℕ) → Outcome g
by_arguments on_read none = refused
by_arguments on_read (some (o, path)) = on_read o path

-- The handler of SIGCHLD, which no thread needs; `installs` says if sigaction succeeds.
abbrev pub by_signal : {g : Rng} → Bool → Bool → Outcome g → Outcome g
by_signal true installs rest = rest
by_signal false true rest = rest
by_signal false false rest = refused

abbrev pub by_mutator :
    {g : Rng} → (Mutator → Globals g → Outcome g) → Option (Mutator × Globals g) → Outcome g
by_mutator on_found none = refused
by_mutator on_found (some (m, s)) = on_found m s

abbrev pub by_file : {g : Rng} → (List ℕ → Outcome g) → Option (List ℕ) → Outcome g
by_file on_open none = refused
by_file on_open (some file) = on_open file

-- The memory of the input chunks: the first call of `alloc_shared`.
abbrev pub by_memory : {g : Rng} → Bool → Outcome g → Outcome g
by_memory true rest = rest
by_memory false rest = refused

-- `n` workers each get the memory of their output chunks, by the calls of `alloc_shared` behind the
-- first, and are started.
unfoldable pub all_started : (ℕ → Bool) → (ℕ → Bool) → ℕ → Bool
all_started shared starts zero = true
all_started shared starts (suc n) =
    let before = all_started shared starts n in
    if shared (n + 1) then (if starts n then before else false) else false

abbrev pub by_workers : {g : Rng} → (ℕ → Bool) → (ℕ → Bool) → (ℕ → Outcome g) → Loaded → Outcome g
by_workers shared starts on_started (Loaded.started ws) =
    if all_started shared starts (length ws) then on_started (length ws) else refused
by_workers shared starts on_started (Loaded.unreadable path) = refused
by_workers shared starts on_started Loaded.unfinished = undefined

abbrev pub by_loop : {g : Rng} → Option (Log × Globals g) → Outcome g
by_loop none = undefined
by_loop (some (log, s)) = looped log s

-- What `main` meets outside: `installs` says if sigaction succeeds, `shared k` if call `k` of
-- `alloc_shared` does, `starts k` if `worker_start` starts worker `k`, `random` is what getrandom gives, `files` what fopen and getline find under
-- a path, `readable` what access says, and `waits` how the wait of each round comes
-- out, as for `run`.
module _ (g : Rng) (junk : Opcode) (random : g.State) (files : List ℕ → Option (List ℕ))
    (readable : List ℕ → Bool) (installs : Bool) (shared : ℕ → Bool) (starts : ℕ → Bool)
    (waits : ℕ → Option (ℕ → List WorkerSlot)) where
  -- `n` rounds of the loop are run.
  unfoldable pub main : List (ℕ × List ℕ) → List (List ℕ) → ℕ → Globals g → Outcome g
  main opts paths n s =
      by_arguments
        (λ o path. by_signal o.thread_mode installs (
          by_mutator
            (λ m s'.
              by_file
                (λ file. by_memory (shared 0) (
                  by_workers shared starts
                    (λ nworkers. by_loop (
                      run (call_mutator g junk m) (resolve_filter nworkers o.filter) nworkers waits
                        n 0 start_ring s'))
                    (load_workers readable file)))
                (files path))
            (mutator_create random o.mutator_name s)))
        (read_arguments opts paths)
