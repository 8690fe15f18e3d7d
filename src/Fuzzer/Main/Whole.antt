-- ===== src/Fuzzer/Main/Whole.antt =====
-- src/mishegos/mishegos.c: `main` with every generator that it can be asked for.
use mishegos.Base.{
  zero, suc, false, ℕ, ◌+◌, ◌^◌, ◌<◌, ◌≡◌, refl, ◌∙◌, Bool, true, Option, some, List, ◌++◌, length,
  take, All, unlines, arith,
}
use mishegos.Slots.{IsSized, mishegos_max_nworkers}
use mishegos.Gen.{Rng}
use mishegos.Gen.Keeps.{Keeps-imp}
use mishegos.Mutator.Opcode.{Opcode}
use mishegos.Mutator.Select.{Mutator, Globals, call_mutator}
use mishegos.Mutator.Select.Names.{Named, mutator_create-Named}
use mishegos.Mutator.Select.Calls.{IsReady, call_mutator-Called}
use mishegos.Fuzzer.Process.{WorkerSlot, resolve_filter}
use mishegos.Fuzzer.Options.{Options, read_arguments}
use mishegos.Fuzzer.Startup.Files.{
  IsPlain, paths_in, load_workers-start_all, start_all-configs, length-configs,
}
use mishegos.Fuzzer.Loop.{Log, start_ring}
use mishegos.Fuzzer.Loop.Order.{IsWritable, Ordered, run-Ordered}
use mishegos.Fuzzer.Loop.Ends.{start-IsRing}
use mishegos.Fuzzer.Main.{Outcome, looped, by_signal, all_started, main}
use mishegos.Cohort.Layout.{IsWorker}

by_signal-installed : {g : Rng} (t : Bool) (rest : Outcome g) → by_signal t true rest ≡ rest
by_signal-installed true rest = refl
by_signal-installed false rest = refl

all_started_lem :
    (shared starts : ℕ → Bool) (n : ℕ)
    → ((k : ℕ) → shared k ≡ true)
    → ((k : ℕ) → starts k ≡ true)
    → all_started shared starts n ≡ true
unfolding all_started
all_started_lem shared starts zero memory processes = refl
all_started_lem shared starts (suc n) memory processes =
    rw (memory (n + 1), processes n) (all_started_lem shared starts n memory processes)

-- With options that it accepts, a generator that it knows or the default one, and a file whose paths can
-- all be read, `main` comes to its loop and every run of it is in order: what was handed to the workers
-- has been processed once and in its order, or is still pending, and what was written is the cohorts of
-- the samples that the filter keeps, its negative bounds counted from the number of workers that were
-- started; and a run that has not ended has handed over a full chunk in each round but for its credit,
-- unless a wait never ends. The workers leave slots in the ranges of the C types, the variables of the
-- generators are valid at first, sigaction, `alloc_shared` and `worker_start` succeed, and the rounds are too few for the generation to overflow.
pub main-Ordered :
    (g : Rng) (junk : Opcode) (random : g.State) (files : List ℕ → Option (List ℕ))
    (readable : List ℕ → Bool) (installs : Bool) (shared starts : ℕ → Bool)
    (waits : ℕ → Option (ℕ → List WorkerSlot)) (opts : List (ℕ × List ℕ)) (args : List (List ℕ))
    (n : ℕ) (s : Globals g) (o : Options) (path : List ℕ) (m : Mutator) (lines : List (List ℕ))
    (tail : List ℕ)
    → length junk.op ≡ 5
    → IsReady s
    → installs ≡ true
    → ((k : ℕ) → shared k ≡ true)
    → ((k : ℕ) → starts k ≡ true)
    → ((u : ℕ) (answers : ℕ → List WorkerSlot)
        → waits u ≡ some answers
        → (j : ℕ) → All IsWorker (answers j))
    → read_arguments opts args ≡ some (o, path)
    → Named o.mutator_name m
    → files path ≡ some (unlines lines ++ tail)
    → All (All IsPlain) lines
    → All IsPlain tail
    → All (λ p. readable p ≡ true) (take mishegos_max_nworkers (paths_in lines))
    → n + 1 < 2 ^ 64
    → (log : Log) × (s' : Globals g) × (main g junk random files readable installs shared starts
          waits opts args n s
        ≡ looped log s')
      × Ordered IsWritable
          (resolve_filter (length (take mishegos_max_nworkers (paths_in lines))) o.filter)
          waits
          n
          start_ring
          log
unfolding main
main-Ordered g junk random files readable installs shared starts waits opts args n s o path m lines
      tail five ready installed memory processes valid parsed named opened plain plain' all_readable
      bound =
    let chosen = take mishegos_max_nworkers (paths_in lines) in
    let created = mutator_create-Named random o.mutator_name m s named in
    let loaded =
      load_workers-start_all readable lines tail plain plain'
      ∙ start_all-configs readable 0 chosen all_readable in
    let (log, s', e, _, ordered) =
      (run-Ordered IsReady IsSized IsWritable (call_mutator g junk m)
          (resolve_filter (length chosen) o.filter) (length chosen) waits n 0 start_ring
          (λ slot v. Keeps-imp (call_mutator-Called g junk m slot five v) λ res h. h.sized)
          (λ u answers e j slot v. (v.size, valid u answers e j)) (λ sample w. w)
          (start-IsRing IsSized (record { size = refl; short = omega arith })) (omega arith)).keep
        (record s { rng_state = random }) ready in
    (
      log,
      s',
      rw (parsed, installed)
          (by_signal-installed o.thread_mode _
            ∙ rw
                (
                  created,
                  opened,
                  memory 0,
                  loaded,
                  length-configs 0 chosen,
                  all_started_lem shared starts (length chosen) memory processes,
                  e,
                )
                refl),
      ordered,
    )
