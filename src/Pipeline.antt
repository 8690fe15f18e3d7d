-- ===== src/Pipeline.antt =====
-- The fuzzer and mish2jsonl together: the output of src/mishegos/mishegos.c under `manual_candidate` of
-- src/mishegos/mutator.c, read by src/mish2jsonl/mish2jsonl.c.
use mishegos.Base.{
  ap, ◌∙◌, Option, ℕ, ◌+◌, ◌-◌, ◌*◌, ◌^◌, ◌<◌, ◌≡◌, refl, some, List, length, All, unlines, arith,
}
use mishegos.Bytes.{IsByte}
use mishegos.Gen.Keeps.{Any, Keeps-Returns}
use mishegos.Slots.{InputSlot, mishegos_insn_maxlen}
use mishegos.Fuzzer.Process.{FilterConfig, WorkerSlot}
use mishegos.Fuzzer.Worker.{mishegos_num_slots_per_chunk}
use mishegos.Fuzzer.Loop.{Log, unset, start_ring, run}
use mishegos.Fuzzer.Loop.Order.{
  kept_samples, kept_samples-All, length-kept_samples, length-inputs_of,
}
use mishegos.Fuzzer.Loop.Ends.{Completed, run-Completed}
use mishegos.Cohort.Layout.{IsWorker}
use mishegos.Mutator.Manual.{manual_candidate}
use mishegos.Mutator.Manual.RoundTrip.{IsSlot, manual_candidate-IsSlot}
use mishegos.Mutator.Manual.Spending.{manual_candidate-Spends}
use mishegos.Mish2jsonl.Read.{WorkerOutput, CohortResults}
use mishegos.Mish2jsonl.Print.{m_print_results_jsonl}
use mishegos.Mish2jsonl.Print.Line.{IsText}
use mishegos.Mish2jsonl.Print.Lines.{IsSample, Printed, m_print_results_jsonl-lines}

-- What the workers leave for an input: slots in the ranges of the C types, and paths without a control
-- character.
pub record IsAnswer (ws : List WorkerSlot) : Type 0 where
  pub few : length ws < 2 ^ 32
  pub workers : All IsWorker ws
  pub paths : All (λ w. IsText w.soname) ws
  pub texts : All (λ w. All IsByte w.output.result) ws

pub answered-IsSample :
    {ws : List WorkerSlot} → IsAnswer ws → (slot : InputSlot) → IsSlot slot → IsSample (slot, ws)
answered-IsSample a slot v = record {
  size = v.size;
  short = v.short;
  bytes = v.bytes;
  few = a.few;
  workers = a.workers;
  paths = a.paths;
  texts = a.texts;
}

pub unset-IsSlot : IsSlot unset
unset-IsSlot = record { size = refl; short = omega arith; bytes = omega arith }

-- Whatever stdin holds, if every wait of `main` comes to an end, the fuzzer with the manual mutator ends after at most the length of stdin,
-- divided by 4096, and 18 rounds, and then mish2jsonl prints of its output one line of JSON for each
-- sample that the filter keeps. Each input that was handed to the workers was processed once, and the
-- lines stand in the order in which the inputs were handed over. The workers leave slots in the ranges
-- of the C types, their paths have no control character, and no stdin is so long that the generation
-- overflows.
pub manual_run-lines :
    (f : FilterConfig) (nworkers : ℕ) (waits : ℕ → Option (ℕ → List WorkerSlot))
    (fresh : ℕ → ℕ → WorkerOutput) (results : CohortResults) (n fuel : ℕ) (stdin : List ℕ)
    → ((u : ℕ) → (answers : ℕ → List WorkerSlot) × (waits u ≡ some answers))
    → ((u : ℕ) (answers : ℕ → List WorkerSlot)
        → waits u ≡ some answers
        → (j : ℕ) → IsAnswer (answers j))
    → length results.input.raw_insn ≡ mishegos_insn_maxlen
    → length stdin < mishegos_num_slots_per_chunk * n - mishegos_num_slots_per_chunk * 17
    → n + 1 < 2 ^ 64
    → length stdin < fuel
    → (log : Log) × (rest : List ℕ) × (lines : List (List ℕ)) × (run manual_candidate f nworkers
          waits n 0 start_ring stdin
        ≡ some (log, rest))
      × Completed IsSample f (length stdin) log
      × (m_print_results_jsonl fuel fresh results log.written ≡ some (unlines lines))
      × Printed fresh 0 (kept_samples f log.processed) lines
manual_run-lines f nworkers waits fresh results n fuel stdin ends answered size enough bound long =
    let (log, rest, e, done) =
      run-Completed Any IsSlot IsSample (λ s. length s) manual_candidate f nworkers waits n stdin
        (λ slot v. Keeps-Returns (manual_candidate-IsSlot slot v)) ends
        (λ u answers e j. answered-IsSample (answered u answers e j))
        (λ sample v. (v.size, v.workers)) unset-IsSlot tt manual_candidate-Spends enough bound in
    let count : length log.published ≡ length log.processed =
      ap length done.order ∙ length-inputs_of log.processed in
    let (lines, printed, each) =
      m_print_results_jsonl-lines fuel fresh results (kept_samples f log.processed)
        (omega (arith, done.few, count, length-kept_samples f log.processed)) size
        (kept_samples-All IsSample f log.processed done.valid) in
    (log, rest, lines, e, done, rw done.bytes printed, each)
