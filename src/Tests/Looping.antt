-- ===== src/Tests/Looping.antt =====
-- Runs of the main loop on small inputs.
use mishegos.Base.{
  ℕ, ◌≡◌, refl, ap, subst, Option, none, some, List, [], ◌∷◌, length, unlines, arith,
}
use mishegos.Slots.{InputSlot}
use mishegos.Fuzzer.Process.{WorkerSlot}
use mishegos.Gen.Keeps.{Any, Keeps, Keeps-Returns}
use mishegos.Fuzzer.Loop.{Log, start_ring, run}
use mishegos.Fuzzer.Loop.Order.{Ordered, kept_samples, run-Ordered}
use mishegos.Fuzzer.Loop.Ends.{Completed, start-IsRing, run-Completed}
use mishegos.Mutator.Manual.{manual_candidate}
use mishegos.Mutator.Manual.RoundTrip.{IsSlot, manual_candidate-IsSlot}
use mishegos.Mutator.Manual.Spending.{manual_candidate-Spends}
use mishegos.Mish2jsonl.Print.{m_print_results_jsonl}
use mishegos.Mish2jsonl.Print.Lines.{IsSample, Printed}
use mishegos.Pipeline.{IsAnswer, unset-IsSlot, answered-IsSample, manual_run-lines}
use mishegos.Tests.Inputs.{decoder, refuser, default_range, uncleared, no_results}

-- Two lines: 90 and 0fa2.
abbrev typed : List ℕ
typed = b'9' ∷ b'0' ∷ 0x0a ∷ b'0' ∷ b'f' ∷ b'a' ∷ b'2' ∷ 0x0a ∷ []

abbrev both : ℕ → List WorkerSlot
both j = decoder ∷ refuser ∷ []

-- Every wait ends.
abbrev patient : ℕ → Option (ℕ → List WorkerSlot)
patient u = some both

abbrev taken : Option (ℕ → List WorkerSlot) → ℕ → List WorkerSlot
taken none = both
taken (some answers) = answers

both-IsAnswer : (j : ℕ) → IsAnswer (both j)
both-IsAnswer j = record {
  few = omega arith;
  workers = omega arith;
  paths = omega arith;
  texts = omega arith;
}

manual_run-lines_example :
    (log : Log) × (rest : List ℕ) × (lines : List (List ℕ)) × (run manual_candidate default_range 2
        patient 19 0 start_ring typed
      ≡ some (log, rest))
    × Completed IsSample default_range (length typed) log
    × (m_print_results_jsonl 9 (λ round. uncleared) no_results log.written ≡ some (unlines lines))
    × Printed (λ round. uncleared) 0 (kept_samples default_range log.processed) lines
manual_run-lines_example =
    manual_run-lines default_range 2 patient (λ round. uncleared) no_results 19 9 typed
      (λ u. (both, refl))
      (λ u answers e j.
        subst (λ (a : ℕ → List WorkerSlot). IsAnswer (a j)) (ap taken e) (both-IsAnswer j))
      refl (omega arith) (omega arith) (omega arith)

both_fits :
    (u : ℕ) (answers : ℕ → List WorkerSlot)
    → patient u ≡ some answers
    → (j : ℕ) (slot : InputSlot) → IsSlot slot
    → IsSample (slot, answers j)
both_fits u answers e j slot =
    subst (λ (a : ℕ → List WorkerSlot). IsSlot slot → IsSample (slot, a j)) (ap taken e)
      (answered-IsSample (both-IsAnswer j) slot)

run-Completed_example :
    (log : Log) × (rest : List ℕ) × (run manual_candidate default_range 2 patient 19 0 start_ring
        typed
      ≡ some (log, rest))
    × Completed IsSample default_range (length typed) log
run-Completed_example =
    run-Completed Any IsSlot IsSample (λ s. length s) manual_candidate default_range 2 patient 19
      typed (λ slot v. Keeps-Returns (manual_candidate-IsSlot slot v)) (λ u. (both, refl)) both_fits
      (λ sample v. (v.size, v.workers)) unset-IsSlot tt manual_candidate-Spends (omega arith)
      (omega arith)

run-Ordered_example :
    Keeps Any
      (Ordered IsSample default_range patient 40 start_ring)
      (run manual_candidate default_range 2 patient 40 0 start_ring)
run-Ordered_example =
    run-Ordered Any IsSlot IsSample manual_candidate default_range 2 patient 40 0 start_ring
      (λ slot v. Keeps-Returns (manual_candidate-IsSlot slot v)) both_fits
      (λ sample v. (v.size, v.workers)) (start-IsRing IsSlot unset-IsSlot) (omega arith)
