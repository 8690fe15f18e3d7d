-- ===== src/Mish2jsonl/Print/Lines/Array.antt =====
-- src/mish2jsonl/mish2jsonl.c: the array of the option -n, beside the lines.
use mishegos.Base.{
  ℕ, zero, suc, ◌+◌, ◌<◌, ◌≡◌, refl, Bool, true, false, Option, some, List, [], ◌∷◌, ◌++◌, length,
  All, unlines, if◌then◌else◌, arith,
}
use mishegos.Slots.{InputSlot, mishegos_insn_maxlen}
use mishegos.Fuzzer.Process.{WorkerSlot}
use mishegos.Mish2jsonl.Read.{WorkerOutput, CohortResults}
use mishegos.Mish2jsonl.Print.{json_loop, m_print_results_json}
use mishegos.Mish2jsonl.Print.Lines.{
  IsSample, read_back, Printed, read_next-end, m_print_results_jsonl-lines,
}
use mishegos.Mish2jsonl.Main.{printed, read_mode, choose_input, print_results, convert}
use mishegos.Cohort.Layout.{file_bytes}
use mishegos.Cohort.RoundTrip.{read_next-cohort_bytes}

-- The elements of an array, a comma before each but the first.
pub items : Bool → List (List ℕ) → List ℕ
items first [] = []
items first (line ∷ lines) =
    (if first then [] else b',' ∷ []) ++ (line ++ b'\n' ∷ items false lines)

json_loop-items :
    (fuel : ℕ) (fresh : ℕ → ℕ → WorkerOutput) (round : ℕ) (first : Bool) (results : CohortResults)
    (ss : List (InputSlot × List WorkerSlot)) (lines : List (List ℕ))
    → length ss < fuel
    → length results.input.raw_insn ≡ mishegos_insn_maxlen
    → All IsSample ss
    → Printed fresh round ss lines
    → json_loop fuel fresh round first results (record { file = file_bytes ss; finished = false })
      ≡ some (items first lines)
unfolding json_loop file_bytes Printed items read_back
json_loop-items zero fresh round first results ss lines enough size v p = absurd (omega arith)
json_loop-items (suc fuel) fresh round first results [] [] enough size v p =
    rw (read_next-end (fresh round) results) refl
json_loop-items (suc fuel) fresh round first results [] (line ∷ lines) enough size v p = absurd p
json_loop-items (suc fuel) fresh round first results (s ∷ ss) [] enough size v p = absurd p
json_loop-items (suc fuel) fresh round first results (s ∷ ss) (line ∷ lines) enough size v p =
    let later =
      json_loop-items fuel fresh (round + 1) false (read_back (fresh round) s) ss lines
        (omega arith) v.0.size v.1 p.2 in
    rw
      (
        read_next-cohort_bytes (fresh round) results s.0 s.1 (file_bytes ss) size v.0.size v.0.few
            v.0.workers,
        p.0,
        later,
      )
      refl

-- On a file of cohorts that the fuzzer wrote, mish2jsonl without options prints one line of JSON per
-- cohort, and with -n it prints the same lines, in the same order, as the elements of one array. The
-- samples are in the ranges of the C types, and their worker paths have no control character.
pub convert-items :
    (fuel : ℕ) (fresh : ℕ → ℕ → WorkerOutput) (results : CohortResults)
    (files : List ℕ → Option (List ℕ)) (ss : List (InputSlot × List WorkerSlot))
    → length ss < fuel
    → length results.input.raw_insn ≡ mishegos_insn_maxlen
    → All IsSample ss
    → (lines : List (List ℕ)) × Printed fresh 0 ss lines
      × (convert fuel fresh results files (file_bytes ss) [] [] ≡ printed (unlines lines))
      × (convert fuel fresh results files (file_bytes ss) (b'n' ∷ []) []
          ≡ printed (b'[' ∷ items true lines ++ b']' ∷ []))
unfolding convert read_mode choose_input print_results m_print_results_json
convert-items fuel fresh results files ss enough size v =
    let (lines, e, p) = m_print_results_jsonl-lines fuel fresh results ss enough size v in
    (
      lines,
      p,
      rw e refl,
      rw (json_loop-items fuel fresh 0 true results ss lines enough size v p) refl,
    )
