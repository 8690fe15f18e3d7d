-- ===== src/Mish2jsonl/Print.antt =====
-- src/mish2jsonl/mish2jsonl.c: `m_print_results_jsonl` and `m_print_results_json`, the loops over a file.
pub mod Line
pub mod Lines
use mishegos.Base.{
  ℕ, zero, suc, ◌+◌, Bool, true, false, not, Option, none, some, ◌>>=◌, List, [], ◌∷◌, ◌++◌,
  if◌then◌else◌,
}
use mishegos.Mish2jsonl.Read.{WorkerOutput, CohortResults, Reader, read_next}
use mishegos.Mish2jsonl.Json.{m_cohort_print_json}

-- `fresh` is the memory from malloc in each round of the loop; `none` is a run out of fuel, or an
-- access past the end of an array.
unfoldable pub jsonl_loop :
    ℕ → (ℕ → ℕ → WorkerOutput) → ℕ → CohortResults → Reader → Option (List ℕ)
jsonl_loop zero fresh round results r = none
jsonl_loop (suc fuel) fresh round results r =
    let (more, results', r') = read_next (fresh round) results r in
    let rest = jsonl_loop fuel fresh (round + 1) results' r' in
    if more
    then (do line ← m_cohort_print_json results'; text ← rest; some (line ++ (b'\n' ∷ text)))
    else some []

unfoldable pub m_print_results_jsonl :
    ℕ → (ℕ → ℕ → WorkerOutput) → CohortResults → List ℕ → Option (List ℕ)
unfolding jsonl_loop
m_print_results_jsonl fuel fresh results input_file =
    jsonl_loop fuel fresh 0 results (record { file = input_file; finished = false })

unfoldable pub json_loop :
    ℕ → (ℕ → ℕ → WorkerOutput) → ℕ → Bool → CohortResults → Reader → Option (List ℕ)
json_loop zero fresh round is_first results r = none
json_loop (suc fuel) fresh round is_first results r =
    let (more, results', r') = read_next (fresh round) results r in
    let same = json_loop fuel fresh (round + 1) is_first results' r' in
    let rest = json_loop fuel fresh (round + 1) false results' r' in
    if more
    then (if not r'.finished
        then (do
          line ← m_cohort_print_json results'
          text ← rest
          some ((if is_first then [] else b',' ∷ []) ++ (line ++ (b'\n' ∷ text))))
        else same)
    else some []

-- The comma goes to stdout, which is the output file that `main` passes.
unfoldable pub m_print_results_json :
    ℕ → (ℕ → ℕ → WorkerOutput) → CohortResults → List ℕ → Option (List ℕ)
unfolding json_loop
m_print_results_json fuel fresh results input_file = do
  text ← json_loop fuel fresh 0 true results (record { file = input_file; finished = false })
  some (b'[' ∷ (text ++ (b']' ∷ [])))
