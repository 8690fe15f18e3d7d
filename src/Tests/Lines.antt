-- ===== src/Tests/Lines.antt =====
-- The JSON of concrete cohorts.
use mishegos.Base.{ℕ, ◌≡◌, refl, true, none, some, List, [], ◌∷◌, ◌++◌, All, unlines, arith}
use mishegos.Slots.{InputSlot}
use mishegos.Fuzzer.Process.{WorkerSlot}
use mishegos.Mish2jsonl.Read.{CohortResults}
use mishegos.Mish2jsonl.Json.{json_escape_string, m_cohort_print_json}
use mishegos.Mish2jsonl.Json.Escape.{IsEscaped, json_escape_string-IsEscaped}
use mishegos.Mish2jsonl.Print.{m_print_results_jsonl}
use mishegos.Mish2jsonl.Print.Line.{IsText, IsPrintable, m_cohort_print_json-IsText}
use mishegos.Cohort.Layout.{file_bytes}
use mishegos.Mish2jsonl.Print.Lines.{IsSample, Printed, m_print_results_jsonl-lines}
use mishegos.Mish2jsonl.Print.Lines.Array.{items, convert-items}
use mishegos.Mish2jsonl.Main.{printed, convert}
use mishegos.Tests.Inputs.{nop, decoder, refuser, uncleared, no_results}

abbrev quoted : List ℕ
quoted = b'"' ∷ b'a' ∷ 0x01 ∷ b'\n' ∷ 0xff ∷ []

json_escape_string-IsEscaped_example :
    (t : List ℕ) × (json_escape_string (quoted ++ (0 ∷ (7 ∷ []))) ≡ some t) × IsEscaped quoted t
json_escape_string-IsEscaped_example = json_escape_string-IsEscaped quoted (7 ∷ []) (omega arith)

abbrev shown : CohortResults
shown = record {
  nworkers = 1;
  input = nop;
  outputs =
      record {
        status = 1;
        ndecoded = 1;
        workerno = 4;
        workerso = record { len = 1; string = b'a' ∷ 0 ∷ [] };
        result = record { len = 2; string = b'"' ∷ 0x0a ∷ 0 ∷ [] };
      }
      ∷ [];
}

shown-IsPrintable : IsPrintable shown
shown-IsPrintable = record {
  short = omega arith;
  bytes = omega arith;
  shown = (
    record {
      path = b'a' ∷ [];
      path_text = omega arith;
      path_ends = refl;
      text = b'"' ∷ 0x0a ∷ [];
      text_bytes = omega arith;
      text_ends = refl;
    },
    tt,
  );
}

m_cohort_print_json-IsText_example :
    (line : List ℕ) × (m_cohort_print_json shown ≡ some line) × IsText line
m_cohort_print_json-IsText_example = m_cohort_print_json-IsText shown shown-IsPrintable

abbrev samples : List (InputSlot × List WorkerSlot)
samples = (nop, decoder ∷ refuser ∷ []) ∷ (nop, refuser ∷ []) ∷ []

samples-IsSample : All IsSample samples
samples-IsSample = omega arith

m_print_results_jsonl-lines_example :
    (lines : List (List ℕ)) × (m_print_results_jsonl 3
        (λ round. uncleared)
        no_results
        (file_bytes samples)
      ≡ some (unlines lines))
    × Printed (λ round. uncleared) 0 samples lines
m_print_results_jsonl-lines_example =
    m_print_results_jsonl-lines 3 (λ round. uncleared) no_results samples (omega arith) refl
      samples-IsSample

convert-items_example :
    (lines : List (List ℕ)) × Printed (λ round. uncleared) 0 samples lines
    × (convert 3 (λ round. uncleared) no_results (λ path. none) (file_bytes samples) [] []
        ≡ printed (unlines lines))
    × (convert 3 (λ round. uncleared) no_results (λ path. none) (file_bytes samples) (b'n' ∷ []) []
        ≡ printed (b'[' ∷ items true lines ++ b']' ∷ []))
convert-items_example =
    convert-items 3 (λ round. uncleared) no_results (λ path. none) samples (omega arith) refl
      samples-IsSample
