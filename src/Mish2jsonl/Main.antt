-- ===== src/Mish2jsonl/Main.antt =====
-- src/mish2jsonl/mish2jsonl.c: `main` with its options, as getopt hands them out, and its input.
use mishegos.Base.{ℕ, Option, none, some, List, [], ◌∷◌, ◌==◌, if◌then◌else◌}
use mishegos.Mish2jsonl.Read.{WorkerOutput, CohortResults}
use mishegos.Mish2jsonl.Print.{m_print_results_json, m_print_results_jsonl}

pub data Mode : Type 0 where
  json : Mode
  jsonl : Mode

-- How the program ends: with its usage text and 0 or 1, without an input file, with the text that it
-- printed, or with a read or write outside an array.
pub data Conversion : Type 0 where
  help : Conversion
  usage_error : Conversion
  unopened : Conversion
  printed : List ℕ → Conversion
  undefined : Conversion

-- The letters of the options, one behind the other; `rest` is what `main` does behind them.
unfoldable pub read_mode : Mode → (Mode → Conversion) → List ℕ → Conversion
read_mode mode rest [] = rest mode
read_mode mode rest (opt ∷ opts) =
    let later = read_mode json rest opts in
    if opt == b'h' then help else if opt == b'n' then later else usage_error

-- Just one argument is the path of the input; otherwise it is stdin.
unfoldable pub choose_input : (List ℕ → Option (List ℕ)) → List ℕ → List (List ℕ) → Option (List ℕ)
choose_input files stdin (path ∷ []) = files path
choose_input files stdin paths = some stdin

abbrev pub by_text : Option (List ℕ) → Conversion
by_text none = undefined
by_text (some text) = printed text

-- The loops have `fuel` rounds; `fresh` and `results` are the memory that they start with.
module _ (fuel : ℕ) (fresh : ℕ → ℕ → WorkerOutput) (results : CohortResults) where
  unfoldable pub print_results : Mode → List ℕ → Conversion
  print_results jsonl input = by_text (m_print_results_jsonl fuel fresh results input)
  print_results json input = by_text (m_print_results_json fuel fresh results input)

  abbrev pub by_input : Mode → Option (List ℕ) → Conversion
  by_input mode none = unopened
  by_input mode (some input) = print_results mode input

  unfoldable pub convert : (List ℕ → Option (List ℕ)) → List ℕ → List ℕ → List (List ℕ) → Conversion
  convert files stdin opts paths =
      read_mode jsonl (λ mode. by_input mode (choose_input files stdin paths)) opts
