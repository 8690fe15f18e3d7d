-- ===== src/Fuzzer/Startup.antt =====
-- src/mishegos/mishegos.c: `main` reads the paths of the workers' shared objects from a file, and looks
-- workers up by their process.
pub mod Files
use mishegos.Base.{
  ℕ, zero, suc, ◌+◌, Bool, true, false, Option, none, some, List, [], ◌∷◌, length, ltb, ◌==◌,
  if◌then◌else◌,
}
use mishegos.Slots.{mishegos_max_nworkers}
use mishegos.Mutator.Manual.{getline, chop}

-- The fields of a worker_config that `main` sets before it starts the worker.
pub record WorkerConfig : Type 0 where
  pub soname_len : ℕ
  pub soname : List ℕ
  pub workerno : ℕ
  pub start_gen : ℕ
  pub start_idx : ℕ

-- The workers are started, or a path cannot be read and the program ends, or the fuel is used up.
pub data Loaded : Type 0 where
  started : List WorkerConfig → Loaded
  unreadable : List ℕ → Loaded
  unfinished : Loaded

abbrev pub prepend : WorkerConfig → Loaded → Loaded
prepend w (started ws) = started (w ∷ ws)
prepend w (unreadable path) = unreadable path
prepend w unfinished = unfinished

-- getline meets the end of the file unless it meets a newline: then `feof` is 0.
unfoldable pub ends_line : List ℕ → Bool
ends_line [] = false
ends_line (c ∷ cs) = let rest = ends_line cs in if c == 0x0a then true else rest

abbrev pub is_comment : List ℕ → Bool
is_comment [] = false
is_comment (c ∷ cs) = c == b'#'

abbrev pub config : ℕ → List ℕ → WorkerConfig
config nworkers path = record {
  soname_len = length path;
  soname = path;
  workerno = nworkers;
  start_gen = 1;
  start_idx = 0;
}

-- The loop ends at the end of the file, also if it is met behind a line.
abbrev pub by_line : (List ℕ → List ℕ → Loaded) → Option (List ℕ × List ℕ) → Loaded
by_line on_line none = started []
by_line on_line (some (line, rest)) = if ends_line line then on_line line rest else started []

-- `access` says which paths can be read.
module _ (readable : List ℕ → Bool) where
  -- What becomes of a line; `skip` goes on with the lines behind it, `more` counts this one.
  unfoldable pub load_line : ℕ → List ℕ → Loaded → Loaded → Loaded
  load_line nworkers line skip more =
      if is_comment line
      then skip
      else if readable (chop line)
      then prepend (config nworkers (chop line)) more
      else unreadable (chop line)

  -- The loop over the lines of the file.
  unfoldable pub load_lines : ℕ → ℕ → List ℕ → Loaded
  load_lines zero nworkers file = unfinished
  load_lines (suc fuel) nworkers file =
      if ltb nworkers mishegos_max_nworkers
      then by_line
          (λ line rest.
            load_line nworkers line (load_lines fuel nworkers rest)
              (load_lines fuel (nworkers + 1) rest))
          (getline file)
      else started []

  unfoldable pub load_workers : List ℕ → Loaded
  load_workers file = load_lines (length file + 1) 0 file
