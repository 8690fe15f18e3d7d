-- ===== src/Tests/Starting.antt =====
-- The start of the fuzzer at concrete arguments.
use mishegos.Base.{
  ℕ, ◌≡◌, ◌≢◌, ◌⊎◌, refl, ap, subst, inl, Bool, true, false, Option, none, some, List, [], ◌∷◌,
  ◌++◌, length, take, All, unlines, codes, arith,
}
use mishegos.Base.Int.{pos, negsuc}
use mishegos.Slots.{mishegos_max_nworkers}
use mishegos.Gen.Keeps.{Keeps}
use mishegos.Xoroshiro.Laws.{xoroshiro}
use mishegos.Mutator.Candidate.{zeroed}
use mishegos.Mutator.Select.{Mutator, havoc, sliding, Globals, mutator_create, call_mutator}
use mishegos.Mutator.Select.Names.{name_of, mutator_create-name}
use mishegos.Mutator.Select.Calls.{IsReady, Called, call_mutator-Called}
use mishegos.Fuzzer.Process.{WorkerSlot, default_filter, resolve_filter}
use mishegos.Fuzzer.Options.{
  Options, parse_range, read_option, read_options, read_arguments, second_bound, strtol, to_int,
  skip_spaces, read_signed, read_base_0, read_number, read_digits, has_hex,
}
use mishegos.Fuzzer.Options.Range.{int_text, parse_range-int_text}
use mishegos.Fuzzer.Startup.{load_workers}
use mishegos.Fuzzer.Startup.Files.{paths_in, start_all, load_workers-start_all}
use mishegos.Fuzzer.Loop.{Log, start_ring}
use mishegos.Fuzzer.Loop.Order.{IsWritable, Ordered}
use mishegos.Cohort.Layout.{IsWorker}
use mishegos.Fuzzer.Main.{looped, main}
use mishegos.Fuzzer.Main.Whole.{main-Ordered}
use mishegos.Tests.Inputs.{seed, junk, dirty_slot, decoder, refuser}

abbrev fresh_globals : Globals xoroshiro
fresh_globals = record { rng_state = seed; insn_cand = zeroed; stdin = [] }

fresh-IsReady : IsReady fresh_globals
fresh-IsReady = record { size = refl; fits = omega arith; window = inl refl }

mutator_create-name_example :
    ((m : Mutator) × (codes "havoc" ≡ name_of m)
      × (mutator_create seed (some (codes "havoc")) fresh_globals
          ≡ some (m, record fresh_globals { rng_state = seed })))
    ⊎ (((m : Mutator) → codes "havoc" ≢ name_of m)
        × (mutator_create seed (some (codes "havoc")) fresh_globals ≡ none))
mutator_create-name_example = mutator_create-name seed (codes "havoc") fresh_globals

call_mutator-Called_example :
    Keeps IsReady (Called sliding) (call_mutator xoroshiro junk sliding dirty_slot)
call_mutator-Called_example =
    call_mutator-Called xoroshiro junk sliding dirty_slot refl
      (record { size = refl; short = omega arith })

parse_range-int_text_example :
    (parse_range (int_text (pos 1) ++ (b':' ∷ int_text (negsuc 1))) default_filter
      ≡ some (record default_filter { min_success = pos 1; max_success = negsuc 1 }))
    × (parse_range (int_text (pos 1)) default_filter
        ≡ some (record default_filter { min_success = pos 1 }))
parse_range-int_text_example =
    parse_range-int_text (pos 1) (negsuc 1) default_filter (omega arith) (omega arith)

-- A comment and two workers, and a third one that no newline ends.
abbrev worker_lines : List (List ℕ)
worker_lines = codes "#a" ∷ codes "x.so" ∷ codes "y.so" ∷ []

abbrev last_line : List ℕ
last_line = codes "z.so"

abbrev all_readable : List ℕ → Bool
all_readable path = true

load_workers-start_all_example :
    load_workers all_readable (unlines worker_lines ++ last_line)
    ≡ start_all all_readable 0 (take mishegos_max_nworkers (paths_in worker_lines))
load_workers-start_all_example =
    load_workers-start_all all_readable worker_lines last_line (ground arith) (ground arith)

abbrev asked : List (ℕ × List ℕ)
asked = (b'm', codes "havoc") ∷ (b's', codes "0") ∷ (b'n', []) ∷ []

abbrev asked_options : Options
asked_options = record {
  thread_mode = false;
  mutator_name = some (codes "havoc");
  filter = record { min_success = pos 0; max_success = pos 31; ndecoded_same = true };
}

read_asked : read_arguments asked (codes "w" ∷ []) ≡ some (asked_options, codes "w")
unfolding read_arguments read_options read_option parse_range second_bound strtol to_int skip_spaces
    read_signed read_base_0 read_number read_digits has_hex
read_asked = refl

-- Every wait ends, and each worker leaves the same for every input.
abbrev both : ℕ → List WorkerSlot
both j = decoder ∷ refuser ∷ []

abbrev patient : ℕ → Option (ℕ → List WorkerSlot)
patient u = some both

abbrev taken : Option (ℕ → List WorkerSlot) → ℕ → List WorkerSlot
taken none = both
taken (some answers) = answers

abbrev config_file : List ℕ → Option (List ℕ)
config_file path = some (unlines worker_lines ++ last_line)

chosen_readable :
    All (λ p. all_readable p ≡ true) (take mishegos_max_nworkers (paths_in worker_lines))
chosen_readable = every_readable (take mishegos_max_nworkers (paths_in worker_lines))
  where
    every_readable : (paths : List (List ℕ)) → All (λ p. all_readable p ≡ true) paths
    every_readable [] = tt
    every_readable (path ∷ paths) = (refl, every_readable paths)

-- Every call of this kind succeeds.
abbrev always : ℕ → Bool
always k = true

both-All :
    (u : ℕ) (answers : ℕ → List WorkerSlot)
    → patient u ≡ some answers
    → (j : ℕ) → All IsWorker (answers j)
both-All u answers e j =
    subst (λ (a : ℕ → List WorkerSlot). All IsWorker (a j)) (ap taken e) (omega arith)

main-Ordered_example :
    (log : Log) × (s : Globals xoroshiro) × (main xoroshiro junk seed config_file all_readable true
        always always patient asked
        (codes "w" ∷ [])
        5
        fresh_globals
      ≡ looped log s)
    × Ordered IsWritable
        (resolve_filter
          (length (take mishegos_max_nworkers (paths_in worker_lines)))
          asked_options.filter)
        patient
        5
        start_ring
        log
main-Ordered_example =
    main-Ordered xoroshiro junk seed config_file all_readable true always always patient asked
      (codes "w" ∷ []) 5 fresh_globals asked_options (codes "w") havoc worker_lines last_line refl
      fresh-IsReady refl (λ k. refl) (λ k. refl) both-All read_asked refl refl (ground arith)
      (ground arith) chosen_readable (omega arith)
