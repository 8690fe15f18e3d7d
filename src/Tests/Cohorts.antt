-- ===== src/Tests/Cohorts.antt =====
-- Cohorts and filters at concrete samples.
use mishegos.Base.{
  ◌+◌, ◌≤◌, ◌≡◌, ◌↔◌, refl, true, false, some, List, [], ◌∷◌, ◌++◌, length, All, arith,
  if◌then◌else◌,
}
use mishegos.Base.Int.{pos, negsuc}
use mishegos.Fuzzer.Process.{WorkerSlot, keep, process, resolve_filter}
use mishegos.Fuzzer.Process.Filter.{Wanted, successes, keep_iff, keep_from_end}
use mishegos.Mish2jsonl.Read.{read_next}
use mishegos.Cohort.Layout.{IsWorker, cohort_bytes, process-cohort_bytes}
use mishegos.Cohort.RoundTrip.{decoded_all, read_next-cohort_bytes}
use mishegos.Tests.Inputs.{nop, decoder, refuser, default_range, uncleared, no_results}

abbrev two_workers : List WorkerSlot
two_workers = decoder ∷ refuser ∷ []

two_workers-IsWorker : All IsWorker two_workers
two_workers-IsWorker = omega arith

keep_iff_example : (keep default_range two_workers ≡ true) ↔ Wanted default_range two_workers
keep_iff_example = keep_iff default_range two_workers

keep_from_end_example :
    (keep
        (resolve_filter 2
          (record { min_success = pos 1; max_success = negsuc 1; ndecoded_same = false }))
        two_workers
      ≡ true)
    ↔ ((1 ≤ length (successes two_workers)) × (length (successes two_workers) + 1 ≤ 2))
keep_from_end_example = keep_from_end 1 1 two_workers (omega arith)

process-cohort_bytes_example :
    process default_range nop two_workers
    ≡ some (if keep default_range two_workers then cohort_bytes nop two_workers else [])
process-cohort_bytes_example =
    process-cohort_bytes default_range nop two_workers refl two_workers-IsWorker

read_next-cohort_bytes_example :
    read_next uncleared no_results
      (record { file = cohort_bytes nop two_workers ++ (7 ∷ []); finished = false })
    ≡ (
      true,
      record { nworkers = 2; input = nop; outputs = decoded_all uncleared 0 two_workers },
      record { file = 7 ∷ []; finished = false },
    )
read_next-cohort_bytes_example =
    read_next-cohort_bytes uncleared no_results nop two_workers (7 ∷ []) refl refl (omega arith)
      two_workers-IsWorker
