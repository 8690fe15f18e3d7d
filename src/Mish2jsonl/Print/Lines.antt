-- ===== src/Mish2jsonl/Print/Lines.antt =====
-- src/mish2jsonl/mish2jsonl.c: the lines for a file of cohorts.
pub mod Array
use mishegos.Base.{
  ℕ, zero, suc, ◌+◌, ◌≤◌, ◌<◌, ◌^◌, ◌≡◌, refl, ap, true, false, not, some, List, [], ◌∷◌, length,
  take, drop, All, All-take, arith, unlines,
}
use mishegos.Bytes.{IsByte, le_bytes}
use mishegos.Slots.{InputSlot, mishegos_insn_maxlen}
use mishegos.Fuzzer.Process.{WorkerSlot}
use mishegos.Mish2jsonl.Read.{
  WorkerOutput, CohortResults, Reader, fread, m_fread, read_string, read_worker, read_workers,
  read_next,
}
use mishegos.Mish2jsonl.Json.{m_cohort_print_json}
use mishegos.Mish2jsonl.Print.{jsonl_loop, m_print_results_jsonl}
use mishegos.Mish2jsonl.Print.Line.{IsText, IsShown, IsPrintable, m_cohort_print_json-IsText}
use mishegos.Cohort.Layout.{IsWorker, file_bytes}
use mishegos.Cohort.RoundTrip.{decoded, decoded_all, read_next-cohort_bytes}

-- Once the end of the file is found, no read forgets it.
m_fread-finished :
    (size times : ℕ) (old : List ℕ) (r : Reader)
    → r.finished ≡ true
    → (m_fread size times old r).1.finished ≡ true
unfolding m_fread fread
m_fread-finished size times old r h = ground (arith, h)

read_string-finished :
    (n : ℕ) (r : Reader) → r.finished ≡ true → (read_string n r).1.finished ≡ true
unfolding read_string
read_string-finished n r h = m_fread-finished 1 _ _ _ (m_fread-finished n 1 _ r h)

read_worker-finished :
    (o : WorkerOutput) (r : Reader) → r.finished ≡ true → (read_worker o r).1.finished ≡ true
unfolding read_worker
read_worker-finished o r h =
    read_string-finished 2 _
      (m_fread-finished 2 1 _ _ (m_fread-finished 4 1 _ _ (read_string-finished 8 r h)))

read_workers-finished :
    (fresh : ℕ → WorkerOutput) (n i : ℕ) (r : Reader)
    → r.finished ≡ true
    → (read_workers fresh n i r).1.finished ≡ true
unfolding read_workers
read_workers-finished fresh zero i r h = h
read_workers-finished fresh (suc n) i r h =
    read_workers-finished fresh n (i + 1) _ (read_worker-finished (fresh i) r h)

drop-nil : (n : ℕ) → drop {A = ℕ} n [] ≡ []
drop-nil zero = refl
drop-nil (suc n) = refl

m_fread-end : (old : List ℕ) (r : Reader) → r.file ≡ [] → (m_fread 16 1 old r).1.finished ≡ true
unfolding m_fread fread
m_fread-end old r h = rw h refl

-- At the end of the file there is no cohort.
pub read_next-end :
    (fresh : ℕ → WorkerOutput) (old : CohortResults)
    → (read_next fresh old (record { file = []; finished = false })).0 ≡ false
unfolding read_next fread
read_next-end fresh old = ap not (
    read_workers-finished fresh _ 0 _ (
      m_fread-end (old.input.len ∷ old.input.raw_insn) _
        (drop-nil (length (le_bytes 4 old.nworkers)))))

-- One sample that the fuzzer kept, in the ranges of the C types, with a worker path that has no
-- control character.
pub record IsSample (sample : InputSlot × List WorkerSlot) : Type 0 where
  pub size : length sample.0.raw_insn ≡ mishegos_insn_maxlen
  pub short : sample.0.len ≤ mishegos_insn_maxlen
  pub bytes : All IsByte sample.0.raw_insn
  pub few : length sample.1 < 2 ^ 32
  pub workers : All IsWorker sample.1
  pub paths : All (λ w. IsText w.soname) sample.1
  pub texts : All (λ w. All IsByte w.output.result) sample.1

-- What the reader makes of a sample.
pub read_back : (ℕ → WorkerOutput) → InputSlot × List WorkerSlot → CohortResults
read_back fresh s = record { nworkers = length s.1; input = s.0; outputs = decoded_all fresh 0 s.1 }

decoded_all-IsShown :
    (fresh : ℕ → WorkerOutput) (i : ℕ) (ws : List WorkerSlot)
    → All (λ w. IsText w.soname) ws
    → All (λ w. All IsByte w.output.result) ws
    → All IsShown (decoded_all fresh i ws)
unfolding decoded_all decoded
decoded_all-IsShown fresh i [] hp ht = tt
decoded_all-IsShown fresh i (w ∷ ws) hp ht = (
  record {
    path = w.soname;
    path_text = hp.0;
    path_ends = refl;
    text = take w.output.len w.output.result;
    text_bytes = All-take _ w.output.len w.output.result ht.0;
    text_ends = refl;
  },
  decoded_all-IsShown fresh (i + 1) ws hp.1 ht.1,
)

-- The lines, each with its sample: a text without control characters, which is what
-- `m_cohort_print_json` prints of the sample that is read back.
pub Printed :
    (ℕ → ℕ → WorkerOutput) → ℕ → List (InputSlot × List WorkerSlot) → List (List ℕ) → Type 0
Printed fresh round [] [] = Unit
Printed fresh round (s ∷ ss) (line ∷ lines) =
    (m_cohort_print_json (read_back (fresh round) s) ≡ some line)
    × IsText line
    × Printed fresh (round + 1) ss lines
Printed fresh round samples lines = ⊥

jsonl_loop-lines :
    (fuel : ℕ) (fresh : ℕ → ℕ → WorkerOutput) (round : ℕ) (results : CohortResults)
    (ss : List (InputSlot × List WorkerSlot))
    → length ss < fuel
    → length results.input.raw_insn ≡ mishegos_insn_maxlen
    → All IsSample ss
    → (lines : List (List ℕ)) × (jsonl_loop fuel fresh round results
          (record { file = file_bytes ss; finished = false })
        ≡ some (unlines lines))
      × Printed fresh round ss lines
unfolding jsonl_loop file_bytes unlines Printed read_back
jsonl_loop-lines zero fresh round results ss enough size v = absurd (omega arith)
jsonl_loop-lines (suc fuel) fresh round results [] enough size v =
    ([], rw (read_next-end (fresh round) results) refl, tt)
jsonl_loop-lines (suc fuel) fresh round results (s ∷ ss) enough size v =
    let shown : IsPrintable (read_back (fresh round) s) = record {
      short = v.0.short;
      bytes = v.0.bytes;
      shown = decoded_all-IsShown (fresh round) 0 s.1 v.0.paths v.0.texts;
    } in
    let (line, e, text) = m_cohort_print_json-IsText _ shown in
    let (lines, e', p) =
      jsonl_loop-lines fuel fresh (round + 1) (read_back (fresh round) s) ss (omega arith) v.0.size
        v.1 in
    (
      line ∷ lines,
      rw
          (
            read_next-cohort_bytes (fresh round) results s.0 s.1 (file_bytes ss) size v.0.size
                v.0.few v.0.workers,
            e,
            e',
          )
          refl,
      (e, text, p),
    )

-- A file of cohorts that the fuzzer wrote gives its lines of JSON, one per cohort and in their order,
-- with no newline inside a line; the loop ends with the file, whatever memory the program starts with.
-- The samples are in the ranges of the C types, and their worker paths have no control character.
pub m_print_results_jsonl-lines :
    (fuel : ℕ) (fresh : ℕ → ℕ → WorkerOutput) (results : CohortResults)
    (ss : List (InputSlot × List WorkerSlot))
    → length ss < fuel
    → length results.input.raw_insn ≡ mishegos_insn_maxlen
    → All IsSample ss
    → (lines : List (List ℕ)) × (m_print_results_jsonl fuel fresh results (file_bytes ss)
        ≡ some (unlines lines))
      × Printed fresh 0 ss lines
unfolding m_print_results_jsonl
m_print_results_jsonl-lines fuel fresh results ss enough size v =
    jsonl_loop-lines fuel fresh 0 results ss enough size v
