-- ===== src/Fuzzer/Loop/Order.antt =====
-- src/mishegos/mishegos.c: what a run of the loop of `main` processes, writes and leaves.
use mishegos.Base.{
  ℕ, zero, suc, ◌+◌, ◌*◌, ◌^◌, ◌≤◌, ◌<◌, ◌≡◌, refl, sym, ap, ◌∙◌, Bool, true, false, some, List, [],
  ◌∷◌, ◌++◌, map, length, All, ltb, ◌==◌, if◌then◌else◌, arith, append-nil, append_assoc,
  length-append, All-append, All-imp, Option, none, Bool-cases, inl, inr, ◌⊎◌,
}
use mathlib.Core.List.{map-append}
use mishegos.Slots.{InputSlot, mishegos_insn_maxlen}
use mishegos.Gen.{Gen}
use mishegos.Gen.Keeps.{Keeps, Keeps-pure, Keeps-bind, Keeps-bind_eq}
use mishegos.Fuzzer.Process.{FilterConfig, WorkerSlot, keep}
use mishegos.Fuzzer.Worker.{mishegos_num_slots_per_chunk}
use mishegos.Fuzzer.Fill.{Ring}
use mishegos.Fuzzer.Loop.{
  Sample, Log, stopped, awaited, checked, samples_from, joined, process_all, ready, slots, handed,
  logged, run,
}
use mishegos.Fuzzer.Loop.Moves.{fill_next-Moves}
use mishegos.Fuzzer.Loop.Round.{pending, credit, IsRing, inputs-ready, last-pending, Moves}
use mishegos.Cohort.Layout.{IsWorker, cohort_bytes, file_bytes, process-cohort_bytes}

Keeps-checked :
    {S A : Type 0} {I : S → Type 0} (o : Option A) (a : A)
    → o ≡ some a
    → Keeps I (λ x. x ≡ a) (checked o)
unfolding checked
Keeps-checked o a e = rw e (record { keep = λ s i. (a, s, refl, i, refl) })

-- The samples that the filter keeps.
pub kept_samples : FilterConfig → List Sample → List Sample
kept_samples f [] = []
kept_samples f (s ∷ ss) = if keep f s.1 then s ∷ kept_samples f ss else kept_samples f ss

kept-append :
    (f : FilterConfig) (xs ys : List Sample)
    → kept_samples f (xs ++ ys) ≡ kept_samples f xs ++ kept_samples f ys
unfolding kept_samples
kept-append f [] ys = refl
kept-append f (x ∷ xs) ys = elim (Bool-cases (keep f x.1)) [
  | inl kept ↦ rw kept (ap (x ∷◌) (kept-append f xs ys))
  | inr dropped ↦ rw dropped (kept-append f xs ys)
]

pub kept_samples-All :
    (Q : Sample → Type 0) (f : FilterConfig) (ss : List Sample)
    → All Q ss
    → All Q (kept_samples f ss)
unfolding kept_samples
kept_samples-All Q f [] h = tt
kept_samples-All Q f (s ∷ ss) h = elim (Bool-cases (keep f s.1)) [
  | inl kept ↦ rw kept (h.0, kept_samples-All Q f ss h.1)
  | inr dropped ↦ rw dropped (kept_samples-All Q f ss h.1)
]

pub length-kept_samples :
    (f : FilterConfig) (ss : List Sample) → length (kept_samples f ss) ≤ length ss
unfolding kept_samples
length-kept_samples f [] = omega arith
length-kept_samples f (s ∷ ss) = elim (Bool-cases (keep f s.1)) [
  | inl kept ↦ rw kept (omega (arith, length-kept_samples f ss))
  | inr dropped ↦ rw dropped (omega (arith, length-kept_samples f ss))
]

file_bytes-append : (xs ys : List Sample) → file_bytes (xs ++ ys) ≡ file_bytes xs ++ file_bytes ys
unfolding file_bytes
file_bytes-append [] ys = refl
file_bytes-append (x ∷ xs) ys =
    rw (file_bytes-append xs ys)
      (sym (append_assoc (cohort_bytes x.0 x.1) (file_bytes xs) (file_bytes ys)))

-- A sample that `process` can write.
abbrev pub IsWritable : Sample → Type 0
IsWritable s = (length s.0.raw_insn ≡ mishegos_insn_maxlen) × All IsWorker s.1

process_all_lem :
    (f : FilterConfig) (ss : List Sample)
    → All IsWritable ss
    → process_all f ss ≡ some (file_bytes (kept_samples f ss))
unfolding process_all kept_samples file_bytes
process_all_lem f [] h = refl
process_all_lem f ((input, ws) ∷ ss) h =
    rw (process-cohort_bytes f input ws h.0.0 h.0.1, process_all_lem f ss h.1) (joins (keep f ws))
  where
    joins :
        (b : Bool)
        → joined
            (some (if b then cohort_bytes input ws else []))
            (some (file_bytes (kept_samples f ss)))
          ≡ some (file_bytes (if b then (input, ws) ∷ kept_samples f ss else kept_samples f ss))
    joins true = refl
    joins false = refl

samples_from-All :
    (P : InputSlot → Type 0) (Q : Sample → Type 0) (n i : ℕ) (inputs : ℕ → InputSlot)
    (answers : ℕ → List WorkerSlot)
    → ((j : ℕ) → P (inputs j))
    → ((j : ℕ) (slot : InputSlot) → P slot → Q (slot, answers j))
    → All Q (samples_from n i inputs answers)
unfolding samples_from
samples_from-All P Q zero i inputs answers h fits = tt
samples_from-All P Q (suc n) i inputs answers h fits =
    (fits i (inputs i) (h i), samples_from-All P Q n (i + 1) inputs answers h fits)

ready-All :
    (P : InputSlot → Type 0) (Q : Sample → Type 0) (r : Ring) (answers : ℕ → List WorkerSlot)
    → IsRing P r
    → ((j : ℕ) (slot : InputSlot) → P slot → Q (slot, answers j))
    → All Q (ready r answers)
unfolding ready
ready-All P Q r answers v fits = elim (Bool-cases (ltb 1 r.gen)) [
  | inl later ↦ rw later (samples_from-All P Q _ 0 _ answers (v.kept r.idx) fits)
  | inr first ↦ rw first tt
]

abbrev pub inputs_of : List Sample → List InputSlot
inputs_of = map (λ s. s.0)

pub length-inputs_of : (ss : List Sample) → length (inputs_of ss) ≡ length ss
length-inputs_of [] = refl
length-inputs_of (s ∷ ss) = ap suc (length-inputs_of ss)

-- A run from the ring `r`: what was pending in it or handed over during the run is processed, or still
-- pending at the end of a run that has not ended, in that order; the bytes are the cohorts of the
-- samples that the filter keeps; and a run that has not ended has handed over a full chunk in each
-- round but for its credit, unless one of its waits never ends.
pub record Ordered (Q : Sample → Type 0) (f : FilterConfig)
    (waits : ℕ → Option (ℕ → List WorkerSlot)) (n : ℕ) (r : Ring) (log : Log) : Type 0 where
  pub valid : All Q log.processed
  pub order :
      pending r ++ log.published
      ≡ inputs_of log.processed ++ (if log.ended then [] else pending log.ring)
  pub bytes : log.written ≡ file_bytes (kept_samples f log.processed)
  pub pace :
      (log.ended ≡ true)
      ⊎ ((mishegos_num_slots_per_chunk * n
            ≤ length log.published + mishegos_num_slots_per_chunk * credit r)
          ⊎ ((u : ℕ) × (waits u ≡ none)))

Keeps-awaited :
    {S : Type 0} {I : S → Type 0} {Q : Log → Type 0} (r : Ring) (o : Option (ℕ → List WorkerSlot))
    (goes_on : (ℕ → List WorkerSlot) → Gen S Log)
    → (o ≡ none → Q (stopped r))
    → ((answers : ℕ → List WorkerSlot) → o ≡ some answers → Keeps I Q (goes_on answers))
    → Keeps I Q (awaited r o goes_on)
unfolding awaited
Keeps-awaited r none goes_on stuck h = Keeps-pure _ (stuck refl)
Keeps-awaited r (some answers) goes_on stuck h = h answers refl

module _ {S : Type 0} (I : S → Type 0) (P : InputSlot → Type 0) (Q : Sample → Type 0)
    (mutator : InputSlot → Gen S (Bool × InputSlot)) (f : FilterConfig) (nworkers : ℕ)
    (waits : ℕ → Option (ℕ → List WorkerSlot)) where
  logged-Ordered :
      (n : ℕ) (answers : ℕ → List WorkerSlot) (r r' : Ring) (log : Log)
      → IsRing P r
      → Moves P r r'
      → All Q (ready r answers)
      → Ordered Q f waits n r' log
      → Ordered Q f waits (suc n) r (
          logged
            (ready r answers)
            (file_bytes (kept_samples f (ready r answers)))
            (handed r r')
            log)
  unfolding logged
  logged-Ordered n answers r r' log v m fine o =
      let samples = ready r answers in
      let chunk = slots (r.input_chunks r.idx) in
      let left = if log.ended then [] else pending log.ring in
      let taken : inputs_of (samples ++ log.processed) ≡ chunk ++ inputs_of log.processed =
        map-append (λ (s : Sample). s.0) samples log.processed
        ∙ ap (◌++ inputs_of log.processed) (inputs-ready P r answers v) in
      record {
        valid = All-append Q samples log.processed fine o.valid;
        order =
            sym (append_assoc (pending r) (handed r r') log.published)
            ∙ ap (◌++ log.published) m.order
            ∙ append_assoc chunk (pending r') log.published
            ∙ ap (chunk ++◌) o.order
            ∙ sym (append_assoc chunk (inputs_of log.processed) left)
            ∙ ap (◌++ left) (sym taken);
        bytes =
            rw
              (
                kept-append f samples log.processed,
                file_bytes-append (kept_samples f samples) (kept_samples f log.processed),
                o.bytes,
              )
              refl;
        pace = elim o.pace [
          | inl ended ↦ inl ended
          | inr (inl more) ↦
              inr (inl (omega (arith, m.pace, length-append (handed r r') log.published)))
          | inr (inr never) ↦ inr (inr never)
        ];
      }

  stopped-Ordered : (n t : ℕ) (r : Ring) → waits t ≡ none → Ordered Q f waits n r (stopped r)
  stopped-Ordered n t r never = record {
    valid = tt;
    order = append-nil _;
    bytes = unfold kept_samples in unfold file_bytes in refl;
    pace = inr (inr (t, never));
  }

  -- From a ring in order, every run of `n` rounds returns, and it is in order: what was pending and
  -- what was handed over is what was processed, followed by what is still pending, and what was written
  -- is the cohorts of the samples that the filter keeps; and a run that has not ended has handed over a
  -- full chunk in each round but for its credit, unless one of its waits never ends. The mutator keeps an invariant of its
  -- state and a property of slots that makes the samples valid, valid samples can be written, and the generation does not overflow.
  pub run-Ordered :
      (n t : ℕ) (r : Ring)
      → ((slot : InputSlot) → P slot → Keeps I (λ res. P res.1) (mutator slot))
      → ((u : ℕ) (answers : ℕ → List WorkerSlot)
          → waits u ≡ some answers
          → (j : ℕ) (slot : InputSlot) → P slot
          → Q (slot, answers j))
      → ((s : Sample) → Q s → IsWritable s)
      → IsRing P r
      → r.gen + n < 2 ^ 64
      → Keeps I (Ordered Q f waits n r) (run mutator f nworkers waits n t r)
  unfolding run
  run-Ordered zero t r keeps fits writes v bound = Keeps-pure _ (record {
    valid = tt;
    order = append-nil _;
    bytes = unfold kept_samples in unfold file_bytes in refl;
    pace = inr (inl (omega arith));
  })
  run-Ordered (suc n) t r keeps fits writes v bound =
      Keeps-awaited r (waits t) _ (λ never. stopped-Ordered (suc n) t r never)
        λ answers ends.
          let samples = ready r answers in
          let fine = ready-All P Q r answers v (fits t answers ends) in
          Keeps-bind_eq _ (file_bytes (kept_samples f samples))
            (Keeps-checked _ _ (process_all_lem f samples (All-imp Q samples writes fine)))
            (elim (Bool-cases (r.idx == r.exit_idx)) [
              | inl last ↦ rw last (
                  Keeps-pure _ (record {
                    valid = fine;
                    order =
                        ap (◌++ []) (last-pending P r v last ∙ sym (inputs-ready P r answers v));
                    bytes = refl;
                    pace = inl refl;
                  }))
              | inr on ↦ rw on (
                  Keeps-bind (fill_next-Moves I P mutator nworkers r keeps v on (omega arith))
                    λ r' m.
                      Keeps-bind
                        (run-Ordered n (t + 1) r' keeps fits writes m.ring
                          (omega (arith, m.slower)))
                        λ log o. Keeps-pure _ (logged-Ordered n answers r r' log v m fine o))
            ])
