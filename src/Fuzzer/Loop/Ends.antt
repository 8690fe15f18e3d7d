-- ===== src/Fuzzer/Loop/Ends.antt =====
-- src/mishegos/mishegos.c: the end of the loop of `main`.
use mishegos.Base.{
  ℕ, zero, suc, ◌+◌, ◌-◌, ◌*◌, ◌^◌, ◌≤◌, ◌<◌, ◌≡◌, refl, sym, ap, ◌∙◌, Bool, true, false, some,
  List, [], ◌++◌, length, All, ◌==◌, if◌then◌else◌, arith, append-nil, length-append, Option, none,
  Bool-cases, inl, inr,
}
use mishegos.Slots.{InputSlot}
use mishegos.Gen.{Gen}
use mishegos.Gen.Keeps.{Keeps}
use mishegos.Gen.Returns.{Spends, Spends-pure, Spends-frame, Spends-bind}
use mishegos.Fuzzer.Process.{FilterConfig, WorkerSlot}
use mishegos.Fuzzer.Worker.{mishegos_num_slots_per_chunk, mishegos_num_chunks}
use mishegos.Fuzzer.Fill.{Filling, Ring, fill_slots, fill, advance, publish, fill_next}
use mishegos.Fuzzer.Loop.{
  Sample, Log, unset, start_ring, slots, inputs_from, awaited, checked, process_all, ready, handed,
  logged, run,
}
use mishegos.Fuzzer.Loop.Round.{pending, IsRing, handed-publish, length-slots}
use mishegos.Fuzzer.Loop.Window.{window}
use mishegos.Fuzzer.Loop.Order.{IsWritable, inputs_of, kept_samples, run-Ordered}
use mishegos.Cohort.Layout.{file_bytes}

Spends-checked : {S A : Type 0} {left : S → ℕ} (o : Option A) → Spends left 0 (λ a. 0) (checked o)
unfolding checked
Spends-checked none = record { spend = λ s a s' e. absurd (cc) }
Spends-checked (some a) = Spends-pure a (omega arith)

module _ {S : Type 0} (left : S → ℕ) (mutator : InputSlot → Gen S (Bool × InputSlot)) where
  -- A call that fills a slot leaves less than it found.
  abbrev pub IsSpending : Type 0
  IsSpending = (slot : InputSlot) → Spends left 0 (λ res. if res.0 then 1 else 0) (mutator slot)

  fill_slots-Spends :
      (n i : ℕ) (f : Filling)
      → IsSpending
      → Spends left f.count (λ f'. f'.count) (fill_slots mutator n i f)
  unfolding fill_slots
  fill_slots-Spends zero i f spends = Spends-pure f (omega arith)
  fill_slots-Spends (suc n) i f spends =
      Spends-bind (Spends-frame f.count (spends (f.inputs i))) λ res. elim (Bool-cases res.0) [
        | inl filled ↦ rw filled (fill_slots-Spends n (i + 1) _ spends)
        | inr ended ↦ rw ended (Spends-pure _ (omega arith))
      ]

  fill-Spends :
      (inputs : ℕ → InputSlot) → IsSpending → Spends left 0 (λ f. f.count) (fill mutator inputs)
  unfolding fill
  fill-Spends inputs spends =
      fill_slots-Spends mishegos_num_slots_per_chunk 0
        (record { inputs = inputs; count = 0; exhausted = false }) spends

  fill_next-Spends :
      (nworkers : ℕ) (r : Ring)
      → IsSpending
      → Spends left 0 (λ r'. length (handed r r')) (fill_next mutator nworkers r)
  unfolding fill_next
  fill_next-Spends nworkers r spends = elim (Bool-cases (r.exit_idx == mishegos_num_chunks)) [
    | inl filling ↦
        let size : (f : Filling) → length (handed r (advance (publish nworkers f r))) ≤ f.count =
          λ f. rw (handed-publish nworkers f r filling, length-slots) (omega arith) in
        rw filling (Spends-bind (fill-Spends _ spends) λ f. Spends-pure _ (size f))
    | inr leaving ↦
        let none_handed : handed r (advance r) ≡ [] = unfold handed in rw leaving refl in
        rw leaving (Spends-pure _ (rw none_handed (omega arith)))
  ]

  Spends-awaited :
      (r : Ring) (o : Option (ℕ → List WorkerSlot)) (goes_on : (ℕ → List WorkerSlot) → Gen S Log)
      → ((answers : ℕ → List WorkerSlot)
          → Spends left 0 (λ log. length log.published) (goes_on answers))
      → Spends left 0 (λ log. length log.published) (awaited r o goes_on)
  unfolding awaited
  Spends-awaited r none goes_on h = Spends-pure _ (omega arith)
  Spends-awaited r (some answers) goes_on h = h answers

  run-Spends :
      (f : FilterConfig) (nworkers : ℕ) (waits : ℕ → Option (ℕ → List WorkerSlot)) (n t : ℕ)
      (r : Ring)
      → IsSpending
      → Spends left 0 (λ log. length log.published) (run mutator f nworkers waits n t r)
  unfolding run logged
  run-Spends f nworkers waits zero t r spends = Spends-pure _ (omega arith)
  run-Spends f nworkers waits (suc n) t r spends = Spends-awaited r (waits t) _ λ answers.
      Spends-bind (Spends-checked (process_all f (ready r answers))) λ bytes.
        elim (Bool-cases (r.idx == r.exit_idx)) [
          | inl last ↦ rw last (Spends-pure _ (omega arith))
          | inr on ↦ rw on (
              Spends-bind (fill_next-Spends nworkers r spends) λ r'.
                Spends-bind
                  (Spends-frame (length (handed r r'))
                    (run-Spends f nworkers waits n (t + 1) r' spends))
                  λ log. Spends-pure _ (omega (arith, length-append (handed r r') log.published)))
        ]

-- The start ring has no input in it, and 17 rounds of credit.
pub start-IsRing : (P : InputSlot → Type 0) → P unset → IsRing P start_ring
start-IsRing P h = record {
  inside = omega arith;
  exit_in = omega arith;
  started = omega arith;
  unfilled = λ first j le lt. refl;
  kept = λ j i. h;
}

pending-start : pending start_ring ≡ []
unfolding pending
pending-start = unfold window in unfold slots in unfold inputs_from in refl

-- A run of the loop that has ended: at most `most` inputs were handed to the workers, and each of them has been processed, once
-- and in the order in which it was handed over; every sample satisfies `Q`; and what was written is the
-- cohorts of the samples that the filter keeps, in that order.
pub record Completed (Q : Sample → Type 0) (f : FilterConfig) (most : ℕ) (log : Log) : Type 0 where
  pub ended : log.ended ≡ true
  pub few : length log.published ≤ most
  pub order : log.published ≡ inputs_of log.processed
  pub valid : All Q log.processed
  pub bytes : log.written ≡ file_bytes (kept_samples f log.processed)

-- If every wait of `main` comes to an end, then from the start, a mutator that fills at most `left s` slots from its state `s` makes the loop end after
-- that number of slots divided by 4096, and 18 rounds; by then each input that was handed to the workers
-- is processed once and in order, and the file holds the cohorts of the samples that the filter keeps.
-- The mutator keeps an invariant of its state, which holds at first, and a property of slots that makes
-- the samples valid; valid samples can be written; and the generation does not overflow.
pub run-Completed :
    {S : Type 0} (I : S → Type 0) (P : InputSlot → Type 0) (Q : Sample → Type 0) (left : S → ℕ)
    (mutator : InputSlot → Gen S (Bool × InputSlot)) (f : FilterConfig) (nworkers : ℕ)
    (waits : ℕ → Option (ℕ → List WorkerSlot)) (n : ℕ) (s : S)
    → ((slot : InputSlot) → P slot → Keeps I (λ res. P res.1) (mutator slot))
    → ((u : ℕ) → (answers : ℕ → List WorkerSlot) × (waits u ≡ some answers))
    → ((u : ℕ) (answers : ℕ → List WorkerSlot)
        → waits u ≡ some answers
        → (j : ℕ) (slot : InputSlot) → P slot
        → Q (slot, answers j))
    → ((sample : Sample) → Q sample → IsWritable sample)
    → P unset
    → I s
    → IsSpending left mutator
    → left s < mishegos_num_slots_per_chunk * n - mishegos_num_slots_per_chunk * 17
    → n + 1 < 2 ^ 64
    → (log : Log) × (s' : S) × (run mutator f nworkers waits n 0 start_ring s ≡ some (log, s'))
      × Completed Q f (left s) log
run-Completed I P Q left mutator f nworkers waits n s keeps ends fits writes blank here spends
      enough bound =
    let (log, s', e, _, o) =
      (run-Ordered I P Q mutator f nworkers waits n 0 start_ring keeps fits writes
          (start-IsRing P blank) (omega arith)).keep
        s here in
    let used = (run-Spends left mutator f nworkers waits n 0 start_ring spends).spend s log s' e in
    let ended : log.ended ≡ true = elim o.pace [
      | inl ended ↦ ended
      | inr (inl more) ↦ absurd (omega arith)
      | inr (inr (u, never)) ↦ absurd (cc (never, (ends u).1))
    ] in
    let order : log.published ≡ inputs_of log.processed =
      sym (ap (◌++ log.published) pending-start)
      ∙ o.order
      ∙ rw ended (append-nil (inputs_of log.processed)) in
    (
      log,
      s',
      e,
      record {
        ended = ended;
        few = omega (arith, used);
        order = order;
        valid = o.valid;
        bytes = o.bytes;
      },
    )
