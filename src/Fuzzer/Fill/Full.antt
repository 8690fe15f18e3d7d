-- ===== src/Fuzzer/Fill/Full.antt =====
-- src/mishegos/mishegos.c: what `main` fills a chunk with.
use mishegos.Base.{
  ℕ, zero, suc, ◌+◌, ◌≤◌, ◌≡◌, refl, Bool, false, not, ◌==◌, arith, Bool-cases, inl, inr, ==_iff,
}
use mishegos.Slots.{InputSlot}
use mishegos.Gen.{Gen}
use mishegos.Gen.Keeps.{Keeps, Keeps-pure, Keeps-bind}
use mishegos.Fuzzer.Worker.{mishegos_num_slots_per_chunk, update}
use mishegos.Fuzzer.Fill.{Filling, fill_slots, fill}

-- Every slot satisfies `P`, and the count is the number of slots exactly if the mutator is not exhausted.
pub record IsFilling (P : InputSlot → Type 0) (total : ℕ) (f : Filling) : Type 0 where
  pub slots : (j : ℕ) → P (f.inputs j)
  pub bounded : f.count ≤ total
  pub full : (f.count == total) ≡ not f.exhausted

P-update :
    (P : InputSlot → Type 0) (inputs : ℕ → InputSlot) (i : ℕ) (slot : InputSlot)
    → ((j : ℕ) → P (inputs j))
    → P slot
    → (j : ℕ) → P (update inputs i slot j)
P-update P inputs i slot h hs j = elim (Bool-cases (j == i)) [
  | inl same ↦ rw same hs
  | inr other ↦ rw other (h j)
]

module _ {S : Type 0} (I : S → Type 0) (P : InputSlot → Type 0)
    (mutator : InputSlot → Gen S (Bool × InputSlot)) where
  fill_slots-IsFilling :
      (n i total : ℕ) (f : Filling)
      → ((slot : InputSlot) → P slot → Keeps I (λ r. P r.1) (mutator slot))
      → ((j : ℕ) → P (f.inputs j))
      → f.count + n ≡ total
      → f.exhausted ≡ false
      → Keeps I (IsFilling P total) (fill_slots mutator n i f)
  unfolding fill_slots
  fill_slots-IsFilling zero i total f keeps h e more = Keeps-pure f (record {
    slots = h;
    bounded = omega arith;
    full = rw more ((==_iff f.count total).1 (omega arith));
  })
  fill_slots-IsFilling (suc n) i total f keeps h e more =
      Keeps-bind (keeps (f.inputs i) (h i)) λ r hr. elim (Bool-cases r.0) [
        | inl filled ↦ rw filled (
            fill_slots-IsFilling n (i + 1) total _ keeps (P-update P f.inputs i r.1 h hr)
              (omega arith) more)
        | inr ended ↦ rw ended (
            Keeps-pure _ (record {
              slots = P-update P f.inputs i r.1 h hr;
              bounded = omega arith;
              full = ground arith;
            }))
      ]

-- If every call of the mutator returns and keeps an invariant of its state and a property of slots, `main` fills a chunk: every slot
-- keeps the property, at most 4096 are counted, and all are exactly if the mutator was never
-- exhausted, so that a chunk which is not full tells the workers to end.
pub fill-IsFilling :
    {S : Type 0} (I : S → Type 0) (P : InputSlot → Type 0)
    (mutator : InputSlot → Gen S (Bool × InputSlot)) (inputs : ℕ → InputSlot)
    → ((slot : InputSlot) → P slot → Keeps I (λ r. P r.1) (mutator slot))
    → ((j : ℕ) → P (inputs j))
    → Keeps I (IsFilling P mishegos_num_slots_per_chunk) (fill mutator inputs)
unfolding fill
fill-IsFilling I P mutator inputs keeps h =
    fill_slots-IsFilling I P mutator mishegos_num_slots_per_chunk 0 mishegos_num_slots_per_chunk
      (record { inputs = inputs; count = 0; exhausted = false }) keeps h (omega arith) refl
