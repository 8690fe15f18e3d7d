-- ===== src/Fuzzer/Worker/Slot.antt =====
-- What a worker's loop over the slots leaves, whether it ends or the worker dies in a slot.
use mishegos.Base.{
  ℕ, zero, suc, ◌+◌, ◌-◌, ◌^◌, ◌≤◌, ◌<◌, ◌≡◌, refl, sym, ap, ◌∙◌, subst, false, ltb, ◌==◌,
  if◌then◌else◌, arith, lt→ltb, ==_iff, Bool-cases, inl, inr,
}
use mishegos.Slots.{InputSlot, OutputSlot}
use mishegos.Fuzzer.Worker.{
  InputChunk, OutputChunk, Decoding, Decoded, update, sub_size, sub_u32, to_u32, cleared, marked,
  by_call, decode_slots,
}

pub sub_size_lem : (a b : ℕ) → b ≤ a → a < 2 ^ 32 → sub_size a b ≡ a - b
sub_size_lem a b h lt = omega arith

pub sub_u32_lem : (a b : ℕ) → b ≤ a → a < 2 ^ 32 → sub_u32 a b ≡ a - b
sub_u32_lem a b h lt = omega arith

pub to_u32_lem : (a : ℕ) → a < 2 ^ 32 → to_u32 a ≡ a
to_u32_lem a lt = omega arith

-- What the worker stores behind slot `i`, with `n` slots left.
left_after :
    (count i n : ℕ)
    → count < 2 ^ 32
    → suc n + i ≡ count
    → to_u32 (sub_size (sub_size count i) 1) ≡ n
left_after count i n lt e =
    rw
      (
        sub_size_lem count i (omega arith) lt,
        sub_size_lem (count - i) 1 (omega arith) (omega arith),
      )
      (omega arith)

pub update_same : {A : Type 0} (i : ℕ) (a : A) (f : ℕ → A) → update f i a i ≡ a
update_same i a f = ap (λ b. if b then a else f i) ((==_iff i i).1 refl)

unfoldable pub outcome : Decoding → OutputSlot
outcome (Decoding.returned o) = o
outcome (Decoding.crashed o) = marked o

module _ (try_decode : OutputSlot → InputSlot → Decoding) (ic : InputChunk)
    (old : ℕ → OutputSlot) where
  -- The output of slot `j`: what the decoder left in it, with the mark of a crash if it died.
  unfoldable pub expected : ℕ → OutputSlot
  expected j = outcome (try_decode (cleared (old j)) (ic.inputs j))

  -- The slots below `k` have their outputs, and the others are as before.
  unfoldable pub Filled : ℕ → (ℕ → OutputSlot) → Type 0
  Filled k out = (j : ℕ) → out j ≡ (if ltb j k then expected j else old j)

  Filled-update :
      (i : ℕ) (out : ℕ → OutputSlot) (o : OutputSlot)
      → Filled i out
      → expected i ≡ o
      → Filled (suc i) (update out i o)
  unfolding Filled
  Filled-update i out o h e j = elim (Bool-cases (j == i)) [
    | inl same ↦
        let je : j ≡ i = ground arith in
        rw (same, lt→ltb j (suc i) (omega arith)) (sym (ap expected je ∙ e))
    | inr other ↦ rw other (h j ∙ ap (λ b. if b then expected j else old j) (ground arith))
  ]

  unfoldable pub After : ℕ → Decoded → Type 0
  After n (Decoded.finished oc) = (oc.remaining ≡ 0) × Filled ic.input_count oc.outputs
  After n (Decoded.died oc) =
      (i : ℕ) × (m : ℕ) × (oc.remaining ≡ suc m)
      × (i + suc m ≡ ic.input_count)
      × (suc m ≤ n)
      × Filled (suc i) (update oc.outputs i (marked (oc.outputs i)))

  Filled-update-update :
      (i : ℕ) (out : ℕ → OutputSlot) (o : OutputSlot) {p : OutputSlot}
      → Filled i out
      → expected i ≡ p
      → Filled (suc i) (update (update out i o) i p)
  unfolding Filled
  Filled-update-update i out o {p} h e j = elim (Bool-cases (j == i)) [
    | inl same ↦ let go = Filled-update i out p h e j in rw same (rw same at go)
    | inr other ↦ let go = Filled-update i out p h e j in rw other (rw other at go)
  ]

  After-weaken : (n : ℕ) (d : Decoded) → After n d → After (suc n) d
  unfolding After
  After-weaken n (Decoded.finished oc) h = h
  After-weaken n (Decoded.died oc) h = let (i, m, r, e, le, f) = h in (i, m, r, e, omega arith, f)

  call-After :
      (n : ℕ) (f g : OutputSlot → Decoded) (d : Decoding)
      → ((o : OutputSlot) → d ≡ Decoding.returned o → After n (f o))
      → ((o : OutputSlot) → d ≡ Decoding.crashed o → After n (g o))
      → After n (by_call f g d)
  call-After n f g (Decoding.returned o) hf hg = hf o refl
  call-After n f g (Decoding.crashed o) hf hg = hg o refl

  pub decode_slots-After :
      (n i : ℕ) (oc : OutputChunk)
      → ic.input_count < 2 ^ 32
      → n + i ≡ ic.input_count
      → oc.remaining ≡ n
      → Filled i oc.outputs
      → After n (decode_slots try_decode n i ic oc)
  unfolding decode_slots After expected outcome Filled
  decode_slots-After zero i oc lt e r h =
      let whole : i ≡ ic.input_count = omega arith in (r, subst (λ k. Filled k oc.outputs) whole h)
  decode_slots-After (suc n) i oc lt e r h =
      let here : ltb i i ≡ false = ground arith in
      let clean : oc.outputs i ≡ old i = h i ∙ ap (λ b. if b then expected i else old i) here in
      let slot : try_decode (cleared (oc.outputs i)) (ic.inputs i)
          ≡ try_decode (cleared (old i)) (ic.inputs i) =
        ap (λ o. try_decode (cleared o) (ic.inputs i)) clean in
      call-After (suc n) _ _ _
        (λ o step. After-weaken n _ (
          decode_slots-After n (i + 1) _ lt (omega arith)
            (left_after ic.input_count i n lt (omega arith))
            (subst (λ k. Filled k (update oc.outputs i o)) (omega arith)
              (Filled-update i oc.outputs o h (ap outcome (sym slot ∙ step))))))
        λ o step. (
          i,
          n,
          r,
          omega arith,
          omega arith,
          Filled-update-update i oc.outputs o h
              (ap outcome (sym slot ∙ step) ∙ ap marked (sym (update_same i o oc.outputs))),
        )
