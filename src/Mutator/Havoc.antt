-- ===== src/Mutator/Havoc.antt =====
-- src/mishegos/mutator.c: `havoc_candidate` and `dummy_candidate`.
use mishegos.Base.{
  ◌+◌, ◌%◌, ◌≤◌, ◌≡◌, refl, Bool, true, false, [], ◌∷◌, length, All, arith, length-append,
  All-append, ◌∙◌,
}
use mishegos.Bytes.{IsByte, le_bytes}
use mishegos.Slots.{InputSlot, IsSized, mishegos_insn_maxlen}
use mishegos.Gen.{Rng, Gen, ◌>>=◌, pure, rand_byte, rand_long, store, load}
use mishegos.Gen.Returns.{
  Returns, Returns-pure, Returns-bind, Returns-rand_byte, Returns-rand_long, Returns-store,
  Returns-load_le, Wrote_full, length-Wrote, Wrote-nil,
}

-- `memcpy(slot->raw_insn, &lower, 8)` and `memcpy(slot->raw_insn + 8, &upper, 7)`.
pub havoc_candidate : (g : Rng) → InputSlot → Gen g.State (Bool × InputSlot)
havoc_candidate g slot = do
  r ← rand_byte g
  lower ← rand_long g
  upper ← rand_long g
  low ← load (le_bytes 8 lower) 0 8
  raw ← store slot.raw_insn 0 low
  high ← load (le_bytes 8 upper) 0 7
  raw ← store raw 8 high
  pure (true, record { len = r % mishegos_insn_maxlen + 1; raw_insn = raw })

pub dummy_candidate : (g : Rng) → InputSlot → Gen g.State (Bool × InputSlot)
dummy_candidate g slot = do
  raw ← store slot.raw_insn 0 (0x90 ∷ [])
  pure (false, record { len = 1; raw_insn = raw })

pub dummy_candidate-IsSized :
    (g : Rng) (slot : InputSlot)
    → length slot.raw_insn ≡ mishegos_insn_maxlen
    → Returns (λ res. IsSized res.1) (dummy_candidate g slot)
unfolding dummy_candidate
dummy_candidate-IsSized g slot full =
    Returns-bind (Returns-store 0 (0x90 ∷ []) (Wrote-nil slot.raw_insn) refl (omega arith))
      λ raw w. Returns-pure _ (record { size = length-Wrote w ∙ full; short = omega arith })

-- A slot that is filled with 1 to 15 bytes.
pub record IsFilled (slot : InputSlot) : Type 0 where
  pub nonempty : 1 ≤ slot.len
  pub short : slot.len ≤ mishegos_insn_maxlen
  pub size : length slot.raw_insn ≡ mishegos_insn_maxlen
  pub bytes : All IsByte slot.raw_insn

-- From every generator state, and whatever the slot held, `havoc_candidate` fills all 15 bytes of the
-- slot afresh, with a length from 1 to 15, and copies nothing out of bounds.
pub havoc_candidate-IsFilled :
    (g : Rng) (slot : InputSlot)
    → length slot.raw_insn ≡ mishegos_insn_maxlen
    → Returns (λ r. (r.0 ≡ true) × IsFilled r.1) (havoc_candidate g slot)
unfolding havoc_candidate
havoc_candidate-IsFilled g slot full = Returns-bind (Returns-rand_byte g) λ r _.
    Returns-bind (Returns-rand_long g) λ lower _. Returns-bind (Returns-rand_long g) λ upper _.
      Returns-bind (Returns-load_le 8 lower 8 (omega arith)) λ low (nl, bl).
        Returns-bind (Returns-store 0 low (Wrote-nil slot.raw_insn) refl (omega arith)) λ raw w.
          Returns-bind (Returns-load_le 8 upper 7 (omega arith)) λ high (nh, bh).
            let n = length-append low high in
            Returns-bind (Returns-store 8 high w (omega arith) (omega arith)) λ raw w.
              Returns-pure _ (
                refl,
                record {
                  nonempty = omega arith;
                  short = omega arith;
                  size = omega (arith, length-Wrote w);
                  bytes = rw (Wrote_full w (omega arith)) (All-append IsByte low high bl bh);
                },
              )
